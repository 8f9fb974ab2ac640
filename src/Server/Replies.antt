-- ===== src/Server/Replies.antt =====
-- Workspace/server.c: the SREJs that arrive during a run of `send_data_state`.
use remote_file_copy_udp_pro.Base.{ℕ, true, Option, none, some, List, [], ◌∷◌, Endian}
use remote_file_copy_udp_pro.CircularQueue.{init}
use remote_file_copy_udp_pro.Net.{Event, timeout, ready, failure}
use remote_file_copy_udp_pro.Server.Log.{IsAnswerable}
use remote_file_copy_udp_pro.Server.Send.{receive_ack, resend_first}
use remote_file_copy_udp_pro.Server.State.{Child, Next, polls_sent, polls_full, at_eof, broken}
use remote_file_copy_udp_pro.Server.Transfer.{Poll, sent, full, fill}

-- The child of `processClient` at the head of `send_data_state`: the window is new.
abbrev pub start_sending : Child → Child
start_sending c = record c {
  info = record c.info { eof_resend_count = 0 };
  window = (init true c.window c.window_size).1;
  window_set = true;
}

module _ (e : Endian) (in_cksum : List ℕ → ℕ) where
  -- A statement about what `fill` has come to, where the loop goes on.
  abbrev pub OnNext : (Poll → Child → ℕ → Type 0) → ℕ → Next → Type 0
  OnNext P seq (polls_sent c next) = P sent c next
  OnNext P seq (polls_full c) = P full c seq
  OnNext P seq (at_eof c) = Unit
  OnNext P seq (broken c) = Unit

  abbrev pub OnChild : (Child → Type 0) → Option Child → Type 0
  OnChild P none = Unit
  OnChild P (some c) = P c

  -- Every SREJ that arrives during the run names a packet that the window holds at that moment.
  unfoldable pub Answerable : Poll → Child → ℕ → List Event → Type 0
  Answerable poll c seq [] = Unit
  Answerable poll c seq (failure ∷ es) = Unit
  Answerable sent c seq (timeout ∷ es) =
      OnNext (λ p c' s. Answerable p c' s es) seq (fill e in_cksum c seq)
  Answerable full c seq (timeout ∷ es) =
      OnChild (λ c'. Answerable full c' seq es) (resend_first e in_cksum c)
  Answerable sent c seq (ready a ∷ es) =
      IsAnswerable c a × OnChild (λ c'. Answerable sent c' seq es) (receive_ack e in_cksum c a)
  Answerable full c seq (ready a ∷ es) =
      IsAnswerable c a
      × OnChild (λ c'. OnNext (λ p c'' s. Answerable p c'' s es) seq (fill e in_cksum c' seq))
          (receive_ack e in_cksum c a)
