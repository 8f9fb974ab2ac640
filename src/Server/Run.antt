-- ===== src/Server/Run.antt =====
-- Workspace/server.c: a run of `send_data_state`, its faults and what it sends.
use native.Mathlib.Decide.{ℕ_discrete}
use remote_file_copy_udp_pro.Base.{
  ℕ, suc, ◌+◌, ◌≤◌, ◌<◌, ◌≡◌, refl, sym, subst, Bool, true, false, Option, some, List, [], ◌∷◌,
  ◌++◌, length, take, ap, ◌∙◌, arith, length-drop, Endian, u32_mod, if◌then◌else◌, leb,
  length-append,
}
use remote_file_copy_udp_pro.CircularQueue.{is_full}
use remote_file_copy_udp_pro.CircularQueue.Window.{init-Holds}
use remote_file_copy_udp_pro.Net.{Event, timeout, ready, failure}
use remote_file_copy_udp_pro.Pdu.{
  Received, max_buf, create_pdu, datagram, stack_array, length-stack_array,
}
use remote_file_copy_udp_pro.Pdu.Wire.{wire, create_pdu-wire}
use remote_file_copy_udp_pro.Server.Chunks.{
  chunk_of, content, rest_of, Sending, Filled, window_full, file_end, chunk_sent, fill-Filled,
}
use remote_file_copy_udp_pro.Server.EofKept.{send_eof_kept}
use remote_file_copy_udp_pro.Server.Log.{
  AllSent, AllSent-append, Fills, chunk-filled, OfFile, data_pdu, eof_pdu, Sender,
  receive_ack-Sender,
}
use remote_file_copy_udp_pro.Server.Process.{switch}
use remote_file_copy_udp_pro.Server.Replies.{start_sending, OnNext, OnChild, Answerable}
use remote_file_copy_udp_pro.Server.Send.{resend_first}
use remote_file_copy_udp_pro.Server.Sizes.{IsSameSize, KeepsNext, fill-size}
use remote_file_copy_udp_pro.Server.State.{
  State, done, send_data, wait_on_eof_ack, resend_eof, Child, Outcome, returns, waits, exits,
  faults, out_of_fuel, Next, send,
}
use remote_file_copy_udp_pro.Server.Timeouts.{resend_first-Sending}
use remote_file_copy_udp_pro.Server.Transfer.{
  Poll, sent, full, fill, resume, send_eof, send_loop, send_data_state,
}

module _ (e : Endian) (in_cksum : List ℕ → ℕ) where
  module _ (size : ℕ) (file : List ℕ) where
    -- The EOF that `resend_eof_state` sends again, in the states that lead there; there is no other
    -- state but DONE.
    abbrev pub KeepsEof : State → Child → Type 0
    KeepsEof wait_on_eof_ack c = OfFile e in_cksum size file (take c.eof_len c.eof_packet)
    KeepsEof resend_eof c = OfFile e in_cksum size file (take c.eof_len c.eof_packet)
    KeepsEof done c = Unit
    KeepsEof state c = ⊥

    -- The child behind the transfer: what it has sent is of the file, and it can clean up.
    pub record IsServed (state : State) (c : Child) : Type 0 where
      pub log : AllSent (OfFile e in_cksum size file) c.sent
      pub kept : KeepsEof state c
      pub rest : List ℕ
      pub is_open : c.file ≡ some rest
      pub set : c.window_set ≡ true

    -- What is claimed of the outcome: no fault, and a log of PDUs of the file.
    unfoldable pub Sends : Outcome → Type 0
    Sends (returns state c es) = IsServed state c
    Sends (waits c) = AllSent (OfFile e in_cksum size file) c.sent
    Sends (exits c) = AllSent (OfFile e in_cksum size file) c.sent
    Sends (faults c) = ⊥
    Sends out_of_fuel = ⊥

    -- At the poll on a full window the window is full.
    abbrev AtPoll : Poll → Child → Type 0
    AtPoll sent c = Unit
    AtPoll full c = is_full c.window ≡ true

    -- What `fill` leaves of a sender.
    abbrev Resumes : Poll → Child → ℕ → Type 0
    Resumes poll c seq = (k : ℕ) × (seq ≡ suc k) × Sender e in_cksum size file k c × AtPoll poll c

    module _ (fits : size ≤ max_buf) (pos : 0 < size) (short : length file + 2 < u32_mod) where
      Fills-next :
          (k : ℕ)
          → Fills e in_cksum size file k
          → 0 < length (rest_of size file k)
          → Fills e in_cksum size file (suc k)
      Fills-next k fills more j lt = elim (ℕ_discrete j k) [
        | yes same ↦ rw same more
        | no other ↦ fills j (omega (arith, lt, other))
      ]

      -- The EOF behind the last chunk.
      send_eof-IsServed :
          (k : ℕ) (c : Child)
          → Sender e in_cksum size file k c
          → rest_of size file k ≡ []
          → IsServed wait_on_eof_ack (send_eof e in_cksum c (suc k))
      unfolding send_eof
      send_eof-IsServed k c v end =
          let eof = create_pdu e in_cksum (stack_array 7) (suc k) 10 [] in
          let wired =
            create_pdu-wire e in_cksum (stack_array 7) (suc k) 10 []
              (omega (arith, length-stack_array 7)) in
          record {
            log =
                AllSent-append (OfFile e in_cksum size file) c.sent
                  (record { target = c.client_addr; bytes = datagram eof }) v.log
                  (eof_pdu k v.fills end wired);
            kept = eof_pdu k v.fills end (send_eof_kept e in_cksum (suc k) c v.store);
            rest = _;
            is_open = v.sending.reads;
            set = v.set;
          }

      -- Where the loop goes on it does so from a sender.
      resume-Sends :
          (k : ℕ) (c : Child) (es : List Event) (again : Poll → Child → ℕ → Outcome)
          (P : Poll → Child → ℕ → Type 0)
          → Sender e in_cksum size file k c
          → OnNext e in_cksum P (suc k) (fill e in_cksum c (suc k))
          → ((poll : Poll) (c' : Child) (seq : ℕ)
              → Resumes poll c' seq
              → P poll c' seq
              → Sends (again poll c' seq))
          → Sends (resume e in_cksum again (suc k) es (fill e in_cksum c (suc k)))
      unfolding Sends
      resume-Sends k c es again P v cond ih =
          go (fill e in_cksum c (suc k)) cond
            (fill-Filled e in_cksum size file fits v.lo k c pos (omega (arith, v.counted))
              v.sending)
            (fill-size e in_cksum c (suc k))
        where
          go :
              (next : Next)
              → OnNext e in_cksum P (suc k) next
              → Filled e in_cksum size file fits v.lo k c next
              → KeepsNext c next
              → Sends (resume e in_cksum again (suc k) es next)
          go next cond' (window_full eq at) kept =
              rw eq
                (ih full c (suc k) (k, refl, v, at) (subst (OnNext e in_cksum P (suc k)) eq cond'))
          go next cond' (file_end eq end) kept = rw eq (send_eof-IsServed k c v end)
          go next cond' (chunk_sent c' eq s more log) kept = rw eq (
              ih sent c' (suc (suc k)) (suc k, refl, sender c' s more log (rw eq at kept), tt)
                (subst (OnNext e in_cksum P (suc k)) eq cond'))
            where
              sender :
                  (c' : Child)
                  → Sending e in_cksum size file v.lo (suc k) c'
                  → 0 < length (rest_of size file k)
                  → c'.sent
                    ≡ c.sent
                      ++ (record {
                        target = c.client_addr;
                        bytes = content e in_cksum size file (suc k);
                      }
                          ∷ [])
                  → IsSameSize c c'
                  → Sender e in_cksum size file (suc k) c'
              sender c' s more log (_, array, window, _) = record {
                lo = v.lo;
                sending = s;
                counted = omega (arith, v.counted, length-drop size (rest_of size file k));
                fills = Fills-next k v.fills more;
                log = subst (AllSent (OfFile e in_cksum size file)) (sym log) (
                    AllSent-append (OfFile e in_cksum size file) c.sent _ v.log (
                      data_pdu (suc k) 16 refl
                        (chunk-filled e in_cksum size file fits pos (suc k) (suc k)
                          (Fills-next k v.fills more) (omega arith) (omega arith))
                        refl));
                store = omega (arith, v.store, ap length array);
                set = window ∙ v.set;
              }

      -- A time-out on a full window.
      pub resend_first-Sender :
          (k : ℕ) (c : Child)
          → Sender e in_cksum size file k c
          → is_full c.window ≡ true
          → (c' : Child) × (resend_first e in_cksum c ≡ some c')
            × Sender e in_cksum size file k c'
            × (is_full c'.window ≡ true)
            × (length c'.sent ≡ length c.sent + 1)
      resend_first-Sender k c v at =
          let (s, above, below, eq) =
            resend_first-Sending e in_cksum size file fits v.lo k c (omega (arith, v.counted))
              v.sending at in
          let again = wire e in_cksum s 18 (chunk_of size file s) in
          (
            send c again,
            eq,
            record {
              lo = v.lo;
              sending = record {
                holds = v.sending.holds;
                reads = v.sending.reads;
                sized = v.sending.sized;
                from_one = v.sending.from_one;
              };
              counted = v.counted;
              fills = v.fills;
              log =
                  AllSent-append (OfFile e in_cksum size file) c.sent
                    (record { target = c.client_addr; bytes = again }) v.log
                    (data_pdu s 18 refl
                      (chunk-filled e in_cksum size file fits pos k s v.fills
                        (omega (arith, above, v.sending.from_one)) below)
                      refl);
              store = v.store;
              set = v.set;
            },
            at,
            length-append c.sent _,
          )

      -- The loops of `send_data_state`, from a sender at one of their polls.
      pub send_loop-Sends :
          (poll : Poll) (k : ℕ) (c : Child) (count : ℕ) (es : List Event)
          → Sender e in_cksum size file k c
          → AtPoll poll c
          → Answerable e in_cksum poll c (suc k) es
          → Sends (send_loop e in_cksum poll c (suc k) count es)
      unfolding send_loop Sends Answerable
      send_loop-Sends poll k c count [] v at ok = v.log
      send_loop-Sends poll k c count (failure ∷ es) v at ok = v.log
      send_loop-Sends sent k c count (timeout ∷ es) v at ok =
          resume-Sends k c es (λ p d s. send_loop e in_cksum p d s 0 es)
            (λ p d s. Answerable e in_cksum p d s es) v ok
            λ poll c' seq r cond. rw r.1 (
              send_loop-Sends poll r.0 c' 0 es r.2 r.3
                (subst (λ t. Answerable e in_cksum poll c' t es) r.1 cond))
      send_loop-Sends full k c count (timeout ∷ es) v at ok =
          let (c', eq, v', at', longer) = resend_first-Sender k c v at in
          rw (eq, Sends)
            (go c' (leb 10 (count + 1)) v' (
              send_loop-Sends full k c' (count + 1) es v' at'
                (subst (OnChild e in_cksum (λ d. Answerable e in_cksum full d (suc k) es)) eq ok)))
        where
          go :
              (c' : Child) (last : Bool)
              → Sender e in_cksum size file k c'
              → Sends (send_loop e in_cksum full c' (suc k) (count + 1) es)
              → Sends (
                  if last
                  then returns done c' es
                  else send_loop e in_cksum full c' (suc k) (count + 1) es)
          go c' true v' rest = record {
            log = v'.log;
            kept = tt;
            rest = _;
            is_open = v'.sending.reads;
            set = v'.set;
          }
          go c' false v' rest = rest
      send_loop-Sends sent k c count (ready a ∷ es) v at ok =
          let (c', eq, v') = receive_ack-Sender e in_cksum size file fits pos k c a v ok.0 in
          rw (eq, Sends)
            (send_loop-Sends sent k c' count es v' tt
              (subst (OnChild e in_cksum (λ d. Answerable e in_cksum sent d (suc k) es)) eq ok.1))
      send_loop-Sends full k c count (ready a ∷ es) v at ok =
          let (c', eq, v') = receive_ack-Sender e in_cksum size file fits pos k c a v ok.0 in
          rw (eq, Sends)
            (resume-Sends k c' es (λ p d s. send_loop e in_cksum p d s 0 es)
              (λ p d s. Answerable e in_cksum p d s es) v'
              (subst
                (OnChild e in_cksum (λ d.
                  OnNext e in_cksum (λ p d' s. Answerable e in_cksum p d' s es) (suc k)
                    (fill e in_cksum d (suc k))))
                eq ok.1)
              λ poll c'' seq r cond. rw r.1 (
                send_loop-Sends poll r.0 c'' 0 es r.2 r.3
                  (subst (λ t. Answerable e in_cksum poll c'' t es) r.1 cond)))

      -- `SEND_DATA` of `processClient`, for a file that is open and not yet read, of fewer than
      -- 2^32 - 2 bytes, a positive window and a buffer size from 1 to `MAXBUF`: if all that was
      -- sent before is of the file and every SREJ that arrives names a packet in the window, the
      -- child never faults, and its log of what it has sent holds only acceptances of a name, data
      -- PDUs, each with the chunk of its own number, and EOFs with the number behind the last
      -- chunk, once the whole file is read.
      pub send_data-Sends :
          (fopen : List ℕ → Option (List ℕ)) (socket : ℕ) (request : Received) (c : Child)
          (es : List Event)
          → c.file ≡ some file
          → c.buffer_size ≡ size
          → 0 < c.window_size
          → 7 ≤ length c.eof_packet
          → AllSent (OfFile e in_cksum size file) c.sent
          → OnNext e in_cksum
              (λ p d s. Answerable e in_cksum p d s es)
              1
              (fill e in_cksum (start_sending c) 1)
          → Sends (switch e in_cksum fopen socket request send_data c es)
      unfolding switch send_data_state
      send_data-Sends fopen socket request c es opened sized room store log ok =
          resume-Sends 0 (start_sending c) es (λ p d s. send_loop e in_cksum p d s 0 es)
            (λ p d s. Answerable e in_cksum p d s es)
            (record {
              lo = 1;
              sending = record {
                holds = init-Holds (content e in_cksum size file) c.window c.window_size 1 room;
                reads = opened;
                sized = sized;
                from_one = omega arith;
              };
              counted = omega arith;
              fills = λ j lt. absurd (omega (arith, lt));
              log = log;
              store = store;
              set = refl;
            })
            ok
            λ poll c' seq r cond. rw r.1 (
              send_loop-Sends poll r.0 c' 0 es r.2 r.3
                (subst (λ t. Answerable e in_cksum poll c' t es) r.1 cond))
