-- ===== src/System/Loops.antt =====
-- Workspace/server.c and Workspace/rcopy.c: the steps of both ends are rounds of their loops.
use remote_file_copy_udp_pro.Base.{
  ℕ, suc, ◌+◌, ◌≡◌, refl, Bool, Bool-cases, inl, inr, true, false, Option, none, some, List, ◌∷◌,
  leb, Endian, if◌then◌else◌,
}
use remote_file_copy_udp_pro.Net.{Event, timeout, ready, Arrival, recv_from}
use remote_file_copy_udp_pro.Server.{
  Child, Outcome, returns, faults, Next, polls_sent, polls_full, at_eof, broken, Poll, sent, full,
  fill, resume, receive_ack, resend_first, send_loop, done, wait_on_eof_ack, send_data, switch,
  send_data_state, process_client, wait_on_eof_ack_state, resend_eof_state, is_eof_ack,
}
use remote_file_copy_udp_pro.Pdu.{Received, max_buf}
use remote_file_copy_udp_pro.Server.Replies.{start_sending}
use remote_file_copy_udp_pro.System.Defs.{
  SenderState, polls, closes, over, next_poll, on_second, on_ack,
}

-- The outcome of a run of `send_loop` is that of the sender's next state.
abbrev pub IsRound : (Endian → (List ℕ → ℕ) → Outcome → Option SenderState → List Event → Type 0)
IsRound e in_cksum o none es = (c : Child) × (o ≡ faults c)
IsRound e in_cksum o (some (polls poll c seq count)) es =
    o ≡ send_loop e in_cksum poll c seq count es
IsRound e in_cksum o (some (closes c)) es = o ≡ returns wait_on_eof_ack c es
IsRound e in_cksum o (some (over c)) es = o ≡ returns done c es

module _ (e : Endian) (in_cksum : List ℕ → ℕ) where
  next_poll-IsRound :
      (seq : ℕ) (next : Next) (es : List Event)
      → IsRound e in_cksum
          (resume e in_cksum (λ poll c s. send_loop e in_cksum poll c s 0 es) seq es next)
          (next_poll e in_cksum seq next)
          es
  next_poll-IsRound seq (polls_sent c next) es = refl
  next_poll-IsRound seq (polls_full c) es = refl
  next_poll-IsRound seq (at_eof c) es = refl
  next_poll-IsRound seq (broken c) es = (c, refl)

  second-IsRound :
      (poll : Poll) (c : Child) (seq count : ℕ) (es : List Event)
      → IsRound e in_cksum
          (send_loop e in_cksum poll c seq count (timeout ∷ es))
          (on_second e in_cksum (polls poll c seq count))
          es
  unfolding send_loop on_second
  second-IsRound sent c seq count es = next_poll-IsRound seq (fill e in_cksum c seq) es
  second-IsRound full c seq count es = go (resend_first e in_cksum c) (leb 10 (count + 1))
    where
      go :
          (o : Option Child) (last : Bool)
          → IsRound e in_cksum
              (elim o [
                | none ↦ faults c
                | some c' ↦
                    let rest = send_loop e in_cksum full c' seq (count + 1) es in
                    if last then returns done c' es else rest
              ])
              (elim o [
                | none ↦ none
                | some c' ↦ some (if last then over c' else polls full c' seq (count + 1))
              ])
              es
      go none last = (c, refl)
      go (some c') true = refl
      go (some c') false = refl

  ack-IsRound :
      (poll : Poll) (c : Child) (seq count : ℕ) (a : Arrival) (es : List Event)
      → IsRound e in_cksum
          (send_loop e in_cksum poll c seq count (ready a ∷ es))
          (on_ack e in_cksum a (polls poll c seq count))
          es
  unfolding send_loop on_ack
  ack-IsRound sent c seq count a es = go (receive_ack e in_cksum c a)
    where
      go :
          (o : Option Child)
          → IsRound e in_cksum
              (elim o [ none ↦ faults c | some c' ↦ send_loop e in_cksum sent c' seq count es ])
              (elim o [ none ↦ none | some c' ↦ some (polls sent c' seq count) ])
              es
      go none = (c, refl)
      go (some c') = refl
  ack-IsRound full c seq count a es = go (receive_ack e in_cksum c a)
    where
      go :
          (o : Option Child)
          → IsRound e in_cksum
              (elim o [
                | none ↦ faults c
                | some c' ↦
                    resume e in_cksum
                      (λ poll' c'' seq'. send_loop e in_cksum poll' c'' seq' 0 es)
                      seq
                      es
                      (fill e in_cksum c' seq)
              ])
              (elim o [ none ↦ none | some c' ↦ next_poll e in_cksum seq (fill e in_cksum c' seq) ])
              es
      go none = (c, refl)
      go (some c') = next_poll-IsRound seq (fill e in_cksum c' seq) es

  start-IsRound :
      (fopen : List ℕ → Option (List ℕ)) (socket : ℕ) (request : Received) (c : Child)
      (es : List Event)
      → IsRound e in_cksum
          (switch e in_cksum fopen socket request send_data c es)
          (next_poll e in_cksum 1 (fill e in_cksum (start_sending c) 1))
          es
  unfolding switch send_data_state
  start-IsRound fopen socket request c es =
      next_poll-IsRound 1 (fill e in_cksum (start_sending c) 1) es

  module _ (fopen : List ℕ → Option (List ℕ)) (socket : ℕ) (request : Received) where
    -- The rounds of `processClient` that are left from a state of the sender behind its EOF.
    abbrev pub GoesOn : Outcome → ℕ → Option SenderState → List Event → Type 0
    GoesOn o fuel (some (closes c)) es =
        o ≡ process_client e in_cksum fopen socket request fuel wait_on_eof_ack c es
    GoesOn o fuel (some (over c)) es =
        o ≡ process_client e in_cksum fopen socket request fuel done c es
    GoesOn o fuel (some (polls poll c seq count)) es = ⊥
    GoesOn o fuel none es = ⊥

    resend-GoesOn :
        (fuel : ℕ) (c : Child) (es : List Event)
        → GoesOn
            (process_client e in_cksum fopen socket request
              (suc (suc fuel))
              wait_on_eof_ack
              c
              (timeout ∷ es))
            fuel
            (on_second e in_cksum (closes c))
            es
    unfolding process_client on_second wait_on_eof_ack_state resend_eof_state
    resend-GoesOn fuel c es = elim (Bool-cases (leb 10 c.eof_resend_count)) [
      | inl last ↦ rw (process_client, last) refl
      | inr more ↦ rw (process_client, more) refl
    ]

    eof_ack-GoesOn :
        (fuel : ℕ) (c : Child) (a : Arrival) (es : List Event)
        → GoesOn
            (process_client e in_cksum fopen socket request
              (suc fuel)
              wait_on_eof_ack
              c
              (ready a ∷ es))
            fuel
            (on_ack e in_cksum a (closes c))
            es
    unfolding process_client on_ack wait_on_eof_ack_state
    eof_ack-GoesOn fuel c a es =
        let c' : Child = record c { info = record c.info { client_addr = a.source } } in
        elim (Bool-cases (is_eof_ack e in_cksum c' (recv_from max_buf a))) [
          | inl acked ↦ rw (process_client, acked) refl
          | inr other ↦ rw (process_client, other) refl
        ]

  -- The steps of the sender are rounds of the source's loops: from the head of `SEND_DATA`, and
  -- from a poll of `send_data_state` on a time-out or a datagram, the run goes on as a run of the
  -- loops from the poll that the step has come to, or returns `WAIT_ON_EOF_ACK` where the step has
  -- sent the EOF and DONE where it has given up, or faults where the step faults; and behind the
  -- EOF the step on a time-out is two rounds of the loop of `processClient`, that on a datagram
  -- one.
  pub step-IsRound :
      (fopen : List ℕ → Option (List ℕ)) (socket : ℕ) (request : Received) (poll : Poll) (c : Child)
      (seq count fuel : ℕ) (a : Arrival) (es : List Event)
      → IsRound e in_cksum
          (switch e in_cksum fopen socket request send_data c es)
          (next_poll e in_cksum 1 (fill e in_cksum (start_sending c) 1))
          es
        × IsRound e in_cksum
            (send_loop e in_cksum poll c seq count (timeout ∷ es))
            (on_second e in_cksum (polls poll c seq count))
            es
        × IsRound e in_cksum
            (send_loop e in_cksum poll c seq count (ready a ∷ es))
            (on_ack e in_cksum a (polls poll c seq count))
            es
        × GoesOn fopen socket request
            (process_client e in_cksum fopen socket request
              (suc (suc fuel))
              wait_on_eof_ack
              c
              (timeout ∷ es))
            fuel
            (on_second e in_cksum (closes c))
            es
        × GoesOn fopen socket request
            (process_client e in_cksum fopen socket request
              (suc fuel)
              wait_on_eof_ack
              c
              (ready a ∷ es))
            fuel
            (on_ack e in_cksum a (closes c))
            es
  step-IsRound fopen socket request poll c seq count fuel a es = (
    start-IsRound fopen socket request c es,
    second-IsRound poll c seq count es,
    ack-IsRound poll c seq count a es,
    resend-GoesOn fopen socket request fuel c es,
    eof_ack-GoesOn fopen socket request fuel c a es,
  )
