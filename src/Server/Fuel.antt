-- ===== src/Server/Fuel.antt =====
-- Workspace/server.c: the rounds of the loop of `processClient` that a state needs.
use remote_file_copy_udp_pro.Base.{
  ℕ, suc, ◌+◌, ◌-◌, ◌*◌, ◌≤◌, ◌<◌, ◌≢◌, refl, Bool, true, false, Option, none, some, List, [], ◌∷◌,
  length, arith, Endian, ltb, leb, ◌==◌, if◌then◌else◌, Bool-cases, inl, inr,
}
use remote_file_copy_udp_pro.Net.{recv_from, Event, timeout, ready, failure}
use remote_file_copy_udp_pro.Pdu.{Received, flag_of, max_buf}
use remote_file_copy_udp_pro.Server.Eof.{wait_on_eof_ack_state, resend_eof_state, is_eof_ack}
use remote_file_copy_udp_pro.Server.Process.{switch}
use remote_file_copy_udp_pro.Server.Send.{receive_ack, resend_first, wait_on_ack_state}
use remote_file_copy_udp_pro.Server.Setup.{
  request_len, filename_size, answer, filename_state, ok_ack_loop, write_file_ok_ack_state,
}
use remote_file_copy_udp_pro.Server.State.{
  State, start, filename, write_file_ok_ack, send_data, wait_on_ack, wait_on_eof_ack, resend_eof,
  done, Child, Outcome, returns, waits, exits, faults, out_of_fuel, Next, polls_sent, polls_full,
  at_eof, broken,
}
use remote_file_copy_udp_pro.Server.Transfer.{
  Poll, sent, full, fill, resume, send_loop, send_data_state,
}

-- The rounds that a state needs where no event is left.
abbrev pub rank : State → ℕ
rank start = 6
rank filename = 5
rank write_file_ok_ack = 4
rank send_data = 3
rank wait_on_ack = 2
rank resend_eof = 2
rank wait_on_eof_ack = 1
rank done = 0

-- An outcome that leaves a next state of rank `r` at most, with `n` events at most.
abbrev Leaves : ℕ → ℕ → Outcome → Type 0
Leaves r n (returns state c es) = (rank state ≤ r) × (length es ≤ n)
Leaves r n (waits c) = Unit
Leaves r n (exits c) = Unit
Leaves r n (faults c) = Unit
Leaves r n out_of_fuel = ⊥

Leaves-if :
    (r n : ℕ) (b : Bool) (o o' : Outcome)
    → Leaves r n o
    → Leaves r n o'
    → Leaves r n (if b then o else o')
Leaves-if r n true o o' l l' = l
Leaves-if r n false o o' l l' = l'

Leaves-suc : (r n : ℕ) (o : Outcome) → Leaves r n o → Leaves r (suc n) o
Leaves-suc r n (returns state c es) l = (l.0, omega (arith, l.1))
Leaves-suc r n (waits c) l = tt
Leaves-suc r n (exits c) l = tt
Leaves-suc r n (faults c) l = tt
Leaves-suc r n out_of_fuel l = l

ok_ack_loop-Leaves :
    (count : ℕ) (c : Child) (es : List Event) → Leaves 3 (length es) (ok_ack_loop count c es)
unfolding ok_ack_loop
ok_ack_loop-Leaves count c [] = tt
ok_ack_loop-Leaves count c (failure ∷ es) = tt
ok_ack_loop-Leaves count c (timeout ∷ es) =
    Leaves-if 3 (suc (length es)) (ltb (count + 1) 10) _ _
      (Leaves-suc 3 (length es) _ (ok_ack_loop-Leaves (count + 1) c es)) (omega arith, omega arith)
ok_ack_loop-Leaves count c (ready a ∷ es) =
    let at : Child = record c { info = record c.info { client_addr = a.source } } in
    Leaves-if 3 (suc (length es)) (flag_of (recv_from max_buf a) == 34) _ _
      (omega arith, omega arith) (Leaves-suc 3 (length es) _ (ok_ack_loop-Leaves count at es))

module _ (e : Endian) (in_cksum : List ℕ → ℕ) where
  resume-Leaves :
      (again : Poll → Child → ℕ → Outcome) (seq n : ℕ) (es : List Event) (next : Next)
      → length es ≤ n
      → ((poll : Poll) (c : Child) (s : ℕ) → Leaves 1 n (again poll c s))
      → Leaves 1 n (resume e in_cksum again seq es next)
  resume-Leaves again seq n es (polls_sent c s) le ih = ih sent c s
  resume-Leaves again seq n es (polls_full c) le ih = ih full c seq
  resume-Leaves again seq n es (at_eof c) le ih = (omega arith, le)
  resume-Leaves again seq n es (broken c) le ih = tt

  -- A loop that goes on, unless the step before it faults.
  child-Leaves :
      (r n : ℕ) (c : Child) (step : Option Child) (rest : Child → Outcome)
      → ((c' : Child) → Leaves r n (rest c'))
      → Leaves r n (elim step [ none ↦ faults c | some c' ↦ rest c' ])
  child-Leaves r n c none rest ih = tt
  child-Leaves r n c (some c') rest ih = ih c'

  send_loop-Leaves :
      (poll : Poll) (c : Child) (seq count : ℕ) (es : List Event)
      → Leaves 1 (length es) (send_loop e in_cksum poll c seq count es)
  unfolding send_loop
  send_loop-Leaves poll c seq count [] = tt
  send_loop-Leaves poll c seq count (failure ∷ es) = tt
  send_loop-Leaves sent c seq count (timeout ∷ es) = Leaves-suc 1 (length es) _ (
      resume-Leaves _ seq (length es) es (fill e in_cksum c seq) (omega arith)
        λ p d s. send_loop-Leaves p d s 0 es)
  send_loop-Leaves full c seq count (timeout ∷ es) =
      child-Leaves 1 (suc (length es)) c (resend_first e in_cksum c) _ λ c'.
        Leaves-if 1 (suc (length es)) (leb 10 (count + 1)) _ _ (omega arith, omega arith)
          (Leaves-suc 1 (length es) _ (send_loop-Leaves full c' seq (count + 1) es))
  send_loop-Leaves sent c seq count (ready a ∷ es) =
      child-Leaves 1 (suc (length es)) c (receive_ack e in_cksum c a) _
        λ c'. Leaves-suc 1 (length es) _ (send_loop-Leaves sent c' seq count es)
  send_loop-Leaves full c seq count (ready a ∷ es) =
      child-Leaves 1 (suc (length es)) c (receive_ack e in_cksum c a) _ λ c'.
        Leaves-suc 1 (length es) _ (
          resume-Leaves _ seq (length es) es (fill e in_cksum c' seq) (omega arith)
            λ p d s. send_loop-Leaves p d s 0 es)

-- An outcome whose next state needs fewer rounds than `m`.
abbrev pub Drops : ℕ → Outcome → Type 0
Drops m (returns state c es) = rank state + 2 * length es < m
Drops m (waits c) = Unit
Drops m (exits c) = Unit
Drops m (faults c) = Unit
Drops m out_of_fuel = ⊥

Drops-if :
    (m : ℕ) (b : Bool) (o o' : Outcome) → Drops m o → Drops m o' → Drops m (if b then o else o')
Drops-if m true o o' d d' = d
Drops-if m false o o' d d' = d'

Leaves-Drops : (r n m : ℕ) (o : Outcome) → r + 2 * n < m → Leaves r n o → Drops m o
Leaves-Drops r n m (returns state c es) lt l = omega (arith, l.0, l.1)
Leaves-Drops r n m (waits c) lt l = tt
Leaves-Drops r n m (exits c) lt l = tt
Leaves-Drops r n m (faults c) lt l = tt
Leaves-Drops r n m out_of_fuel lt l = l

module _ (e : Endian) (in_cksum : List ℕ → ℕ) (fopen : List ℕ → Option (List ℕ)) (socket : ℕ)
    (request : Received) where
  answer-Drops :
      (c : Child) (name : List ℕ) (w b : ℕ) (file : Option (List ℕ)) (es : List Event)
      → Drops (5 + 2 * length es) (answer e in_cksum fopen c name w b file es)
  answer-Drops c name w b none es = omega arith
  answer-Drops c name w b (some file) es = omega arith

  filename-Drops :
      (c : Child) (es : List Event)
      → Drops (5 + 2 * length es) (filename_state e in_cksum fopen socket request c es)
  unfolding filename_state
  filename-Drops c es =
      let m = 5 + 2 * length es in
      Drops-if m (ltb request.bytes_recv request_len) _ _ tt (
        Drops-if m (leb filename_size (request.bytes_recv - request_len)) _ _ tt
          (answer-Drops _ _ _ _ (fopen _) es))

  wait_on_ack-Drops :
      (c : Child) (es : List Event) → Drops (2 + 2 * length es) (wait_on_ack_state e in_cksum c es)
  unfolding wait_on_ack_state
  wait_on_ack-Drops c [] = tt
  wait_on_ack-Drops c (timeout ∷ es) = omega arith
  wait_on_ack-Drops c (failure ∷ es) = tt
  wait_on_ack-Drops c (ready a ∷ es) = Leaves-Drops 3 (length es) _ _ (omega arith) (
      child-Leaves e in_cksum 3 (length es) c (receive_ack e in_cksum c a) _
        λ c'. (omega arith, omega arith))

  wait_on_eof-Drops :
      (c : Child) (es : List Event)
      → Drops (1 + 2 * length es) (wait_on_eof_ack_state e in_cksum c es)
  unfolding wait_on_eof_ack_state
  wait_on_eof-Drops c [] = tt
  wait_on_eof-Drops c (timeout ∷ es) = omega arith
  wait_on_eof-Drops c (failure ∷ es) = tt
  wait_on_eof-Drops c (ready a ∷ es) =
      elim (Bool-cases (
        is_eof_ack e in_cksum (record c { info = record c.info { client_addr = a.source } })
          (recv_from max_buf a))) [
            | inl yes_ack ↦ rw yes_ack (omega arith)
            | inr no_ack ↦ rw no_ack (omega arith)
          ]

  resend_eof-Drops :
      (c : Child) (es : List Event) → Drops (2 + 2 * length es) (resend_eof_state c es)
  unfolding resend_eof_state
  resend_eof-Drops c es = Drops-if _ (leb 10 c.eof_resend_count) _ _ (omega arith) (omega arith)

  -- Each state of the `switch` but DONE leads to one that needs fewer rounds.
  pub switch-Drops :
      (state : State) (c : Child) (es : List Event)
      → state ≢ done
      → Drops (rank state + 2 * length es) (switch e in_cksum fopen socket request state c es)
  unfolding switch
  switch-Drops start c es ne = omega arith
  switch-Drops filename c es ne = filename-Drops c es
  switch-Drops write_file_ok_ack c es ne =
      unfold write_file_ok_ack_state in
      Leaves-Drops 3 (length es) _ _ (omega arith) (ok_ack_loop-Leaves 0 c es)
  switch-Drops send_data c es ne =
      unfold send_data_state in
      Leaves-Drops 1 (length es) _ _ (omega arith) (
        resume-Leaves e in_cksum _ 1 (length es) es (fill e in_cksum _ 1) (omega arith)
          λ p d s. send_loop-Leaves e in_cksum p d s 0 es)
  switch-Drops wait_on_ack c es ne = wait_on_ack-Drops c es
  switch-Drops wait_on_eof_ack c es ne = wait_on_eof-Drops c es
  switch-Drops resend_eof c es ne = resend_eof-Drops c es
  switch-Drops done c es ne = absurd (ne refl)
