-- ===== src/Server/Closes.antt =====
-- Workspace/server.c: the end of `processClient` behind the EOF, and its clean-up.
use remote_file_copy_udp_pro.Base.{
  ℕ, zero, suc, ◌+◌, ◌*◌, ◌≤◌, ◌<◌, ◌≡◌, refl, ap, Bool, true, false, Option, some, List, [], ◌∷◌,
  length, take, length-append, arith, Endian, leb, ◌==◌, if◌then◌else◌, Bool-cases, inl, inr,
}
use remote_file_copy_udp_pro.CircularQueue.{free}
use remote_file_copy_udp_pro.Net.{Event, timeout, ready, failure, recv_from}
use remote_file_copy_udp_pro.Pdu.{Received, max_buf}
use remote_file_copy_udp_pro.Server.Eof.{wait_on_eof_ack_state, resend_eof_state, is_eof_ack}
use remote_file_copy_udp_pro.Server.Process.{process_client, clean_up}
use remote_file_copy_udp_pro.Server.State.{done, wait_on_eof_ack, Child, returns, send}

-- The seconds that go by, and events without an error.
abbrev pub seconds : List Event → ℕ
seconds [] = 0
seconds (timeout ∷ es) = suc (seconds es)
seconds (ready a ∷ es) = seconds es
seconds (failure ∷ es) = seconds es

abbrev pub NoFailure : List Event → Type 0
NoFailure [] = Unit
NoFailure (timeout ∷ es) = NoFailure es
NoFailure (ready a ∷ es) = NoFailure es
NoFailure (failure ∷ es) = ⊥

-- With an open file and a window that is set, the clean-up returns.
pub clean_up-open :
    (c : Child) (es : List Event) {rest : List ℕ}
    → c.file ≡ some rest
    → c.window_set ≡ true
    → (c' : Child) × (clean_up c es ≡ returns done c' es) × (c'.sent ≡ c.sent)
unfolding clean_up
clean_up-open c es is_open set = elim (Bool-cases (c.window_size == 0)) [
  | inl none ↦ rw (clean_up, none, is_open) (freed, refl, same (c.window_size == 0))
  | inr window ↦ rw (clean_up, window, set, is_open) (freed, refl, same (c.window_size == 0))
]
  where
    freed : Child
    freed = if c.window_size == 0 then c else record c { window = free c.window }

    same : (b : Bool) → (if b then c else record c { window = free c.window }).sent ≡ c.sent
    same true = refl
    same false = refl

module _ (e : Endian) (in_cksum : List ℕ → ℕ) (fopen : List ℕ → Option (List ℕ)) (socket : ℕ)
    (request : Received) where
  -- Behind the EOF, with an open file, a window that is set, at most ten resendings so far and fuel
  -- for more than one round and two for each event: on events without an error in which more
  -- seconds go by than resendings are left, whatever arrives in between, `processClient` comes to
  -- an end behind its clean-up, with at most as many packets sent as resendings were left of the
  -- ten.
  pub process_client_closes :
      (fuel : ℕ) (c : Child) (es : List Event) {rest : List ℕ}
      → 1 + 2 * length es < fuel
      → NoFailure es
      → c.file ≡ some rest
      → c.window_set ≡ true
      → c.eof_resend_count ≤ 10
      → 10 < c.eof_resend_count + seconds es
      → (c' : Child) × (es' : List Event) × (process_client e in_cksum fopen socket request fuel
            wait_on_eof_ack c es
          ≡ returns done c' es')
        × (length c'.sent + c.eof_resend_count ≤ length c.sent + 10)
  unfolding process_client wait_on_eof_ack_state resend_eof_state
  process_client_closes zero c es lt calm is_open set few more = absurd (omega (arith, lt))
  process_client_closes (suc zero) c es lt calm is_open set few more = absurd (omega (arith, lt))
  process_client_closes (suc (suc fuel)) c [] lt calm is_open set few more =
      absurd (omega (arith, few, more))
  process_client_closes (suc (suc fuel)) c (failure ∷ es) lt calm is_open set few more = absurd calm
  process_client_closes (suc (suc fuel)) c (ready a ∷ es) lt calm is_open set few more =
      let at : Child = record c { info = record c.info { client_addr = a.source } } in
      elim (Bool-cases (is_eof_ack e in_cksum at (recv_from max_buf a))) [
        | inl acked ↦
            let (c', eq, same) = clean_up-open at es is_open set in
            (c', es, rw (process_client, acked) eq, omega (arith, few, ap length same))
        | inr other ↦
            let (c', es', eq, len) =
              process_client_closes (suc fuel) at es (omega (arith, lt)) calm is_open set few
                more in
            (c', es', rw (process_client, other) eq, len)
      ]
  process_client_closes (suc (suc fuel)) c (timeout ∷ es) lt calm is_open set few more =
      elim (Bool-cases (leb 10 c.eof_resend_count)) [
        | inl last ↦
            let (c', eq, same) = ends fuel c es (omega (arith, lt)) is_open set in
            (c', es, rw (process_client, last) eq, omega (arith, few, ap length same))
        | inr again ↦
            let bytes = take c.eof_len c.eof_packet in
            let resent : Child = record (send c bytes) {
              info = record c.info { eof_resend_count = c.eof_resend_count + 1 };
            } in
            let count : c.eof_resend_count < 10 = ground arith in
            let (c', es', eq, len) =
              process_client_closes fuel resent es (omega (arith, lt)) calm is_open set
                (omega (arith, count)) (omega (arith, more)) in
            (
              c',
              es',
              rw (process_client, again) eq,
              omega (
                arith,
                len,
                length-append {0} c.sent (record { target = c.client_addr; bytes = bytes } ∷ []),
              ),
            )
      ]
    where
      ends :
          (fuel : ℕ) (c : Child) (es : List Event) {rest : List ℕ}
          → 0 < fuel
          → c.file ≡ some rest
          → c.window_set ≡ true
          → (c' : Child) × (process_client e in_cksum fopen socket request fuel done c es
              ≡ returns done c' es)
            × (c'.sent ≡ c.sent)
      ends zero c es pos is_open set = absurd (omega (arith, pos))
      ends (suc fuel) c es pos is_open set = clean_up-open c es is_open set
