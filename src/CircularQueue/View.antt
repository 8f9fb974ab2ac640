-- ===== src/CircularQueue/View.antt =====
-- The circular queue as a finite map from sequence numbers to packets, which forgets the slots.
use native.Mathlib.Decide.{ℕ_discrete}
use remote_file_copy_udp_pro.Base.{
  ℕ, ◌%◌, ◌<◌, ◌≡◌, ◌≢◌, refl, sym, ap, ◌∙◌, Bool, true, false, ◌&&◌, Option, none, some, List,
  length, get_elem?, set, replicate, arith, get_elem?-set_self, get_elem?-set_ne, Bool-cases,
  Option-cases, ◌==◌, ==_iff, if◌then◌else◌, ◌⊎◌, inl, inr, get_elem?-replicate_eq,
}
use remote_file_copy_udp_pro.CircularQueue.Cases.{
  filled, insert-ok, insert-error, remove-ok, remove-error,
}
use remote_file_copy_udp_pro.CircularQueue.Defs.{
  QueueEntry, CircularQueue, Status, ok, error, zero_entry, init, insert, get, remove,
}
use remote_file_copy_udp_pro.CircularQueue.Valid.{IsValid, slot-total}

-- The packet that a slot holds for a sequence number.
abbrev pub packet_for : ℕ → Option QueueEntry → Option (List ℕ)
packet_for t none = none
packet_for t (some x) = if x.valid && (x.sequence_num == t) then x.packet else none

-- The packet that the queue holds for a sequence number.
abbrev pub held : CircularQueue → ℕ → Option (List ℕ)
held q t = packet_for t (get_elem? q.entries (t % q.window_size))

module _ (q : CircularQueue) (w : IsValid q) where
  -- A write to the slot of `s` changes only what the queue holds for sequence numbers of that slot.
  held-set :
      (s t : ℕ) (v : QueueEntry)
      → 0 < q.window_size
      → packet_for t (get_elem? (set q.entries (s % q.window_size) v) (t % q.window_size))
        ≡ (if s % q.window_size == t % q.window_size then packet_for t (some v) else held q t)
  held-set s t v pos = elim (ℕ_discrete (s % q.window_size) (t % q.window_size)) [
    | yes same ↦ rw (
      (==_iff (s % q.window_size) (t % q.window_size)).1 same,
      ← same,
      get_elem?-set_self q.entries (s % q.window_size) v (omega (arith, w.sized)),
    )
    | no other ↦ rw (get_elem?-set_ne q.entries _ _ v other) (ground arith)
  ]

  -- In an unused slot, or one of another packet, the queue holds nothing for `s`.
  pub held-unused :
      (s t : ℕ) (x : QueueEntry)
      → get_elem? q.entries (s % q.window_size) ≡ some x
      → s % q.window_size ≡ t % q.window_size
      → (x.valid ≡ false) ⊎ (x.sequence_num ≢ t)
      → held q t ≡ none
  held-unused s t x found same why = rw (← same, found) (ground arith)

  -- On a valid queue, an insertion that succeeds makes the queue hold the packet for its number,
  -- and changes nothing that it holds for another number.
  pub held-insert :
      (allocated : Bool) (s t : ℕ) (packet : List ℕ) {q' : CircularQueue}
      → insert allocated q s packet ≡ some (ok, q')
      → held q' t ≡ (if t == s then some packet else held q t)
  held-insert allocated s t packet h =
      let (x, found, unused, room, e) = insert-ok allocated q s packet h in
      let slot = s % q.window_size in
      rw (e, held-set s t (filled s packet) (omega arith))
        (elim (ℕ_discrete slot (t % q.window_size)) [
          | yes same ↦ ground (arith, held-unused s t x found same (inl unused))
          | no other ↦ elim (ℕ_discrete t s) [
            | yes eq ↦ absurd (other (ap (λ k. k % q.window_size) (sym eq)))
            | no ne ↦ ground arith
          ]
        ])

  -- On a valid queue, an insertion that fails (the queue is full, the slot is in use, or `malloc`
  -- fails) changes nothing that the queue holds.
  pub held-insert_error :
      (allocated : Bool) (s t : ℕ) (packet : List ℕ) {q' : CircularQueue}
      → insert allocated q s packet ≡ some (error, q')
      → held q' t ≡ held q t
  held-insert_error allocated s t packet h = elim (insert-error allocated q s packet h) [
    | inl same ↦ rw same refl
    | inr (x, found, unused, pos, e) ↦
        let slot = s % q.window_size in
        rw (e, held-set s t (record x { packet = none }) pos)
          (elim (ℕ_discrete slot (t % q.window_size)) [
            | yes same ↦ ground (arith, held-unused s t x found same (inl unused))
            | no other ↦ ground arith
          ])
  ]

  held-remove_ok :
      (s t : ℕ) {q' : CircularQueue}
      → remove q s ≡ some (ok, q')
      → held q' t ≡ (if t == s then none else held q t)
  held-remove_ok s t h =
      let (x, found, taken, here, pos, e) = remove-ok q s h in
      let slot = s % q.window_size in
      rw (e, held-set s t (record x { packet = none; valid = false }) pos)
        (elim (ℕ_discrete slot (t % q.window_size)) [
          | yes same ↦ elim (ℕ_discrete t s) [
            | yes eq ↦ ground arith
            | no ne ↦ ground (arith, held-unused s t x found same (inr λ c. ne (sym c ∙ here)))
          ]
          | no other ↦ elim (ℕ_discrete t s) [
            | yes eq ↦ absurd (other (ap (λ k. k % q.window_size) (sym eq)))
            | no ne ↦ ground arith
          ]
        ])

  -- On a valid queue `CircularQueue_remove`, whatever it returns, leaves the queue without a packet
  -- for the number, and with what it held for every other number.
  pub held-remove :
      (s t : ℕ) {status : Status} {q' : CircularQueue}
      → remove q s ≡ some (status, q')
      → held q' t ≡ (if t == s then none else held q t)
  held-remove s t {status = ok} h = held-remove_ok s t h
  held-remove s t {status = error} h =
      let (x, found, why, e) = remove-error q s h in
      rw e (elim (ℕ_discrete t s) [
        | yes eq ↦ ground (arith, held-unused s t x found (ap (λ k. k % q.window_size) (sym eq)))
        | no ne ↦ ground arith
      ])

-- A new queue holds nothing.
pub held-init : (q : CircularQueue) (n t : ℕ) → held (init true q n).1 t ≡ none
unfolding init
held-init q n t = elim (Option-cases (get_elem? (replicate n zero_entry) (t % n))) [
  | inl missing ↦ rw missing
  | inr (x, found) ↦ rw (found, get_elem?-replicate_eq n (t % n) zero_entry found)
]

-- On a valid queue of a positive window size, `CircularQueue_get` finds every packet that the queue
-- holds, in a slot with its length and its number.
pub get-held :
    (q : CircularQueue) (s : ℕ) {packet : List ℕ}
    → IsValid q
    → 0 < q.window_size
    → held q s ≡ some packet
    → (x : QueueEntry) × (get q s ≡ some (some x))
      × (x.packet ≡ some packet)
      × (x.packet_len ≡ length packet)
      × (x.sequence_num ≡ s)
unfolding get
get-held q s w pos h = elim (Option-cases (get_elem? q.entries (s % q.window_size))) [
  | inl missing ↦ absurd (ground arith)
  | inr (x, found) ↦
      let p = w.placed (s % q.window_size) x found (ground arith) in
      (x, ground arith, ground arith, ground (arith, p), ground arith)
]

-- On a valid queue of a positive window size, for a number that the queue does not hold,
-- `CircularQueue_get` returns NULL just if the number in the slot is that very number, as the
-- removed packet leaves it, or `calloc` for the number 0; else it returns the slot, of another
-- packet or of none.
pub get-absent :
    (q : CircularQueue) (s : ℕ)
    → IsValid q
    → 0 < q.window_size
    → held q s ≡ none
    → (x : QueueEntry) × (get_elem? q.entries (s % q.window_size) ≡ some x)
      × (get q s ≡ some (if x.sequence_num == s then none else some x))
unfolding get
get-absent q s w pos h = elim (Option-cases (get_elem? q.entries (s % q.window_size))) [
  | inl missing ↦ absurd (let (x, found) = slot-total q s w pos in ground arith)
  | inr (x, found) ↦ elim (Bool-cases x.valid) [
    | inl taken ↦
        let p = w.placed (s % q.window_size) x found taken in (x, found, ground (arith, p.stored))
    | inr unused ↦ (x, found, ground arith)
  ]
]
