-- ===== src/CircularQueue/Cases.antt =====
-- When `CircularQueue_insert` and `CircularQueue_remove` succeed, and what each outcome has written.
use remote_file_copy_udp_pro.Base.{
  ℕ, ◌+◌, ◌-◌, ◌%◌, ◌<◌, ◌≡◌, ◌≢◌, Bool, true, false, none, some, List, length, get_elem?, set,
  arith, Bool-cases, Option-cases, ◌⊎◌, inl, inr,
}
use remote_file_copy_udp_pro.CircularQueue.Defs.{
  QueueEntry, CircularQueue, ok, error, insert, remove, is_full,
}

-- What `CircularQueue_insert` writes to its slot.
abbrev pub filled : ℕ → List ℕ → QueueEntry
filled s packet = record {
  packet = some packet;
  packet_len = length packet;
  sequence_num = s;
  valid = true;
}

module _ (allocated : Bool) (q : CircularQueue) (s : ℕ) (packet : List ℕ) {q' : CircularQueue} where
  -- When `CircularQueue_insert` returns 0, and what it has written then.
  pub insert-ok :
      insert allocated q s packet ≡ some (ok, q')
      → (x : QueueEntry) × (get_elem? q.entries (s % q.window_size) ≡ some x)
        × (x.valid ≡ false)
        × (q.valid_count < q.window_size)
        × (q' ≡ record q {
          entries = set q.entries (s % q.window_size) (filled s packet);
          valid_count = q.valid_count + 1;
        })
  unfolding insert
  insert-ok h = elim (Option-cases (get_elem? q.entries (s % q.window_size))) [
    | inl missing ↦ absurd (ground arith)
    | inr (x, found) ↦ (x, found, ground arith, ground arith, ground arith)
  ]

  -- When it returns -1 it has at most cleared the packet pointer of an unused slot.
  pub insert-error :
      insert allocated q s packet ≡ some (error, q')
      → (q' ≡ q)
        ⊎ ((x : QueueEntry) × (get_elem? q.entries (s % q.window_size) ≡ some x)
            × (x.valid ≡ false)
            × (0 < q.window_size)
            × (q' ≡ record q {
              entries = set q.entries (s % q.window_size) (record x { packet = none });
            }))
  unfolding insert
  insert-error h = elim (Option-cases (get_elem? q.entries (s % q.window_size))) [
    | inl missing ↦ inl (ground arith)
    | inr (x, found) ↦ elim (Bool-cases x.valid) [
      | inl taken ↦ inl (ground arith)
      | inr unused ↦ elim (Bool-cases (is_full q)) [
        | inl full ↦ inl (ground arith)
        | inr room ↦ inr (x, found, unused, ground arith, ground arith)
      ]
    ]
  ]

module _ (q : CircularQueue) (s : ℕ) {q' : CircularQueue} where
  -- When `CircularQueue_remove` returns 0, and what it has written then.
  pub remove-ok :
      remove q s ≡ some (ok, q')
      → (x : QueueEntry) × (get_elem? q.entries (s % q.window_size) ≡ some x)
        × (x.valid ≡ true)
        × (x.sequence_num ≡ s)
        × (0 < q.window_size)
        × (q' ≡ record q {
          entries = set q.entries (s % q.window_size) (record x { packet = none; valid = false });
          valid_count = q.valid_count - 1;
        })
  unfolding remove
  remove-ok h = elim (Option-cases (get_elem? q.entries (s % q.window_size))) [
    | inl missing ↦ absurd (ground arith)
    | inr (x, found) ↦ (x, found, ground arith, ground arith, ground arith, ground arith)
  ]

  -- When it returns -1 the slot holds nothing or another packet, and nothing changes.
  pub remove-error :
      remove q s ≡ some (error, q')
      → (x : QueueEntry) × (get_elem? q.entries (s % q.window_size) ≡ some x)
        × ((x.valid ≡ false) ⊎ (x.sequence_num ≢ s))
        × (q' ≡ q)
  unfolding remove
  remove-error h = elim (Option-cases (get_elem? q.entries (s % q.window_size))) [
    | inl missing ↦ absurd (ground arith)
    | inr (x, found) ↦ (x, found, ground arith, ground arith)
  ]
