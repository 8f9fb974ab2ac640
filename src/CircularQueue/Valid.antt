-- ===== src/CircularQueue/Valid.antt =====
-- The representation invariant of the circular queue, and the operations under it.
use native.Mathlib.Decide.{ℕ_discrete}
use remote_file_copy_udp_pro.Base.{
  ℕ, ◌+◌, ◌%◌, ◌<◌, ◌≡◌, refl, sym, ap, ◌∙◌, Bool, true, false, none, some, List, length, get_elem?,
  set, arith, length-set, length-replicate, get_elem?-set_self, get_elem?-set_ne, get_elem?-lt,
  Bool-cases, Option-cases, inl, inr, subst, get_elem?-replicate_eq, bit, count_if, count_if-set,
  count_if-replicate,
}
use remote_file_copy_udp_pro.CircularQueue.Cases.{
  filled, insert-ok, insert-error, remove-ok, remove-error,
}
use remote_file_copy_udp_pro.CircularQueue.Defs.{
  QueueEntry, CircularQueue, Status, ok, error, zero_entry, init, insert, remove, free, is_full,
}

-- How many slots are in use.
abbrev pub count_valid : List QueueEntry → ℕ
count_valid = count_if (λ x. x.valid)

count_valid-set :
    (xs : List QueueEntry) (i : ℕ) (x v : QueueEntry)
    → get_elem? xs i ≡ some x
    → count_valid (set xs i v) + bit x.valid ≡ count_valid xs + bit v.valid
count_valid-set = count_if-set (λ x. x.valid)

-- A slot in use holds a block of the length that it says, at the index of its sequence number.
pub record InPlace (window_size i : ℕ) (x : QueueEntry) : Type 0 where
  pub at_index : x.sequence_num % window_size ≡ i
  pub block : List ℕ
  pub stored : x.packet ≡ some block
  pub measured : length block ≡ x.packet_len

pub record IsValid (q : CircularQueue) : Type 0 where
  pub sized : length q.entries ≡ q.window_size
  pub counted : q.valid_count ≡ count_valid q.entries
  pub placed :
      (i : ℕ) (x : QueueEntry)
      → get_elem? q.entries i ≡ some x
      → x.valid ≡ true
      → InPlace q.window_size i x

-- A write that puts an unused entry, or one in its place, keeps every slot in its place.
placed-set :
    (q : CircularQueue) (j : ℕ) (v : QueueEntry)
    → IsValid q
    → j < q.window_size
    → (v.valid ≡ true → InPlace q.window_size j v)
    → (i : ℕ) (x : QueueEntry) → get_elem? (set q.entries j v) i ≡ some x
    → x.valid ≡ true
    → InPlace q.window_size i x
placed-set q j v w lt new i x e taken = elim (ℕ_discrete j i) [
  | yes same ↦
      let here : get_elem? (set q.entries j v) j ≡ some v =
        get_elem?-set_self q.entries j v (omega (arith, w.sized)) in
      let eq : v ≡ x = ground (arith, here) in
      subst (λ k. InPlace q.window_size k x) same
        (subst (InPlace q.window_size j) eq (new (ap (λ (y : QueueEntry). y.valid) eq ∙ taken)))
  | no other ↦ w.placed i x (sym (get_elem?-set_ne q.entries j i v other) ∙ e) taken
]

-- What `CircularQueue_init` makes.
pub init-IsValid : (q : CircularQueue) (n : ℕ) → IsValid (init true q n).1
unfolding init
init-IsValid q n = record {
  sized = length-replicate n zero_entry;
  counted = sym (count_if-replicate (λ x. x.valid) n zero_entry refl);
  placed = λ i x e taken. cc (get_elem?-replicate_eq n i zero_entry e);
}

module _ (q : CircularQueue) (s : ℕ) (w : IsValid q) where
  index-lt : 0 < q.window_size → s % q.window_size < q.window_size
  index-lt pos = omega arith

  insert_ok-IsValid :
      (allocated : Bool) (packet : List ℕ) {q' : CircularQueue}
      → insert allocated q s packet ≡ some (ok, q')
      → IsValid q'
  insert_ok-IsValid allocated packet h =
      let (x, found, unused, room, e) = insert-ok allocated q s packet h in
      let v = filled s packet in
      rw e (record {
        sized = length-set q.entries (s % q.window_size) v ∙ w.sized;
        counted =
            ground (arith, count_valid-set q.entries (s % q.window_size) x v found, w.counted);
        placed =
            placed-set q _ v w (index-lt (omega arith))
              λ _. record { at_index = refl; block = packet; stored = refl; measured = refl };
      })

  insert_error-IsValid :
      (allocated : Bool) (packet : List ℕ) {q' : CircularQueue}
      → insert allocated q s packet ≡ some (error, q')
      → IsValid q'
  insert_error-IsValid allocated packet h = elim (insert-error allocated q s packet h) [
    | inl same ↦ rw same w
    | inr (x, found, unused, pos, e) ↦
        let v : QueueEntry = record x { packet = none } in
        rw e (record {
          sized = length-set q.entries (s % q.window_size) v ∙ w.sized;
          counted =
              ground (arith, count_valid-set q.entries (s % q.window_size) x v found, w.counted);
          placed = placed-set q _ v w (index-lt pos) λ taken. cc;
        })
  ]

  remove_ok-IsValid : {q' : CircularQueue} → remove q s ≡ some (ok, q') → IsValid q'
  remove_ok-IsValid h =
      let (x, found, taken, same, pos, e) = remove-ok q s h in
      let v : QueueEntry = record x { packet = none; valid = false } in
      rw e (record {
        sized = length-set q.entries (s % q.window_size) v ∙ w.sized;
        counted =
            ground (arith, count_valid-set q.entries (s % q.window_size) x v found, w.counted);
        placed = placed-set q _ v w (index-lt pos) λ taken. cc;
      })

  -- `CircularQueue_insert` on a valid queue leaves a valid queue, whatever it returns.
  pub insert-IsValid :
      (allocated : Bool) (packet : List ℕ) {status : Status} {q' : CircularQueue}
      → insert allocated q s packet ≡ some (status, q')
      → IsValid q'
  insert-IsValid allocated packet {status = ok} h = insert_ok-IsValid allocated packet h
  insert-IsValid allocated packet {status = error} h = insert_error-IsValid allocated packet h

  -- `CircularQueue_remove` on a valid queue leaves a valid queue, whatever it returns.
  pub remove-IsValid :
      {status : Status} {q' : CircularQueue} → remove q s ≡ some (status, q') → IsValid q'
  remove-IsValid {status = ok} h = remove_ok-IsValid h
  remove-IsValid {status = error} h = let (x, found, why, e) = remove-error q s h in rw e w

  -- On a valid queue the slot is found, so no function faults; `CircularQueue_insert` does not even on
  -- a window of size 0.
  pub slot-total :
      0 < q.window_size → (x : QueueEntry) × (get_elem? q.entries (s % q.window_size) ≡ some x)
  slot-total pos = get_elem?-lt q.entries (s % q.window_size) (omega (arith, w.sized))

  -- On a valid queue `CircularQueue_insert` never faults, a window of size 0 included.
  pub insert-total :
      (allocated : Bool) (packet : List ℕ)
      → (status : Status) × (q' : CircularQueue) × (insert allocated q s packet ≡ some (status, q'))
  unfolding insert
  insert-total allocated packet = elim (Option-cases (insert allocated q s packet)) [
    | inl fault ↦ elim (Bool-cases (is_full q)) [
      | inl full ↦ absurd (ground arith)
      | inr room ↦ let (x, found) = slot-total (ground arith) in absurd (ground arith)
    ]
    | inr (r, e) ↦ (r.0, r.1, e)
  ]

  pub remove-total :
      0 < q.window_size
      → (status : Status) × (q' : CircularQueue) × (remove q s ≡ some (status, q'))
  unfolding remove
  remove-total pos = elim (Option-cases (remove q s)) [
    | inl fault ↦ let (x, found) = slot-total pos in absurd (ground arith)
    | inr (r, e) ↦ (r.0, r.1, e)
  ]

-- `CircularQueue_free` leaves a valid queue of size 0.
pub free-IsValid : (q : CircularQueue) → IsValid (free q)
unfolding free
free-IsValid q = record { sized = refl; counted = refl; placed = λ i x e taken. cc }
