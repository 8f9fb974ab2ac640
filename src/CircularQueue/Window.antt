-- ===== src/CircularQueue/Window.antt =====
-- The circular queue as a sliding window: what the sender relies on.
use native.Mathlib.Decide.{dec_lt}
use native.Mathlib.Nat.{mod-eq-sub-mod, mod-add-mod}
use remote_file_copy_udp_pro.Base.{
  ℕ, ◌+◌, ◌-◌, ◌%◌, ◌≤◌, ◌<◌, ◌≡◌, ◌≢◌, refl, sym, ap, subst, ◌∙◌, true, false, ◌&&◌, none, some,
  List, length, get_elem?, arith, Bool-cases, ==_refl, ltb, leb, if◌then◌else◌, ◌⊎◌, inl, inr,
  mod-eq_of_lt,
}
use remote_file_copy_udp_pro.CircularQueue.Cases.{insert-ok, remove-ok}
use remote_file_copy_udp_pro.CircularQueue.Defs.{
  QueueEntry, CircularQueue, ok, error, init, insert, remove,
}
use remote_file_copy_udp_pro.CircularQueue.Valid.{
  IsValid, slot-total, insert-IsValid, remove-IsValid, insert-total, remove-total, init-IsValid,
}
use remote_file_copy_udp_pro.CircularQueue.View.{held, held-insert, held-remove, held-init}

-- A valid queue that holds the packets `content t` for the numbers `t` of `[lo, hi)`, and no other.
pub record Holds (content : ℕ → List ℕ) (q : CircularQueue) (lo hi : ℕ) : Type 0 where
  pub valid : IsValid q
  pub nonempty : 0 < q.window_size
  pub order : lo ≤ hi
  pub size : q.valid_count ≡ hi - lo
  pub fits : hi - lo ≤ q.window_size
  pub maps : (t : ℕ) → held q t ≡ (if leb lo t && ltb t hi then some (content t) else none)

add-mod-ne : (n r k : ℕ) → r < n → 0 < k → k < n → (r + k) % n ≢ r
add-mod-ne n r k hr pos hk = elim (dec_lt (r + k) n) [
  | yes p ↦ omega (arith, mod-eq_of_lt p)
  | no p ↦ omega (
    arith,
    mod-eq-sub-mod {n = r + k} {m = n} (omega arith),
    mod-eq_of_lt {n = r + k - n} {m = n} (omega arith),
  )
]

-- Numbers less than a window apart have different slots.
pub mod-ne : (n a b : ℕ) → a < b → b - a < n → a % n ≢ b % n
mod-ne n a b lt near same =
    let sum : a + (b - a) ≡ b = omega arith in
    add-mod-ne n (a % n) (b - a) (omega arith) (omega arith) near
      (mod-add-mod a n (b - a) ∙ ap (λ k. k % n) sum ∙ sym same)

module _ (content : ℕ → List ℕ) (q : CircularQueue) (lo hi : ℕ) (h : Holds content q lo hi) where
  -- What a used slot holds lies in the window.
  pub slot_in_window :
      (i : ℕ) (x : QueueEntry)
      → get_elem? q.entries i ≡ some x
      → x.valid ≡ true
      → (lo ≤ x.sequence_num) × (x.sequence_num < hi) × (x.sequence_num % q.window_size ≡ i)
  slot_in_window i x found taken =
      let p = h.valid.placed i x found taken in
      let at : get_elem? q.entries (x.sequence_num % q.window_size) ≡ some x =
        ap (get_elem? q.entries) p.at_index ∙ found in
      let here : held q x.sequence_num ≡ x.packet = rw (at, taken, ==_refl x.sequence_num) refl in
      ground (arith, here, p.stored, p.at_index, h.maps x.sequence_num)

  -- And it is the packet of its number, with its length.
  pub slot_packet :
      (i : ℕ) (x : QueueEntry)
      → get_elem? q.entries i ≡ some x
      → x.valid ≡ true
      → (x.packet ≡ some (content x.sequence_num))
        × (x.packet_len ≡ length (content x.sequence_num))
  slot_packet i x found taken =
      let p = h.valid.placed i x found taken in
      let (above, below, _) = slot_in_window i x found taken in
      let at : get_elem? q.entries (x.sequence_num % q.window_size) ≡ some x =
        ap (get_elem? q.entries) p.at_index ∙ found in
      let here : held q x.sequence_num ≡ x.packet = rw (at, taken, ==_refl x.sequence_num) refl in
      let packet : x.packet ≡ some (content x.sequence_num) =
        ground (arith, here, h.maps x.sequence_num) in
      (packet, ground (arith, p.stored, p.measured, packet))

  -- While the window has room, the slot of the next number is free.
  next_slot_free :
      q.valid_count < q.window_size
      → (x : QueueEntry) → get_elem? q.entries (hi % q.window_size) ≡ some x
      → x.valid ≡ false
  next_slot_free room x found = elim (Bool-cases x.valid) [
    | inl taken ↦
        let (above, below, at) = slot_in_window (hi % q.window_size) x found taken in
        absurd (mod-ne q.window_size x.sequence_num hi below (omega (arith, h.size)) at)
    | inr unused ↦ unused
  ]

  insert-succeeds :
      q.valid_count < q.window_size
      → (packet : List ℕ) → (q' : CircularQueue) × (insert true q hi packet ≡ some (ok, q'))
  unfolding insert
  insert-succeeds room packet =
      let (x, found) = slot-total q hi h.valid h.nonempty in
      let (status, q', e) = insert-total q hi h.valid true packet in
      let good : status ≡ ok = ground (arith, next_slot_free room x found) in
      (q', subst (λ r. insert true q hi packet ≡ some (r, q')) good e)

  -- If the queue holds the packets from `lo` up to below `hi` and has room, then the insertion of
  -- the packet of `hi` succeeds, and leaves a queue of the same size that holds the packets from
  -- `lo` to `hi`.
  pub insert-Holds :
      q.valid_count < q.window_size
      → (q' : CircularQueue) × (insert true q hi (content hi) ≡ some (ok, q'))
        × Holds content q' lo (hi + 1)
        × (q'.window_size ≡ q.window_size)
  insert-Holds room =
      let (q', e) = insert-succeeds room (content hi) in
      let (x, found, unused, _, wrote) = insert-ok true q hi (content hi) e in
      (
        q',
        e,
        record {
          valid = insert-IsValid q hi h.valid true (content hi) e;
          nonempty = ground (arith, h.nonempty);
          order = omega (arith, h.order);
          size = ground (arith, h.size, h.order);
          fits = ground (arith, h.size, h.order, h.fits);
          maps = λ t.
              ground (arith, held-insert q h.valid true hi t (content hi) e, h.maps t, h.order);
        },
        ground arith,
      )

  -- A number outside of the window is in no slot, and removing it changes nothing.
  pub remove_absent : (t : ℕ) → (t < lo) ⊎ (hi ≤ t) → remove q t ≡ some (error, q)
  unfolding remove
  remove_absent t out =
      let (x, found) = slot-total q t h.valid h.nonempty in
      elim (Bool-cases x.valid) [
        | inl taken ↦
            let (above, below, at) = slot_in_window (t % q.window_size) x found taken in
            ground (arith, h.nonempty)
        | inr unused ↦ ground (arith, h.nonempty)
      ]

  remove-succeeds : lo < hi → (q' : CircularQueue) × (remove q lo ≡ some (ok, q'))
  unfolding remove
  remove-succeeds lt =
      let (x, found) = slot-total q lo h.valid h.nonempty in
      let (status, q', e) = remove-total q lo h.valid h.nonempty in
      let good : status ≡ ok = ground (arith, h.maps lo) in
      (q', subst (λ r. remove q lo ≡ some (r, q')) good e)

  -- If the queue holds the packets from `lo` up to below `hi`, and `lo` is below `hi`, then the
  -- removal of `lo` succeeds, and leaves a queue of the same size that holds the packets from `lo +
  -- 1` up to below `hi`.
  pub remove-Holds :
      lo < hi
      → (q' : CircularQueue) × (remove q lo ≡ some (ok, q'))
        × Holds content q' (lo + 1) hi
        × (q'.window_size ≡ q.window_size)
  remove-Holds lt =
      let (q', e) = remove-succeeds lt in
      let (x, found, taken, here, _, wrote) = remove-ok q lo e in
      (
        q',
        e,
        record {
          valid = remove-IsValid q lo h.valid e;
          nonempty = ground (arith, h.nonempty);
          order = omega arith;
          size = ground (arith, h.size);
          fits = ground (arith, h.fits);
          maps = λ t. ground (arith, held-remove q h.valid lo t e, h.maps t);
        },
        ground arith,
      )

-- A new queue of a positive size is an empty window, wherever that starts.
pub init-Holds :
    (content : ℕ → List ℕ) (q : CircularQueue) (n lo : ℕ)
    → 0 < n
    → Holds content (init true q n).1 lo lo
init-Holds content q n lo pos = record {
  valid = init-IsValid q n;
  nonempty = unfold init in pos;
  order = omega arith;
  size = unfold init in omega arith;
  fits = omega arith;
  maps = λ t. held-init q n t ∙ ground arith;
}
