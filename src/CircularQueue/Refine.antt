-- ===== src/CircularQueue/Refine.antt =====
-- Workspace/circularQueue.c: sequences of calls on a queue, against the table of its slots.
use native.Mathlib.Decide.{ℕ_discrete}
use remote_file_copy_udp_pro.Base.{
  ℕ, ◌+◌, ◌-◌, ◌%◌, ◌<◌, ◌≡◌, refl, sym, ap, ap₂, ◌∙◌, Bool, true, false, none, some, List, [], ◌∷◌,
  length, get_elem?, set, arith, Bool-cases, ◌⊎◌, inl, inr, count_if-pos, ◌==◌, ==_iff,
}
use mathlib.Core.Path.{fun_ext}
use remote_file_copy_udp_pro.CircularQueue.Cases.{filled}
use remote_file_copy_udp_pro.CircularQueue.Defs.{
  QueueEntry, CircularQueue, ok, error, insert, remove, clear, is_full,
}
use remote_file_copy_udp_pro.CircularQueue.Valid.{
  IsValid, slot-total, insert-IsValid, remove-IsValid,
}
use remote_file_copy_udp_pro.CircularQueue.Slots.{
  Op, call, on_slots, trace, on_trace, put-same, slots_of, count_valid-full, clear_slots-unused,
  count_valid-clear_slots, length-clear_slots, slots-set, insert_packet, remove_packet, clear_all,
}

module _ (q : CircularQueue) (v : IsValid q) (pos : 0 < q.window_size) where
  -- One call: what it returns, and what it leaves in the slots.
  pub record Refines (op : Op) (q' : CircularQueue) : Type 0 where
    pub called : call op q ≡ some ((on_slots q.window_size op (slots_of q)).0, q')
    pub valid : IsValid q'
    pub window : q'.window_size ≡ q.window_size
    pub slots : (i : ℕ) → slots_of q' i ≡ (on_slots q.window_size op (slots_of q)).1 i

  room : (s : ℕ) → s % q.window_size < length q.entries
  room s = omega (arith, v.sized, pos)

  -- The slot of a number is in use, with the number and the packet that it has, or it is not.
  slot-cases :
      (s : ℕ)
      → (x : QueueEntry) × (get_elem? q.entries (s % q.window_size) ≡ some x)
        × (((x.valid ≡ true)
              × (packet : List ℕ) × (slots_of q (s % q.window_size)
                  ≡ some (x.sequence_num, packet)))
            ⊎ ((x.valid ≡ false) × (slots_of q (s % q.window_size) ≡ none) × (is_full q ≡ false)))
  slot-cases s =
      let (x, found) = slot-total q s v pos in
      (
        x,
        found,
        elim (Bool-cases x.valid) [
          | inl taken ↦
              let p = v.placed (s % q.window_size) x found taken in
              inl (taken, p.block, rw (found, taken, p.stored) refl)
          | inr unused ↦ inr (
            unused,
            rw (found, unused) refl,
            elim (Bool-cases (is_full q)) [
              | inl full ↦ absurd (
                  ground (
                    arith,
                    count_valid-full q.entries (s % q.window_size) x
                        (ground (arith, v.sized, v.counted)) found,
                  ))
              | inr room ↦ room
            ],
          )
        ],
      )

  insert-Refines :
      (allocated : Bool) (s : ℕ) (packet : List ℕ)
      → (q' : CircularQueue) × Refines (insert_packet allocated s packet) q'
  unfolding insert
  insert-Refines allocated s packet =
      let (x, found, state) = slot-cases s in
      elim state [
        | inl (taken, block, at) ↦
            let e : insert allocated q s packet ≡ some (error, q) =
              ground (arith, found, taken, pos) in
            (q, record { called = rw at e; valid = v; window = refl; slots = λ i. rw at refl })
        | inr (unused, at, room_left) ↦ put_unused allocated x found unused at room_left
      ]
    where
      put_unused :
          (allocated : Bool) (x : QueueEntry)
          → get_elem? q.entries (s % q.window_size) ≡ some x
          → x.valid ≡ false
          → slots_of q (s % q.window_size) ≡ none
          → is_full q ≡ false
          → (q' : CircularQueue) × Refines (insert_packet allocated s packet) q'
      put_unused true x found unused at left =
          let q' : CircularQueue = record q {
            entries = set q.entries (s % q.window_size) (filled s packet);
            valid_count = q.valid_count + 1;
          } in
          let e : insert true q s packet ≡ some (ok, q') =
            ground (arith, found, unused, left, pos) in
          (
            q',
            record {
              called = rw at e;
              valid = insert-IsValid q s v true packet e;
              window = refl;
              slots =
                  λ i. rw at (slots-set q.entries (s % q.window_size) (filled s packet) (room s) i);
            },
          )
      put_unused false x found unused at left =
          let y : QueueEntry = record x { packet = none } in
          let q' : CircularQueue = record q { entries = set q.entries (s % q.window_size) y } in
          let e : insert false q s packet ≡ some (error, q') =
            ground (arith, found, unused, left, pos) in
          (
            q',
            record {
              called = rw at e;
              valid = insert-IsValid q s v false packet e;
              window = refl;
              slots = λ i. rw at (
                  slots-set q.entries (s % q.window_size) y (room s) i
                  ∙ rw unused (put-same (slots_of q) (s % q.window_size) i at));
            },
          )

  remove-Refines : (s : ℕ) → (q' : CircularQueue) × Refines (remove_packet s) q'
  unfolding remove
  remove-Refines s =
      let (x, found, state) = slot-cases s in
      elim state [
        | inl (taken, block, at) ↦ elim (ℕ_discrete x.sequence_num s) [
          | yes same ↦
              let y : QueueEntry = record x { packet = none; valid = false } in
              let q' : CircularQueue = record q {
                entries = set q.entries (s % q.window_size) y;
                valid_count = q.valid_count - 1;
              } in
              let e : remove q s ≡ some (ok, q') = ground (arith, found, taken, same, pos) in
              let own : (x.sequence_num == s) ≡ true = (==_iff x.sequence_num s).1 same in
              (
                q',
                record {
                  called = rw (at, own) e;
                  valid = remove-IsValid q s v e;
                  window = refl;
                  slots = λ i. rw (at, own) (slots-set q.entries (s % q.window_size) y (room s) i);
                },
              )
          | no other ↦
              let e : remove q s ≡ some (error, q) = ground (arith, found, taken, other, pos) in
              let foreign : (x.sequence_num == s) ≡ false = ground (arith, other) in
              (
                q,
                record {
                  called = rw (at, foreign) e;
                  valid = v;
                  window = refl;
                  slots = λ i. rw (at, foreign) refl;
                },
              )
        ]
        | inr (unused, at, _) ↦
            let e : remove q s ≡ some (error, q) = ground (arith, found, unused, pos) in
            (q, record { called = rw at e; valid = v; window = refl; slots = λ i. rw at refl })
      ]

  clear-Refines : (q' : CircularQueue) × Refines clear_all q'
  unfolding clear
  clear-Refines =
      let none_left = count_valid-clear_slots q.window_size q.entries (omega (arith, v.sized)) in
      (
        clear q,
        record {
          called = refl;
          valid = record {
            sized = length-clear_slots q.window_size q.entries ∙ v.sized;
            counted = sym none_left;
            placed = λ i x found taken.
                let counts = count_if-pos (λ (y : QueueEntry). y.valid) _ i x found taken in
                absurd (omega (arith, counts, none_left));
          };
          window = refl;
          slots = λ i. clear_slots-unused q.window_size q.entries i (omega (arith, v.sized));
        },
      )

  call-Refines : (op : Op) → (q' : CircularQueue) × Refines op q'
  call-Refines (insert_packet allocated s packet) = insert-Refines allocated s packet
  call-Refines (remove_packet s) = remove-Refines s
  call-Refines clear_all = clear-Refines

-- On a valid queue of a positive window size, calls of `CircularQueue_insert`, with or without
-- memory for the packet, of `CircularQueue_remove` and of `CircularQueue_clear` in any order never
-- fault, and leave a valid queue of the same window size; and what each returns, and what is in the
-- slots behind them, is that of a table on which an insertion succeeds just if there is memory and
-- the place of its remainder is empty, a removal just if the number is there, and clearing empties
-- every place.
pub trace-refines :
    (ops : List Op) (q : CircularQueue)
    → IsValid q
    → 0 < q.window_size
    → let spec = on_trace q.window_size ops (slots_of q) in
      (q' : CircularQueue) × (trace ops q ≡ some (spec.0, q'))
      × IsValid q'
      × (q'.window_size ≡ q.window_size)
      × ((i : ℕ) → slots_of q' i ≡ spec.1 i)
unfolding trace on_trace
trace-refines [] q v pos = (q, refl, v, refl, λ i. refl)
trace-refines (op ∷ ops) q v pos =
    let (q₁, r) = call-Refines q v pos op in
    let (q', run, v', kept, same) = trace-refines ops q₁ r.valid (omega (arith, pos, r.window)) in
    let spec : on_trace q₁.window_size ops (slots_of q₁)
        ≡ on_trace q.window_size ops (on_slots q.window_size op (slots_of q)).1 =
      ap₂ (λ n m. on_trace n ops m) r.window (fun_ext r.slots) in
    let run' : trace ops q₁
        ≡ some ((on_trace q.window_size ops (on_slots q.window_size op (slots_of q)).1).0, q') =
      run ∙ ap (λ t. some (t.0, q')) spec in
    (q', rw (r.called, run') refl, v', kept ∙ r.window, λ i. same i ∙ ap (λ t. t.1 i) spec)
