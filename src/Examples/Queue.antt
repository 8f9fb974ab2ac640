-- ===== src/Examples/Queue.antt =====
-- Examples for the circular queue: a window of two packets.
use remote_file_copy_udp_pro.Base.{
  ℕ, ◌≡◌, refl, true, false, none, some, List, [], ◌∷◌, arith, length, get_elem?, if◌then◌else◌,
  ◌==◌,
}
use remote_file_copy_udp_pro.CircularQueue.{
  QueueEntry, CircularQueue, ok, error, zero_entry, init, insert, get, remove,
}
use remote_file_copy_udp_pro.CircularQueue.Cases.{filled}
use remote_file_copy_udp_pro.CircularQueue.Valid.{IsValid, init-IsValid, insert-IsValid}
use remote_file_copy_udp_pro.CircularQueue.View.{get-held, get-absent}
use remote_file_copy_udp_pro.CircularQueue.Slots.{
  Op, insert_packet, remove_packet, clear_all, trace, on_trace, slots_of,
}
use remote_file_copy_udp_pro.CircularQueue.Refine.{trace-refines}

abbrev empty_queue : CircularQueue
empty_queue = record { entries = zero_entry ∷ zero_entry ∷ []; window_size = 2; valid_count = 0 }

abbrev queue_of_5 : CircularQueue
queue_of_5 = record {
  entries = zero_entry ∷ filled 5 (1 ∷ 2 ∷ []) ∷ [];
  window_size = 2;
  valid_count = 1;
}

abbrev queue_of_5_6 : CircularQueue
queue_of_5_6 = record {
  entries = filled 6 (3 ∷ []) ∷ filled 5 (1 ∷ 2 ∷ []) ∷ [];
  window_size = 2;
  valid_count = 2;
}

empty_queue-IsValid : IsValid empty_queue
unfolding init
empty_queue-IsValid = init-IsValid empty_queue 2

insert_5 : insert true empty_queue 5 (1 ∷ 2 ∷ []) ≡ some (ok, queue_of_5)
unfolding insert
insert_5 = refl

queue_of_5-IsValid : IsValid queue_of_5
queue_of_5-IsValid =
    insert-IsValid empty_queue 5 empty_queue-IsValid true (1 ∷ 2 ∷ []) {status = ok} insert_5

insert_6 : insert true queue_of_5 6 (3 ∷ []) ≡ some (ok, queue_of_5_6)
unfolding insert
insert_6 = refl

insert_7 : insert true queue_of_5_6 7 (4 ∷ []) ≡ some (error, queue_of_5_6)
unfolding insert
insert_7 = refl

remove_5 :
    remove queue_of_5 5
    ≡ some (
      ok,
      record {
        entries = zero_entry ∷ record (filled 5 (1 ∷ 2 ∷ [])) { packet = none; valid = false } ∷ [];
        window_size = 2;
        valid_count = 0;
      },
    )
unfolding remove
remove_5 = refl

get-held_example :
    (x : QueueEntry) × (get queue_of_5 5 ≡ some (some x))
    × (x.packet ≡ some (1 ∷ 2 ∷ []))
    × (x.packet_len ≡ length {A = ℕ} (1 ∷ 2 ∷ []))
    × (x.sequence_num ≡ 5)
get-held_example = get-held queue_of_5 5 queue_of_5-IsValid (omega arith) refl

-- The slot of 7 holds the packet 5; that of 0 has never been used, and has the number 0.
get-absent_example :
    ((x : QueueEntry) × (get_elem? queue_of_5.entries 1 ≡ some x)
      × (get queue_of_5 7 ≡ some (if x.sequence_num == 7 then none else some x)))
    × ((x : QueueEntry) × (get_elem? empty_queue.entries 0 ≡ some x)
        × (get empty_queue 0 ≡ some (if x.sequence_num == 0 then none else some x)))
get-absent_example = (
  get-absent queue_of_5 7 queue_of_5-IsValid (omega arith) refl,
  get-absent empty_queue 0 empty_queue-IsValid (omega arith) refl,
)

get_other : get queue_of_5 7 ≡ some (some (filled 5 (1 ∷ 2 ∷ [])))
unfolding get
get_other = refl

get_null : get empty_queue 0 ≡ some none
unfolding get
get_null = refl

-- Two packets fill the window; the third finds no room, then no memory; the second removal of a
-- packet fails.
abbrev ops : List Op
ops =
    insert_packet true 5 (1 ∷ 2 ∷ [])
    ∷ insert_packet true 6 (3 ∷ [])
    ∷ insert_packet true 7 (4 ∷ [])
    ∷ remove_packet 5
    ∷ insert_packet false 7 (4 ∷ [])
    ∷ remove_packet 5
    ∷ clear_all
    ∷ insert_packet true 8 (4 ∷ [])
    ∷ []

trace-statuses :
    (on_trace 2 ops (slots_of empty_queue)).0 ≡ ok ∷ ok ∷ error ∷ ok ∷ error ∷ error ∷ ok ∷ ok ∷ []
unfolding on_trace
trace-statuses = refl

trace-refines_example :
    let spec = on_trace 2 ops (slots_of empty_queue) in
    (q' : CircularQueue) × (trace ops empty_queue ≡ some (spec.0, q'))
    × IsValid q'
    × (q'.window_size ≡ 2)
    × ((i : ℕ) → slots_of q' i ≡ spec.1 i)
trace-refines_example = trace-refines ops empty_queue empty_queue-IsValid (omega arith)
