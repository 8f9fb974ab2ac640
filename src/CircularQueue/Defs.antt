-- ===== src/CircularQueue/Defs.antt =====
-- The functions of Workspace/circularQueue.c. One that updates `*queue` returns the new queue beside
-- its status, and returns the queue as it was with the error `-1`.
use remote_file_copy_udp_pro.Base.{
  ℕ, zero, suc, ◌+◌, ◌-◌, ◌%◌, Bool, true, false, not, ◌||◌, Option, none, some, ◌>>=◌, List, [],
  ◌∷◌, length, get_elem?, set, replicate, leb, ◌==◌, if◌then◌else◌,
}

-- `QueueEntry`: the packet is NULL (`none`) or a block from `malloc`.
pub record QueueEntry : Type 0 where
  pub packet : Option (List ℕ)
  pub packet_len : ℕ
  pub sequence_num : ℕ
  pub valid : Bool

-- `CircularQueue`: the array `entries` is empty where the C pointer is NULL.
pub record CircularQueue : Type 0 where
  pub entries : List QueueEntry
  pub window_size : ℕ
  pub valid_count : ℕ

-- The return values 0 and -1.
pub data Status : Type 0 where
  ok error : Status

-- What `calloc` leaves in a slot, after the loop of `CircularQueue_init`.
abbrev pub zero_entry : QueueEntry
zero_entry = record { packet = none; packet_len = 0; sequence_num = 0; valid = false }

-- `CircularQueue_init`, with whether its `calloc` succeeds.
unfoldable pub init : Bool → CircularQueue → ℕ → Status × CircularQueue
init allocated queue window_size =
    if allocated
    then (
      ok,
      record {
        entries = replicate window_size zero_entry;
        window_size = window_size;
        valid_count = 0;
      },
    )
    else (error, record queue { entries = [] })

abbrev pub is_full : CircularQueue → Bool
is_full queue = leb queue.window_size queue.valid_count

abbrev pub is_empty : CircularQueue → Bool
is_empty queue = queue.valid_count == 0

-- `sequenceNum % queue->WindowSize`, which traps at a window of size 0.
abbrev pub index_of : CircularQueue → ℕ → Option ℕ
index_of queue sequence_num =
    if queue.window_size == 0 then none else some (sequence_num % queue.window_size)

-- `CircularQueue_insert`, with whether its `malloc` succeeds.
unfoldable pub insert : Bool → CircularQueue → ℕ → List ℕ → Option (Status × CircularQueue)
insert allocated queue sequence_num packet = if is_full queue then some (error, queue) else do
  index ← index_of queue sequence_num
  entry ← get_elem? queue.entries index
  some (
      if entry.valid
      then (error, queue)
      else if not allocated
      then (
        error,
        record queue { entries = set queue.entries index (record entry { packet = none }) },
      )
      else (
        ok,
        record queue {
          entries = set queue.entries index (record {
            packet = some packet;
            packet_len = length packet;
            sequence_num = sequence_num;
            valid = true;
          });
          valid_count = queue.valid_count + 1;
        },
      ))

-- `CircularQueue_get`: the slot that the pointer names, or `none` for NULL, inside of the outer
-- `Option` of faults.
unfoldable pub get : CircularQueue → ℕ → Option (Option QueueEntry)
get queue sequence_num = do
  index ← index_of queue sequence_num
  entry ← get_elem? queue.entries index
  some (if entry.valid || not (entry.sequence_num == sequence_num) then some entry else none)

-- `CircularQueue_remove`.
unfoldable pub remove : CircularQueue → ℕ → Option (Status × CircularQueue)
remove queue sequence_num = do
  index ← index_of queue sequence_num
  entry ← get_elem? queue.entries index
  some (
      if not entry.valid || not (entry.sequence_num == sequence_num) then (error, queue) else (
        ok,
        record queue {
          entries = set queue.entries index (record entry { packet = none; valid = false });
          valid_count = queue.valid_count - 1;
        },
      ))

-- The loop of `CircularQueue_clear`, over the first `n` slots.
unfoldable pub clear_slots : ℕ → List QueueEntry → List QueueEntry
clear_slots zero entries = entries
clear_slots (suc n) [] = []
clear_slots (suc n) (entry ∷ entries) =
    (if entry.valid then record entry { packet = none; valid = false } else entry)
    ∷ clear_slots n entries

-- `CircularQueue_clear` and `CircularQueue_free`; both always return 0.
unfoldable pub clear : CircularQueue → CircularQueue
unfolding clear_slots
clear queue = record queue {
  entries = clear_slots queue.window_size queue.entries;
  valid_count = 0;
}

unfoldable pub free : CircularQueue → CircularQueue
unfolding clear
free queue = record (clear queue) { entries = []; window_size = 0 }
