-- ===== src/Poll/Defs.antt =====
-- The functions of Workspace/pollLib.c. The three static variables are a record.
use remote_file_copy_udp_pro.Base.{
  ℕ, zero, suc, ◌+◌, ◌-◌, Bool, true, false, Option, none, some, List, [], ◌∷◌, ◌++◌, length, take,
  set, replicate, count_if, leb, ltb, if◌then◌else◌,
}

-- `struct pollfd` without `revents`, which `poll` writes anew: `events` is 0 or `POLLIN`.
pub record PollFd : Type 0 where
  pub fd : ℕ
  pub events : Bool

-- `pollFileDescriptors`, `maxFileDescriptor` and `currentPollSetSize`.
pub record PollSet : Type 0 where
  pub poll_file_descriptors : List PollFd
  pub max_file_descriptor : ℕ
  pub current_poll_set_size : ℕ

-- What a call comes to: the table behind it, an `exit(-1)`, or an access outside of the array.
pub data Polled : Type 0 where
  changed : PollSet → Polled
  answers : Option ℕ → Polled
  exits : Polled
  faults : Polled

abbrev pub poll_set_size : ℕ
poll_set_size = 10

-- An entry of zeros, as `calloc` leaves it.
abbrev pub zero_fd : PollFd
zero_fd = record { fd = 0; events = false }

-- The values that the static variables start with.
abbrev pub no_poll_set : PollSet
no_poll_set = record {
  poll_file_descriptors = [];
  max_file_descriptor = 0;
  current_poll_set_size = 0;
}

-- `setupPollSet`: the variable `maxFileDescriptor` keeps its value.
unfoldable pub setup_poll_set : PollSet → PollSet
setup_poll_set s = record s {
  poll_file_descriptors = replicate poll_set_size zero_fd;
  current_poll_set_size = poll_set_size;
}

-- `srealloc` to a number of entries: those that are there, and behind them what the memory holds.
unfoldable pub srealloc : PollFd → List PollFd → ℕ → List PollFd
srealloc stale entries size = take size entries ++ replicate (size - length entries) stale

-- The loop that zeroes `n` entries from the entry `i` on.
unfoldable pub zero_entries : ℕ → ℕ → List PollFd → List PollFd
zero_entries zero i entries = entries
zero_entries (suc n) i entries = zero_entries n (suc i) (set entries i zero_fd)

-- `growPollSet`; `stale` is an entry of memory that `realloc` has not written.
unfoldable pub grow_poll_set : PollFd → PollSet → ℕ → Polled
unfolding srealloc zero_entries
grow_poll_set stale s new_set_size =
    if leb new_set_size s.current_poll_set_size
    then exits
    else changed (record s {
      poll_file_descriptors =
          zero_entries (new_set_size - s.current_poll_set_size) s.current_poll_set_size
            (srealloc stale s.poll_file_descriptors new_set_size);
      current_poll_set_size = new_set_size;
    })

-- A write to the entry of a socket.
unfoldable pub write_entry : PollSet → ℕ → PollFd → Polled
write_entry s i entry =
    if ltb i (length s.poll_file_descriptors)
    then changed (record s { poll_file_descriptors = set s.poll_file_descriptors i entry })
    else faults

-- `addToPollSet` behind the growth of the table.
unfoldable pub enter_socket : ℕ → PollSet → Polled
unfolding write_entry
enter_socket socket_number s =
    write_entry
      (record s {
        max_file_descriptor =
            if leb s.max_file_descriptor (socket_number + 1)
            then socket_number + 1
            else s.max_file_descriptor;
      })
      socket_number (record { fd = socket_number; events = true })

-- `addToPollSet`.
unfoldable pub add_to_poll_set : PollFd → PollSet → ℕ → Polled
unfolding grow_poll_set enter_socket
add_to_poll_set stale s socket_number =
    if leb s.current_poll_set_size socket_number
    then elim (grow_poll_set stale s (socket_number + poll_set_size)) [
      | changed s' ↦ enter_socket socket_number s'
      | answers a ↦ answers a
      | exits ↦ exits
      | faults ↦ faults
    ]
    else enter_socket socket_number s

-- `removeFromPollSet`.
unfoldable pub remove_from_poll_set : PollSet → ℕ → Polled
unfolding write_entry
remove_from_poll_set s socket_number = write_entry s socket_number zero_fd

-- The loop of `pollCall`: the index of the first entry with `revents`.
unfoldable pub first_ready : ℕ → List ℕ → Option ℕ
first_ready i [] = none
first_ready i (revents ∷ rest) = if ltb 0 revents then some i else first_ready (suc i) rest

-- `pollCall`. The call `poll` of the system reads the entries below `maxFileDescriptor`; it answers
-- with the `revents` of each, or (`none`) fails. It returns how many of them are not 0.
unfoldable pub poll_call : (List PollFd → Option (List ℕ)) → PollSet → Polled
unfolding first_ready
poll_call poll s =
    if ltb (length s.poll_file_descriptors) s.max_file_descriptor
    then faults
    else elim (poll (take s.max_file_descriptor s.poll_file_descriptors)) [
      | none ↦ exits
      | some revents ↦
          answers (if ltb 0 (count_if (λ r. ltb 0 r) revents) then first_ready 0 revents else none)
    ]
