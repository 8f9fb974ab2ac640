-- ===== src/Poll/Socket.antt =====
-- Workspace/pollLib.c: the three calls with which the programs wait for one socket.
use native.Mathlib.Decide.{ℕ_discrete}
use remote_file_copy_udp_pro.Base.{
  ℕ, zero, suc, ◌+◌, ◌-◌, ◌≤◌, ◌<◌, ◌≡◌, ◌↔◌, refl, sym, ap, ◌∙◌, true, Option, none, some, List,
  ◌++◌, length, take, get_elem?, set, replicate, get_or, arith, leb, if◌then◌else◌, length-set,
  length-replicate, get_elem?-set_self, get_elem?-set_ne, Bool-cases, inl, inr, lt→ltb, ==_refl,
  le→ltb_false,
}
use remote_file_copy_udp_pro.Net.{Event, timeout, ready, failure, Arrival}
use remote_file_copy_udp_pro.Poll.Call.{IsFirst, poll_call-IsFirst, table_size}
use remote_file_copy_udp_pro.Poll.Defs.{
  PollFd, PollSet, Polled, changed, answers, exits, zero_fd, poll_set_size, setup_poll_set,
  add_to_poll_set, enter_socket, poll_call,
}
use remote_file_copy_udp_pro.Poll.Refine.{setup-watches}
use remote_file_copy_udp_pro.Poll.Table.{asks, asks-zero, asks-take, take-asks, grow-changed}

-- What the programs rely on of the system's `poll`, where the event is what the time of the call
-- brings to one socket: a time-out leaves every `revents` at 0, an error is an error, and a datagram
-- shows in the `revents` of the entries that ask for input on that socket, and in no other.
pub record IsPoll (poll : ℕ → Event → List PollFd → Option (List ℕ)) : Type 0 where
  pub quiet :
      (i : ℕ) (entries : List PollFd) → poll i timeout entries ≡ some (replicate (length entries) 0)
  pub fails : (i : ℕ) (entries : List PollFd) → poll i failure entries ≡ none
  pub shows :
      (i : ℕ) (a : Arrival) (entries : List PollFd)
      → (revents : List ℕ) × (poll i (ready a) entries ≡ some revents)
        × ((j : ℕ) → (0 < get_or revents j 0) ↔ (asks i (get_elem? entries j) ≡ true))

-- The entry of a socket.
abbrev entry_of : ℕ → PollFd
entry_of i = record { fd = i; events = true }

-- The table behind `setupPollSet` and `addToPollSet`.
abbrev pub one_socket : PollSet → ℕ → PollSet
one_socket s i = record {
  poll_file_descriptors = set (replicate (table_size i) zero_fd) i (entry_of i);
  max_file_descriptor = if leb s.max_file_descriptor (i + 1) then i + 1 else s.max_file_descriptor;
  current_poll_set_size = table_size i;
}

enter_socket-zeros :
    (s : PollSet) (i n : ℕ)
    → i < n
    → enter_socket i
        (record s { poll_file_descriptors = replicate n zero_fd; current_poll_set_size = n })
      ≡ changed (record {
        poll_file_descriptors = set (replicate n zero_fd) i (entry_of i);
        max_file_descriptor =
            if leb s.max_file_descriptor (i + 1) then i + 1 else s.max_file_descriptor;
        current_poll_set_size = n;
      })
unfolding enter_socket
enter_socket-zeros s i n lt =
    rw (lt→ltb i (length (replicate n zero_fd)) (omega (arith, length-replicate n zero_fd))) refl

more_zeros :
    (i : ℕ) → replicate 10 zero_fd ++ replicate (i + 10 - 10) zero_fd ≡ replicate (i + 10) zero_fd
more_zeros i =
    let less : i + 10 - 10 ≡ i = omega arith in
    let more : i + 10 ≡ suc (suc (suc (suc (suc (suc (suc (suc (suc (suc i))))))))) = omega arith in
    rw (less, more) refl

pub setup_add-one_socket :
    (stale : PollFd) (s : PollSet) (i : ℕ)
    → add_to_poll_set stale (setup_poll_set s) i ≡ changed (one_socket s i)
unfolding add_to_poll_set setup_poll_set
setup_add-one_socket stale s i = elim (Bool-cases (leb poll_set_size i)) [
  | inl large ↦
      rw
        (
          large,
          grow-changed stale (setup_poll_set s) (i + 10) (setup-watches s).0.sized (ground arith),
        )
        (ap
            (λ (xs : List PollFd).
              enter_socket i
                (record s { poll_file_descriptors = xs; current_poll_set_size = i + 10 }))
            (more_zeros i)
          ∙ enter_socket-zeros s i (i + 10) (omega arith))
  | inr small ↦ rw small (enter_socket-zeros s i 10 (ground arith))
]

-- Only the entry of the socket asks for it.
only_own :
    (i n j : ℕ) → asks i (get_elem? (set (replicate n zero_fd) i (entry_of i)) j) ≡ true → j ≡ i
only_own i n j asked = elim (ℕ_discrete i j) [
  | yes same ↦ sym same
  | no other ↦ absurd (
      ground
        (arith, asks-zero i n j, get_elem?-set_ne (replicate n zero_fd) i j (entry_of i) other))
]

table_size-gt : (i : ℕ) → i < table_size i
table_size-gt i = ground arith

one_socket-within :
    (s : PollSet) (i : ℕ)
    → s.max_file_descriptor ≤ table_size i
    → (one_socket s i).max_file_descriptor ≤ length (one_socket s i).poll_file_descriptors
one_socket-within s i low =
    let size : length (one_socket s i).poll_file_descriptors ≡ table_size i =
      length-set (replicate (table_size i) zero_fd) i (entry_of i)
      ∙ length-replicate (table_size i) zero_fd in
    rw size (ground arith)

module _ (poll : ℕ → Event → List PollFd → Option (List ℕ)) (kernel : IsPoll poll) where
  zeros : (n j : ℕ) → get_or {A = ℕ} (replicate n 0) j 0 ≡ 0
  zeros zero j = refl
  zeros (suc n) zero = refl
  zeros (suc n) (suc j) = zeros n j

  -- Where the only entry with `revents` is that of the socket, it is what is found.
  IsFirst-own :
      (i : ℕ) (revents : List ℕ) (a : Option ℕ)
      → 0 < get_or revents i 0
      → ((j : ℕ) → 0 < get_or revents j 0 → j ≡ i)
      → IsFirst revents a
      → a ≡ some i
  IsFirst-own i revents none shown own quiet = absurd (omega (arith, shown, quiet i))
  IsFirst-own i revents (some j) shown own (found, before) = ap (λ k. some k) (own j found)

  IsFirst-zeros : (n : ℕ) (a : Option ℕ) → IsFirst (replicate n 0) a → a ≡ none
  IsFirst-zeros n none quiet = refl
  IsFirst-zeros n (some j) (found, before) = absurd (omega (arith, found, zeros n j))

  module _ (s : PollSet) (i : ℕ) (low : s.max_file_descriptor ≤ table_size i) where
    abbrev polled : List PollFd
    polled = take (one_socket s i).max_file_descriptor (one_socket s i).poll_file_descriptors

    one_socket-quiet : poll_call (poll i timeout) (one_socket s i) ≡ answers none
    one_socket-quiet =
        let (a, eq, first) =
          poll_call-IsFirst (poll i timeout) (one_socket s i) (replicate (length polled) 0)
            (one_socket-within s i low) (kernel.quiet i polled) in
        eq ∙ ap (λ o. answers o) (IsFirst-zeros (length polled) a first)

    one_socket-fails : poll_call (poll i failure) (one_socket s i) ≡ exits
    unfolding poll_call
    one_socket-fails = rw (le→ltb_false _ _ (one_socket-within s i low), kernel.fails i polled) refl

    one_socket-shows :
        (a : Arrival) → poll_call (poll i (ready a)) (one_socket s i) ≡ answers (some i)
    one_socket-shows a =
        let (revents, eq, shown) = kernel.shows i a polled in
        let table = (one_socket s i).poll_file_descriptors in
        let here : asks i (get_elem? table i) ≡ true =
          rw
            (
              get_elem?-set_self (replicate (table_size i) zero_fd) i (entry_of i)
                  (omega (arith, table_size-gt i, length-replicate (table_size i) zero_fd)),
              ==_refl i,
            )
            refl in
        let (o, answered, first) =
          poll_call-IsFirst (poll i (ready a)) (one_socket s i) revents (one_socket-within s i low)
            eq in
        answered
        ∙ ap (λ o. answers o)
            (IsFirst-own i revents o ((shown i).1 (take-asks i _ table i (ground arith) here))
              (λ j found. only_own i (table_size i) j (asks-take i _ table j ((shown j).0 found)))
              first)

  -- What one call comes to.
  abbrev pub answer_of : ℕ → Event → Polled
  answer_of i timeout = answers none
  answer_of i (ready a) = answers (some i)
  answer_of i failure = exits

  pub one_socket-answers :
      (s : PollSet) (i : ℕ) (ev : Event)
      → s.max_file_descriptor ≤ table_size i
      → poll_call (poll i ev) (one_socket s i) ≡ answer_of i ev
  one_socket-answers s i timeout low = one_socket-quiet s i low
  one_socket-answers s i (ready a) low = one_socket-shows s i low a
  one_socket-answers s i failure low = one_socket-fails s i low

  -- Where `poll` does what its documents say: behind `setupPollSet` and `addToPollSet` of one
  -- socket, with `maxFileDescriptor` within the new table before, `pollCall` answers -1 on a time-
  -- out, just that socket when a datagram waits there, and leaves the program when `poll` fails;
  -- and `maxFileDescriptor` is within the table again.
  pub setup_add-answers :
      (stale : PollFd) (s : PollSet) (i : ℕ) (ev : Event)
      → s.max_file_descriptor ≤ table_size i
      → (s' : PollSet) × (add_to_poll_set stale (setup_poll_set s) i ≡ changed s')
        × (s'.max_file_descriptor ≤ table_size i)
        × (poll_call (poll i ev) s' ≡ answer_of i ev)
  setup_add-answers stale s i ev low =
      (one_socket s i, setup_add-one_socket stale s i, ground arith, one_socket-answers s i ev low)
