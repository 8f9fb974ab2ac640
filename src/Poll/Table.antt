-- ===== src/Poll/Table.antt =====
-- Workspace/pollLib.c: the size of the table, and the set of sockets that it stands for.
use native.Mathlib.Decide.{ℕ_discrete, dec_lt}
use Prim.Native.Nat.{max}
use remote_file_copy_udp_pro.Base.{
  ℕ, zero, suc, ◌+◌, ◌-◌, ◌≤◌, ◌<◌, ◌≡◌, refl, sym, ap, ◌∙◌, Bool, true, false, ◌&&◌, Option, none,
  some, List, [], ◌∷◌, ◌++◌, length, take, get_elem?, set, replicate, arith, leb, ◌==◌,
  if◌then◌else◌, length-set, length-replicate, length-append, take-all, get_elem?-set_self,
  get_elem?-set_ne, get_elem?-ge, Bool-cases, inl, inr, append_assoc, ==_refl, lt→ltb, le→leb,
  lt→leb_false,
}
use remote_file_copy_udp_pro.Poll.Defs.{
  PollFd, PollSet, changed, poll_set_size, zero_fd, srealloc, zero_entries, grow_poll_set,
  enter_socket, add_to_poll_set, remove_from_poll_set,
}

-- The array is as long as `currentPollSetSize` says.
abbrev pub IsSized : PollSet → Type 0
IsSized s = length s.poll_file_descriptors ≡ s.current_poll_set_size

-- Whether an entry asks for input on the socket.
abbrev pub asks : ℕ → Option PollFd → Bool
asks n none = false
asks n (some x) = x.events && (x.fd == n)

-- Whether the table asks for a socket, in its own entry.
abbrev pub enters : PollSet → ℕ → Bool
enters s n = asks n (get_elem? s.poll_file_descriptors n)

-- The abstract view: the sockets that are polled. `poll` is handed the entries below
-- `maxFileDescriptor`, and no others.
abbrev pub watches : PollSet → ℕ → Bool
watches s n = asks n (get_elem? (take s.max_file_descriptor s.poll_file_descriptors) n)

-- The size is true, and no socket is entered at `maxFileDescriptor` or above.
pub record IsTable (s : PollSet) : Type 0 where
  pub sized : IsSized s
  pub below : (n : ℕ) → enters s n ≡ true → n < s.max_file_descriptor

-- Entries of a part are entries of the whole.
pub asks-take :
    (i m : ℕ) (entries : List PollFd) (j : ℕ)
    → asks i (get_elem? (take m entries) j) ≡ true
    → asks i (get_elem? entries j) ≡ true
asks-take i zero entries j asked = absurd (ground arith)
asks-take i (suc m) [] j asked = asked
asks-take i (suc m) (x ∷ rest) zero asked = asked
asks-take i (suc m) (x ∷ rest) (suc j) asked = asks-take i m rest j asked

pub take-asks :
    (i m : ℕ) (entries : List PollFd) (j : ℕ)
    → j < m
    → asks i (get_elem? entries j) ≡ true
    → asks i (get_elem? (take m entries) j) ≡ true
take-asks i zero entries j lt asked = absurd (omega arith)
take-asks i (suc m) [] j lt asked = asked
take-asks i (suc m) (x ∷ rest) zero lt asked = asked
take-asks i (suc m) (x ∷ rest) (suc j) lt asked = take-asks i m rest j (omega arith) asked

-- In such a table what is entered is polled.
pub watches-enters : (s : PollSet) (n : ℕ) → IsTable s → watches s n ≡ enters s n
watches-enters s n v = elim (Bool-cases (enters s n)) [
  | inl entered ↦
      take-asks n s.max_file_descriptor s.poll_file_descriptors n (v.below n entered) entered
      ∙ sym entered
  | inr absent ↦ elim (Bool-cases (watches s n)) [
    | inl polled ↦ polled ∙ sym (asks-take n s.max_file_descriptor s.poll_file_descriptors n polled)
    | inr quiet ↦ quiet ∙ sym absent
  ]
]

set-append :
    (xs ys : List PollFd) (i : ℕ) (y v : PollFd)
    → i ≡ length xs
    → set (xs ++ (y ∷ ys)) i v ≡ (xs ++ (v ∷ [])) ++ ys
set-append [] ys zero y v e = refl
set-append [] ys (suc i) y v e = absurd (omega arith)
set-append (x ∷ xs) ys zero y v e = absurd (omega arith)
set-append (x ∷ xs) ys (suc i) y v e = ap (λ r. x ∷ r) (set-append xs ys i y v (omega arith))

-- The loop zeroes what lies behind the old entries.
zero_entries-append :
    (xs ys : List PollFd) (i : ℕ)
    → i ≡ length xs
    → zero_entries (length ys) i (xs ++ ys) ≡ xs ++ replicate (length ys) zero_fd
unfolding zero_entries
zero_entries-append xs [] i e = refl
zero_entries-append xs (y ∷ ys) i e =
    ap (zero_entries (length ys) (suc i)) (set-append xs ys i y zero_fd e)
    ∙ zero_entries-append (xs ++ (zero_fd ∷ [])) ys (suc i)
        (omega (arith, length-append xs (zero_fd ∷ [])))
    ∙ append_assoc xs (zero_fd ∷ []) (replicate (length ys) zero_fd)

-- So a larger table has the old entries, and behind them zeros.
pub grow-changed :
    (stale : PollFd) (s : PollSet) (size : ℕ)
    → IsSized s
    → s.current_poll_set_size < size
    → grow_poll_set stale s size
      ≡ changed (record s {
        poll_file_descriptors =
            s.poll_file_descriptors ++ replicate (size - s.current_poll_set_size) zero_fd;
        current_poll_set_size = size;
      })
unfolding grow_poll_set
grow-changed stale s size sized lt =
    let more = replicate (size - length s.poll_file_descriptors) stale in
    let all : take size s.poll_file_descriptors ≡ s.poll_file_descriptors =
      take-all s.poll_file_descriptors size (omega arith) in
    let count : length more ≡ size - s.current_poll_set_size =
      length-replicate (size - length s.poll_file_descriptors) stale ∙ ap (λ n. size - n) sized in
    let zeroed =
      zero_entries-append s.poll_file_descriptors more s.current_poll_set_size (sym sized) in
    rw (lt→leb_false size s.current_poll_set_size lt, srealloc, all)
      (ap
        (λ (xs : List PollFd).
          changed (record s { poll_file_descriptors = xs; current_poll_set_size = size }))
        (rw count at zeroed))

-- Entries behind a list.
get_elem?-append_left :
    (xs ys : List PollFd) (i : ℕ) → i < length xs → get_elem? (xs ++ ys) i ≡ get_elem? xs i
get_elem?-append_left [] ys i h = elim h [ ]
get_elem?-append_left (x ∷ xs) ys zero h = refl
get_elem?-append_left (x ∷ xs) ys (suc i) h = get_elem?-append_left xs ys i (omega arith)

get_elem?-append_right :
    (xs ys : List PollFd) (i : ℕ)
    → length xs ≤ i
    → get_elem? (xs ++ ys) i ≡ get_elem? ys (i - length xs)
get_elem?-append_right [] ys i h = ap (get_elem? ys) (omega arith)
get_elem?-append_right (x ∷ xs) ys zero h = absurd (omega arith)
get_elem?-append_right (x ∷ xs) ys (suc i) h =
    get_elem?-append_right xs ys i (omega arith) ∙ ap (get_elem? ys) (omega arith)

pub asks-zero : (n m i : ℕ) → asks n (get_elem? (replicate m zero_fd) i) ≡ false
asks-zero n zero i = refl
asks-zero n (suc m) zero = refl
asks-zero n (suc m) (suc i) = asks-zero n m i

-- The zeros ask for nothing.
asks-append :
    (xs : List PollFd) (m n : ℕ)
    → asks n (get_elem? (xs ++ replicate m zero_fd) n) ≡ asks n (get_elem? xs n)
asks-append xs m n = elim (dec_lt n (length xs)) [
  | yes lt ↦ ap (asks n) (get_elem?-append_left xs (replicate m zero_fd) n lt)
  | no ge ↦
      ap (asks n) (get_elem?-append_right xs (replicate m zero_fd) n (omega arith))
      ∙ asks-zero n m (n - length xs)
      ∙ sym (ap (asks n) (get_elem?-ge xs n (omega arith)))
]

-- The write of `addToPollSet`, in a table with an entry for the socket.
enter_socket-enters :
    (socket_number : ℕ) (s : PollSet)
    → socket_number < length s.poll_file_descriptors
    → (s' : PollSet) × (enter_socket socket_number s ≡ changed s')
      × (length s'.poll_file_descriptors ≡ length s.poll_file_descriptors)
      × (s'.current_poll_set_size ≡ s.current_poll_set_size)
      × (s'.max_file_descriptor ≡ max s.max_file_descriptor (socket_number + 1))
      × ((n : ℕ) → enters s' n ≡ (if n == socket_number then true else enters s n))
unfolding enter_socket
enter_socket-enters i s lt =
    let entries = s.poll_file_descriptors in
    let entry : PollFd = record { fd = i; events = true } in
    (
      record s {
        poll_file_descriptors = set entries i entry;
        max_file_descriptor =
            if leb s.max_file_descriptor (i + 1) then i + 1 else s.max_file_descriptor;
      },
      rw (lt→ltb i (length entries) lt) refl,
      length-set entries i entry,
      refl,
      ground arith,
      λ n. elim (ℕ_discrete i n) [
        | yes same ↦ rw (← same, get_elem?-set_self entries i entry lt, ==_refl i) refl
        | no other ↦ rw (get_elem?-set_ne entries i n entry other) (ground arith)
      ],
    )

-- What `addToPollSet` promises on a table of the size that it says.
pub add-enters :
    (stale : PollFd) (s : PollSet) (socket_number : ℕ)
    → IsSized s
    → (s' : PollSet) × (add_to_poll_set stale s socket_number ≡ changed s')
      × IsSized s'
      × (s'.current_poll_set_size ≡ (
          if leb s.current_poll_set_size socket_number
          then socket_number + poll_set_size
          else s.current_poll_set_size))
      × (s'.max_file_descriptor ≡ max s.max_file_descriptor (socket_number + 1))
      × ((n : ℕ) → enters s' n ≡ (if n == socket_number then true else enters s n))
unfolding add_to_poll_set
add-enters stale s i sized = elim (dec_lt i s.current_poll_set_size) [
  | yes lt ↦
      let (s', eq, len, cur, high, map) = enter_socket-enters i s (omega (arith, sized)) in
      (
        s',
        rw (lt→leb_false s.current_poll_set_size i lt) eq,
        len ∙ sized ∙ sym cur,
        rw (lt→leb_false s.current_poll_set_size i lt) cur,
        high,
        map,
      )
  | no ge ↦
      let size = i + poll_set_size in
      let xs = s.poll_file_descriptors in
      let more = size - s.current_poll_set_size in
      let grown : PollSet = record s {
        poll_file_descriptors = xs ++ replicate more zero_fd;
        current_poll_set_size = size;
      } in
      let long : length grown.poll_file_descriptors ≡ size =
        omega (
          arith,
          length-append xs (replicate more zero_fd),
          length-replicate more zero_fd,
          sized,
        ) in
      let (s', eq, len, cur, high, map) = enter_socket-enters i grown (omega (arith, long)) in
      let test : leb s.current_poll_set_size i ≡ true =
        le→leb s.current_poll_set_size i (omega arith) in
      (
        s',
        rw (test, grow-changed stale s size sized (omega arith)) eq,
        len ∙ long ∙ sym cur,
        rw test cur,
        high,
        λ n. map n ∙ ap (λ b. if n == i then true else b) (asks-append xs more n),
      )
]

-- `removeFromPollSet` of a socket that is polled.
pub remove-enters :
    (s : PollSet) (socket_number : ℕ)
    → IsSized s
    → enters s socket_number ≡ true
    → (s' : PollSet) × (remove_from_poll_set s socket_number ≡ changed s')
      × IsSized s'
      × (s'.max_file_descriptor ≡ s.max_file_descriptor)
      × ((n : ℕ) → enters s' n ≡ (if n == socket_number then false else enters s n))
unfolding remove_from_poll_set
remove-enters s i sized polled = elim (dec_lt i (length s.poll_file_descriptors)) [
  | yes lt ↦
      let entries = s.poll_file_descriptors in
      (
        record s { poll_file_descriptors = set entries i zero_fd },
        rw (lt→ltb i (length entries) lt) refl,
        length-set entries i zero_fd ∙ sized,
        refl,
        λ n. elim (ℕ_discrete i n) [
          | yes same ↦ rw (← same, get_elem?-set_self entries i zero_fd lt, ==_refl i) refl
          | no other ↦ rw (get_elem?-set_ne entries i n zero_fd other) (ground arith)
        ],
      )
  | no ge ↦
      let none_there = get_elem?-ge s.poll_file_descriptors i (omega arith) in
      absurd (ground (arith, none_there))
]

-- Both calls keep a table one, and add or remove just the socket.
pub add-watches :
    (stale : PollFd) (s : PollSet) (socket_number : ℕ)
    → IsTable s
    → (s' : PollSet) × (add_to_poll_set stale s socket_number ≡ changed s')
      × IsTable s'
      × ((n : ℕ) → watches s' n ≡ (if n == socket_number then true else watches s n))
add-watches stale s i v =
    let (s', eq, sized, _, high, map) = add-enters stale s i v.sized in
    let table : IsTable s' = record {
      sized = sized;
      below = λ n entered. elim (ℕ_discrete n i) [
        | yes same ↦ omega (arith, same, high)
        | no other ↦
            let before : enters s n ≡ true = ground (arith, other, map n, entered) in
            omega (arith, v.below n before, high)
      ];
    } in
    (
      s',
      eq,
      table,
      λ n.
          watches-enters s' n table
          ∙ map n
          ∙ ap (λ b. if n == i then true else b) (sym (watches-enters s n v)),
    )

pub remove-watches :
    (s : PollSet) (socket_number : ℕ)
    → IsTable s
    → watches s socket_number ≡ true
    → (s' : PollSet) × (remove_from_poll_set s socket_number ≡ changed s')
      × IsTable s'
      × ((n : ℕ) → watches s' n ≡ (if n == socket_number then false else watches s n))
remove-watches s i v polled =
    let (s', eq, sized, high, map) =
      remove-enters s i v.sized (sym (watches-enters s i v) ∙ polled) in
    let table : IsTable s' = record {
      sized = sized;
      below = λ n entered.
          let before : enters s n ≡ true = ground (arith, map n, entered) in
          omega (arith, v.below n before, high);
    } in
    (
      s',
      eq,
      table,
      λ n.
          watches-enters s' n table
          ∙ map n
          ∙ ap (λ b. if n == i then false else b) (sym (watches-enters s n v)),
    )
