-- ===== src/Poll/Call.antt =====
-- Workspace/pollLib.c: `pollCall`, and the table that the state functions of the programs poll.
use Prim.Native.Nat.{max}
use remote_file_copy_udp_pro.Base.{
  ℕ, zero, suc, ◌+◌, ◌≤◌, ◌<◌, ◌≡◌, ◌↔◌, inl, inr, refl, sym, ap, ◌∙◌, Option, none, some, List, [],
  ◌∷◌, length, take, get_or, arith, ltb, leb, ◌==◌, if◌then◌else◌, count_if, lt→ltb, le→ltb_false,
  Bool-cases,
}
use remote_file_copy_udp_pro.Poll.Defs.{
  PollFd, PollSet, changed, answers, faults, setup_poll_set, add_to_poll_set, first_ready,
  poll_call, poll_set_size,
}
use remote_file_copy_udp_pro.Poll.Refine.{setup-watches}
use remote_file_copy_udp_pro.Poll.Table.{watches, add-watches, add-enters}

-- The first index with `revents`, or none.
abbrev pub IsFirst : List ℕ → Option ℕ → Type 0
IsFirst revents none = (j : ℕ) → get_or revents j 0 ≡ 0
IsFirst revents (some i) = (0 < get_or revents i 0) × ((j : ℕ) → j < i → get_or revents j 0 ≡ 0)

-- What the loop has found from the index `i` on.
abbrev Found : ℕ → List ℕ → Option ℕ → Type 0
Found i revents none = IsFirst revents none
Found i revents (some r) = (k : ℕ) × (r ≡ i + k) × IsFirst revents (some k)

Found-cons :
    (i : ℕ) (revents : List ℕ) (o : Option ℕ) → Found (suc i) revents o → Found i (0 ∷ revents) o
Found-cons i revents none f = all
  where
    all : (j : ℕ) → get_or (0 ∷ revents) j 0 ≡ 0
    all zero = refl
    all (suc j) = f j
Found-cons i revents (some r) f =
    let (k, e, found) = f in (suc k, omega (arith, e), (found.0, below k found.1))
  where
    below :
        (k : ℕ)
        → ((j : ℕ) → j < k → get_or revents j 0 ≡ 0)
        → (j : ℕ) → j < suc k
        → get_or (0 ∷ revents) j 0 ≡ 0
    below k before zero lt = refl
    below k before (suc j) lt = before j (omega arith)

first_ready-Found : (revents : List ℕ) (i : ℕ) → Found i revents (first_ready i revents)
unfolding first_ready
first_ready-Found [] i = λ j. refl
first_ready-Found (zero ∷ rest) i =
    Found-cons i rest (first_ready (suc i) rest) (first_ready-Found rest (suc i))
first_ready-Found (suc r ∷ rest) i =
    rw (lt→ltb 0 (suc r) (omega arith))
      (0, omega arith, (omega arith, λ j lt. absurd (omega (arith, lt))))

-- Where none is counted, none is ready.
count-none :
    (revents : List ℕ) → count_if (λ r. ltb 0 r) revents ≡ 0 → (j : ℕ) → get_or revents j 0 ≡ 0
count-none [] e j = refl
count-none (r ∷ rest) e zero = ground arith
count-none (r ∷ rest) e (suc j) = count-none rest (ground arith) j

-- What `poll` answers is passed on as the lowest descriptor that is ready, or -1 if none is.
pub poll_call-IsFirst :
    (poll : List PollFd → Option (List ℕ)) (s : PollSet) (revents : List ℕ)
    → s.max_file_descriptor ≤ length s.poll_file_descriptors
    → poll (take s.max_file_descriptor s.poll_file_descriptors) ≡ some revents
    → (a : Option ℕ) × (poll_call poll s ≡ answers a) × IsFirst revents a
unfolding poll_call
poll_call-IsFirst poll s revents within answered =
    let inside = le→ltb_false (length s.poll_file_descriptors) s.max_file_descriptor within in
    elim (Bool-cases (ltb 0 (count_if (λ r. ltb 0 r) revents))) [
      | inl counted ↦ (
        first_ready 0 revents,
        rw (inside, answered, counted) refl,
        first (first_ready 0 revents) (first_ready-Found revents 0),
      )
      | inr not_counted ↦
          (none, rw (inside, answered, not_counted) refl, count-none revents (ground arith))
    ]
  where
    first : (o : Option ℕ) → Found 0 revents o → IsFirst revents o
    first none f = f
    first (some r) (k, e, found) = let same : r ≡ k = omega (arith, e) in rw same found

poll_call-faults :
    (poll : List PollFd → Option (List ℕ)) (s : PollSet)
    → (poll_call poll s ≡ faults) ↔ (length s.poll_file_descriptors < s.max_file_descriptor)
unfolding poll_call
poll_call-faults poll s = (λ f. ground arith, λ lt. rw (lt→ltb _ _ lt) refl)

changed-injective : {s s' : PollSet} → changed s ≡ changed s' → s ≡ s'
changed-injective eq = cc

-- The length of the table for a socket.
abbrev pub table_size : ℕ → ℕ
table_size socket_number =
    if leb poll_set_size socket_number then socket_number + poll_set_size else poll_set_size

-- Behind `setupPollSet` and `addToPollSet` of a socket, in any state of the process, that socket is
-- the only one that `poll` is asked for by the entries of the table below `maxFileDescriptor`, and
-- the `poll` of `pollCall` is handed entries outside of the table just if `maxFileDescriptor` was
-- above the size of the new table before, since `setupPollSet` does not reset it.
pub setup_add-poll_call :
    (stale : PollFd) (poll : List PollFd → Option (List ℕ)) (s : PollSet) (socket_number : ℕ)
    → (s' : PollSet) × (add_to_poll_set stale (setup_poll_set s) socket_number ≡ changed s')
      × ((n : ℕ) → watches s' n ≡ (n == socket_number))
      × ((poll_call poll s' ≡ faults) ↔ (table_size socket_number < s.max_file_descriptor))
unfolding setup_poll_set
setup_add-poll_call stale poll s i =
    let (table, none_polled) = setup-watches s in
    let (s', eq, sized, size, high, _) = add-enters stale (setup_poll_set s) i table.sized in
    let (s₁, eq₁, _, map) = add-watches stale (setup_poll_set s) i table in
    let same : s₁ ≡ s' = changed-injective (sym eq₁ ∙ eq) in
    let len : length s'.poll_file_descriptors ≡ table_size i = sized ∙ size in
    let top : s'.max_file_descriptor ≡ max s.max_file_descriptor (i + 1) = high in
    (
      s',
      eq,
      λ n. ap (λ t. watches t n) (sym same) ∙ map n ∙ rw (none_polled n) (ground arith),
      (
        λ f. ground (arith, (poll_call-faults poll s').0 f),
        λ lt. (poll_call-faults poll s').1 (ground arith),
      ),
    )
