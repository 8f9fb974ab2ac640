-- ===== src/Examples/System.antt =====
-- A system that does what the programs rely on: `poll`, `socket` and the names of addresses.
use native.Mathlib.Decide.{ℕ_discrete}
use remote_file_copy_udp_pro.Base.{
  ◌++◌, ℕ, zero, suc, ◌+◌, ◌-◌, ◌*◌, ◌≤◌, ◌<◌, ◌≡◌, ◌↔◌, refl, Bool, true, false, ◌&&◌, Option,
  none, some, List, [], ◌∷◌, length, get_elem?, get_or, replicate, arith, little, ltb, ◌==◌,
  if◌then◌else◌, Bool-cases, inl, inr, bit, pos,
}
use remote_file_copy_udp_pro.Client.{IsLowest, World}
use remote_file_copy_udp_pro.Client.Retries.{HasRoom}
use remote_file_copy_udp_pro.Examples.Data.{internet_sum}
use remote_file_copy_udp_pro.Net.{Event, timeout, ready, failure}
use remote_file_copy_udp_pro.Poll.{PollFd}
use remote_file_copy_udp_pro.Poll.Socket.{IsPoll}
use remote_file_copy_udp_pro.Poll.Table.{asks}

-- The entries that ask for input on the socket.
abbrev shown : ℕ → List PollFd → List ℕ
shown i [] = []
shown i (x ∷ entries) = bit (x.events && (x.fd == i)) ∷ shown i entries

abbrev pub poll : ℕ → Event → List PollFd → Option (List ℕ)
poll i timeout entries = some (replicate (length entries) 0)
poll i (ready a) entries = some (shown i entries)
poll i failure entries = none

shown-asks :
    (i : ℕ) (entries : List PollFd) (j : ℕ)
    → (0 < get_or (shown i entries) j 0) ↔ (asks i (get_elem? entries j) ≡ true)
shown-asks i [] j = ((λ h. absurd (omega (arith, h))), λ h. absurd (ground (arith, h)))
shown-asks i (x ∷ entries) zero = bit-pos (x.events && (x.fd == i))
  where
    bit-pos : (b : Bool) → (0 < bit b) ↔ (b ≡ true)
    bit-pos true = ((λ h. refl), λ h. omega arith)
    bit-pos false = ((λ h. absurd (omega (arith, h))), λ h. absurd (ground (arith, h)))
shown-asks i (x ∷ entries) (suc j) = shown-asks i entries j

pub poll-IsPoll : IsPoll poll
poll-IsPoll = record {
  quiet = λ i entries. refl;
  fails = λ i entries. refl;
  shows = λ i a entries. (shown i entries, refl, shown-asks i entries);
}

-- The first of `n` descriptors from `i` on that is not open.
abbrev first_unused : ℕ → ℕ → (ℕ → Bool) → Option ℕ
first_unused zero i d = none
first_unused (suc n) i d = if d i then first_unused n (suc i) d else some i

-- A process with 16 descriptors.
abbrev pub socket : (ℕ → Bool) → Option ℕ
socket d = first_unused 16 0 d

-- What it finds is unused, and what lies before is not.
first_unused-lowest :
    (n i : ℕ) (d : ℕ → Bool) (s : ℕ)
    → first_unused n i d ≡ some s
    → (d s ≡ false) × ((j : ℕ) → i ≤ j → j < s → d j ≡ true)
first_unused-lowest zero i d s e = absurd (ground (arith, e))
first_unused-lowest (suc n) i d s e = elim (Bool-cases (d i)) [
  | inl is_open ↦
      let (unused, below) = first_unused-lowest n (suc i) d s (rw is_open at e) in
      (
        unused,
        λ j above lt. elim (ℕ_discrete i j) [
          | yes same ↦ rw (← same) is_open
          | no other ↦ below j (omega (arith, above)) lt
        ],
      )
  | inr unused ↦
      let same : i ≡ s = ground (arith, rw unused at e) in
      (rw (← same) unused, λ j above lt. absurd (omega (arith, same, above, lt)))
]

pub socket-IsLowest : IsLowest socket
socket-IsLowest = record {
  unused = λ d s e. (first_unused-lowest 16 0 d s e).0;
  lowest = λ d s j e lt. (first_unused-lowest 16 0 d s e).1 j (omega arith) lt;
}

first_unused-room :
    (n i : ℕ) (d : ℕ → Bool) (s : ℕ)
    → ((j : ℕ) → j < s → d j ≡ true)
    → d s ≡ false
    → i ≤ s
    → s < i + n
    → first_unused n i d ≡ some s
first_unused-room zero i d s held unused above lt = absurd (omega (arith, above, lt))
first_unused-room (suc n) i d s held unused above lt = elim (ℕ_discrete i s) [
  | yes same ↦ rw (same, unused) refl
  | no other ↦
      rw (held i (omega (arith, above)))
        (first_unused-room n (suc i) d s held unused (omega (arith, above)) (omega (arith, lt)))
]

pub socket-HasRoom : (s : ℕ) → s < 16 → HasRoom socket s
socket-HasRoom s lt d held unused =
    first_unused-room 16 0 d s held unused (omega arith) (omega (arith, lt))

-- `atoi` of digits.
abbrev decimal : ℕ → List ℕ → ℕ
decimal n [] = n
decimal n (b ∷ bytes) = decimal (n * 10 + (b - 48)) bytes

-- Addresses are told apart by their ports, and `fopen` takes the descriptor 9.
abbrev pub small_world : World
small_world = record {
  endian = little;
  in_cksum = internet_sum;
  atoi = λ bytes. pos (decimal 0 bytes);
  stale = record { fd = 77; events = true };
  poll = poll;
  socket = socket;
  fopen = λ d. some 9;
  getaddrinfo = λ host hints. some (replicate 15 0 ++ (1 ∷ []));
  number = λ a. a.port;
}

-- `rcopy a b 2 2 0 h 7`.
abbrev pub small_args : List (List ℕ)
small_args =
    (114 ∷ [])
    ∷ (97 ∷ [])
    ∷ (98 ∷ [])
    ∷ (50 ∷ [])
    ∷ (50 ∷ [])
    ∷ (48 ∷ [])
    ∷ (104 ∷ [])
    ∷ (55 ∷ [])
    ∷ []

-- Every rate is let through, and the first three descriptors are open.
abbrev pub any_rate : List ℕ → Bool
any_rate rate = true

abbrev pub three_open : ℕ → Bool
three_open n = ltb n 3
