-- ===== src/CircularQueue/Slots.antt =====
-- Workspace/circularQueue.c: a table that has a packet or nothing for each remainder of the window size,
-- with the calls on it, and what a queue has in its slots. It has no arrays, blocks, lengths or counters.
use native.Mathlib.Decide.{ℕ_discrete}
use remote_file_copy_udp_pro.Base.{
  ℕ, zero, suc, ◌%◌, ◌≤◌, ◌<◌, ◌≡◌, refl, ap, Bool, true, Option, none, some, ◌>>=◌, List, [], ◌∷◌,
  length, get_elem?, set, arith, get_elem?-set_self, get_elem?-set_ne, Bool-cases, inl, inr,
  count_if-le, ◌==◌, ==_refl, if◌then◌else◌,
}
use remote_file_copy_udp_pro.CircularQueue.Defs.{
  QueueEntry, CircularQueue, Status, ok, error, insert, remove, clear, clear_slots,
}
use remote_file_copy_udp_pro.CircularQueue.Valid.{count_valid}

-- The calls of a program, with whether the `malloc` of an insertion succeeds.
pub data Op : Type 0 where
  insert_packet : Bool → ℕ → List ℕ → Op
  remove_packet : ℕ → Op
  clear_all : Op

abbrev pub call : Op → CircularQueue → Option (Status × CircularQueue)
call (insert_packet allocated s packet) q = insert allocated q s packet
call (remove_packet s) q = remove q s
call clear_all q = some (ok, clear q)

-- A number and its packet for each slot in use.
abbrev pub Slots : Type 0
Slots = ℕ → Option (ℕ × List ℕ)

abbrev pub put : Slots → ℕ → Option (ℕ × List ℕ) → Slots
put slots i x j = if j == i then x else slots j

abbrev pub put_packet : Slots → Bool → ℕ → ℕ → List ℕ → Option (ℕ × List ℕ) → Status × Slots
put_packet slots allocated i s packet none =
    if allocated then (ok, put slots i (some (s, packet))) else (error, slots)
put_packet slots allocated i s packet (some x) = (error, slots)

abbrev pub drop_packet : Slots → ℕ → ℕ → Option (ℕ × List ℕ) → Status × Slots
drop_packet slots i s none = (error, slots)
drop_packet slots i s (some (t, packet)) = if t == s then (ok, put slots i none) else (error, slots)

abbrev pub on_slots : ℕ → Op → Slots → Status × Slots
on_slots n (insert_packet allocated s packet) slots =
    put_packet slots allocated (s % n) s packet (slots (s % n))
on_slots n (remove_packet s) slots = drop_packet slots (s % n) s (slots (s % n))
on_slots n clear_all slots = (ok, λ i. none)

-- Calls one behind the other, with what each returns.
unfoldable pub trace : List Op → CircularQueue → Option (List Status × CircularQueue)
trace [] q = some ([], q)
trace (op ∷ ops) q = do r ← call op q; rest ← trace ops r.1; some (r.0 ∷ rest.0, rest.1)

unfoldable pub on_trace : ℕ → List Op → Slots → List Status × Slots
on_trace n [] slots = ([], slots)
on_trace n (op ∷ ops) slots =
    let r = on_slots n op slots in let rest = on_trace n ops r.1 in (r.0 ∷ rest.0, rest.1)

pub put-same : (slots : Slots) (i j : ℕ) → slots i ≡ none → put slots i none j ≡ slots j
put-same slots i j empty = elim (ℕ_discrete j i) [
  | yes same ↦ rw (same, empty, ==_refl i) refl
  | no other ↦ ground arith
]

-- What a queue has in its slots.
abbrev pub in_use : Option QueueEntry → Option (ℕ × List ℕ)
in_use none = none
in_use (some x) =
    if x.valid
    then elim x.packet [ none ↦ none | some packet ↦ some (x.sequence_num, packet) ]
    else none

abbrev pub slots_of : CircularQueue → Slots
slots_of q i = in_use (get_elem? q.entries i)

-- If all slots are counted, all are in use.
pub count_valid-full :
    (xs : List QueueEntry) (i : ℕ) (x : QueueEntry)
    → length xs ≤ count_valid xs
    → get_elem? xs i ≡ some x
    → x.valid ≡ true
count_valid-full [] i x full found = cc
count_valid-full (y ∷ xs) zero x full found =
    ground (arith, count_if-le (λ (z : QueueEntry). z.valid) xs)
count_valid-full (y ∷ xs) (suc i) x full found =
    count_valid-full xs i x (ground (arith, full)) found

pub clear_slots-unused :
    (n : ℕ) (xs : List QueueEntry) (i : ℕ)
    → length xs ≤ n
    → in_use (get_elem? (clear_slots n xs) i) ≡ none
unfolding clear_slots
clear_slots-unused zero [] i few = refl
clear_slots-unused (suc n) [] i few = refl
clear_slots-unused zero (x ∷ xs) i few = absurd (omega (arith, few))
clear_slots-unused (suc n) (x ∷ xs) zero few = elim (Bool-cases x.valid) [
  | inl taken ↦ rw taken refl
  | inr unused ↦ rw unused refl
]
clear_slots-unused (suc n) (x ∷ xs) (suc i) few = clear_slots-unused n xs i (omega (arith, few))

pub count_valid-clear_slots :
    (n : ℕ) (xs : List QueueEntry) → length xs ≤ n → count_valid (clear_slots n xs) ≡ 0
unfolding clear_slots
count_valid-clear_slots zero [] few = refl
count_valid-clear_slots (suc n) [] few = refl
count_valid-clear_slots zero (x ∷ xs) few = absurd (omega (arith, few))
count_valid-clear_slots (suc n) (x ∷ xs) few =
    ground (arith, count_valid-clear_slots n xs (omega (arith, few)))

pub length-clear_slots : (n : ℕ) (xs : List QueueEntry) → length (clear_slots n xs) ≡ length xs
unfolding clear_slots
length-clear_slots zero xs = refl
length-clear_slots (suc n) [] = refl
length-clear_slots (suc n) (x ∷ xs) = ap suc (length-clear_slots n xs)

-- A write to one slot.
pub slots-set :
    (xs : List QueueEntry) (i : ℕ) (v : QueueEntry)
    → i < length xs
    → (j : ℕ)
    → in_use (get_elem? (set xs i v) j) ≡ put (λ k. in_use (get_elem? xs k)) i (in_use (some v)) j
slots-set xs i v lt j = elim (ℕ_discrete i j) [
  | yes same ↦ rw (← same, ==_refl i, get_elem?-set_self xs i v lt) refl
  | no other ↦ rw (get_elem?-set_ne xs i j v other) (ground arith)
]
