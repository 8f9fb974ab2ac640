-- ===== src/Base/Lists.antt =====
-- C arrays as lists with native indices, and the block copy `memcpy`.
use Prim.Native.Nat.{ℕ, zero, suc, ◌+◌, ◌-◌, ◌≤◌, ◌<◌, min}
use mathlib.Core.Path.{◌≡◌, refl, ap}
use mathlib.Core.Logic.{◌≢◌, ◌⊎◌, inl, inr}
use mathlib.Core.List.{List, [], ◌∷◌, ◌++◌}
use mathlib.Core.Bool.{Bool, true, false}
use mathlib.Core.Option.{Option, none, some}
use native.Mathlib.Omega.{arith}

-- A Boolean as the number 0 or 1.
abbrev pub bit : Bool → ℕ
bit true = 1
bit false = 0

module _ {ℓ} {A : Type ℓ} where
  abbrev pub length : List A → ℕ
  length [] = 0
  length (x ∷ xs) = suc (length xs)

  abbrev pub get_elem? : List A → ℕ → Option A
  get_elem? [] i = none
  get_elem? (x ∷ xs) zero = some x
  get_elem? (x ∷ xs) (suc i) = get_elem? xs i

  -- A write out of bounds changes nothing.
  abbrev pub set : List A → ℕ → A → List A
  set [] i v = []
  set (x ∷ xs) zero v = v ∷ xs
  set (x ∷ xs) (suc i) v = x ∷ set xs i v

  abbrev pub get_or : List A → ℕ → A → A
  get_or [] i d = d
  get_or (x ∷ xs) zero d = x
  get_or (x ∷ xs) (suc i) d = get_or xs i d

  abbrev pub take : ℕ → List A → List A
  take zero xs = []
  take (suc n) [] = []
  take (suc n) (x ∷ xs) = x ∷ take n xs

  abbrev pub drop : ℕ → List A → List A
  drop zero xs = xs
  drop (suc n) [] = []
  drop (suc n) (x ∷ xs) = drop n xs

  -- A list without one of its elements.
  abbrev pub without : ℕ → List A → List A
  without i [] = []
  without zero (x ∷ xs) = xs
  without (suc i) (x ∷ xs) = x ∷ without i xs

  abbrev pub replicate : ℕ → A → List A
  replicate zero a = []
  replicate (suc n) a = a ∷ replicate n a

  -- `memcpy(dst + off, src, length src)`. What would go past the end of `dst` is not written.
  unfoldable pub memcpy : List A → ℕ → List A → List A
  memcpy [] off src = []
  memcpy (x ∷ dst) zero [] = x ∷ dst
  memcpy (x ∷ dst) zero (b ∷ src) = b ∷ memcpy dst zero src
  memcpy (x ∷ dst) (suc off) src = x ∷ memcpy dst off src

  -- How many elements pass a test.
  abbrev pub count_if : (A → Bool) → List A → ℕ
  count_if p [] = 0
  count_if p (x ∷ xs) = bit (p x) + count_if p xs

module _ {ℓ} {A : Type ℓ} where
  pub List-cases : (xs : List A) → (xs ≡ []) ⊎ (0 < length xs)
  List-cases [] = inl refl
  List-cases (x ∷ xs) = inr (omega arith)

  pub length-append : (xs ys : List A) → length (xs ++ ys) ≡ length xs + length ys
  length-append [] ys = omega arith
  length-append (x ∷ xs) ys = omega (arith, length-append xs ys)

  pub length-set : (xs : List A) (i : ℕ) (v : A) → length (set xs i v) ≡ length xs
  length-set [] i v = refl
  length-set (x ∷ xs) zero v = refl
  length-set (x ∷ xs) (suc i) v = ap suc (length-set xs i v)

  pub length-replicate : (n : ℕ) (a : A) → length (replicate n a) ≡ n
  length-replicate zero a = refl
  length-replicate (suc n) a = ap suc (length-replicate n a)

  pub length-take : (n : ℕ) (xs : List A) → length (take n xs) ≡ min n (length xs)
  length-take zero xs = omega arith
  length-take (suc n) [] = omega arith
  length-take (suc n) (x ∷ xs) = omega (arith, length-take n xs)

  pub get_elem?-lt : (xs : List A) (i : ℕ) → i < length xs → (a : A) × (get_elem? xs i ≡ some a)
  get_elem?-lt [] i h = elim h [ ]
  get_elem?-lt (x ∷ xs) zero h = (x, refl)
  get_elem?-lt (x ∷ xs) (suc i) h = get_elem?-lt xs i (omega arith)

  pub get_elem?-below : (xs : List A) (i : ℕ) (a : A) → get_elem? xs i ≡ some a → i < length xs
  get_elem?-below [] i a h = cc
  get_elem?-below (x ∷ xs) zero a h = omega arith
  get_elem?-below (x ∷ xs) (suc i) a h = omega (arith, get_elem?-below xs i a h)

  pub get_elem?-eq-get_or :
      (xs : List A) (i : ℕ) (d : A) → i < length xs → get_elem? xs i ≡ some (get_or xs i d)
  get_elem?-eq-get_or [] i d h = elim h [ ]
  get_elem?-eq-get_or (x ∷ xs) zero d h = refl
  get_elem?-eq-get_or (x ∷ xs) (suc i) d h = get_elem?-eq-get_or xs i d (omega arith)

  pub get_elem?-ge : (xs : List A) (i : ℕ) → length xs ≤ i → get_elem? xs i ≡ none
  get_elem?-ge [] i h = refl
  get_elem?-ge (x ∷ xs) zero h = absurd (omega arith)
  get_elem?-ge (x ∷ xs) (suc i) h = get_elem?-ge xs i (omega arith)

  pub get_elem?-set_self :
      (xs : List A) (i : ℕ) (v : A) → i < length xs → get_elem? (set xs i v) i ≡ some v
  get_elem?-set_self [] i v h = elim h [ ]
  get_elem?-set_self (x ∷ xs) zero v h = refl
  get_elem?-set_self (x ∷ xs) (suc i) v h = get_elem?-set_self xs i v (omega arith)

  pub get_elem?-set_ne :
      (xs : List A) (i j : ℕ) (v : A) → i ≢ j → get_elem? (set xs i v) j ≡ get_elem? xs j
  get_elem?-set_ne [] i j v h = refl
  get_elem?-set_ne (x ∷ xs) zero zero v h = absurd (h refl)
  get_elem?-set_ne (x ∷ xs) zero (suc j) v h = refl
  get_elem?-set_ne (x ∷ xs) (suc i) zero v h = refl
  get_elem?-set_ne (x ∷ xs) (suc i) (suc j) v h = get_elem?-set_ne xs i j v (λ e. h (ap suc e))

  pub get_elem?-replicate : (n i : ℕ) (a : A) → i < n → get_elem? (replicate n a) i ≡ some a
  get_elem?-replicate zero i a h = elim h [ ]
  get_elem?-replicate (suc n) zero a h = refl
  get_elem?-replicate (suc n) (suc i) a h = get_elem?-replicate n i a (omega arith)

  pub get_elem?-replicate_eq :
      (n i : ℕ) (a : A) {x : A} → get_elem? (replicate n a) i ≡ some x → x ≡ a
  get_elem?-replicate_eq zero i a h = cc
  get_elem?-replicate_eq (suc n) zero a h = cc
  get_elem?-replicate_eq (suc n) (suc i) a h = get_elem?-replicate_eq n i a h

  pub take-append : (xs ys : List A) (n : ℕ) → n ≡ length xs → take n (xs ++ ys) ≡ xs
  take-append [] ys zero h = refl
  take-append [] ys (suc n) h = absurd (omega arith)
  take-append (x ∷ xs) ys zero h = absurd (omega arith)
  take-append (x ∷ xs) ys (suc n) h = ap (λ r. x ∷ r) (take-append xs ys n (omega arith))

  pub take-all : (xs : List A) (n : ℕ) → length xs ≤ n → take n xs ≡ xs
  take-all [] zero h = refl
  take-all [] (suc n) h = refl
  take-all (x ∷ xs) zero h = absurd (omega arith)
  take-all (x ∷ xs) (suc n) h = ap (λ r. x ∷ r) (take-all xs n (omega arith))

  pub take-append-drop : (n : ℕ) (xs : List A) → take n xs ++ drop n xs ≡ xs
  take-append-drop zero xs = refl
  take-append-drop (suc n) [] = refl
  take-append-drop (suc n) (x ∷ xs) = rw (take-append-drop n xs)

  pub length-drop : (n : ℕ) (xs : List A) → length (drop n xs) ≡ length xs - n
  length-drop zero xs = omega arith
  length-drop (suc n) [] = omega arith
  length-drop (suc n) (x ∷ xs) = omega (arith, length-drop n xs)

  pub length-memcpy :
      (dst : List A) (off : ℕ) (src : List A) → length (memcpy dst off src) ≡ length dst
  unfolding memcpy
  length-memcpy [] off src = refl
  length-memcpy (x ∷ dst) zero [] = refl
  length-memcpy (x ∷ dst) zero (b ∷ src) = ap suc (length-memcpy dst zero src)
  length-memcpy (x ∷ dst) (suc off) src = ap suc (length-memcpy dst off src)

  -- A copy of nothing.
  pub memcpy-nil : (dst : List A) → memcpy dst 0 [] ≡ dst
  unfolding memcpy
  memcpy-nil [] = refl
  memcpy-nil (x ∷ dst) = refl

  -- A copy to the front replaces as many bytes and keeps the rest.
  pub memcpy_front :
      (dst src : List A) → length src ≤ length dst → memcpy dst 0 src ≡ src ++ drop (length src) dst
  unfolding memcpy
  memcpy_front [] [] h = refl
  memcpy_front [] (b ∷ src) h = absurd (omega arith)
  memcpy_front (x ∷ dst) [] h = refl
  memcpy_front (x ∷ dst) (b ∷ src) h = ap (λ r. b ∷ r) (memcpy_front dst src (omega arith))

  -- A copy behind a known front leaves the front.
  pub memcpy-append :
      (xs dst : List A) (off : ℕ) (src : List A)
      → off ≡ length xs
      → memcpy (xs ++ dst) off src ≡ xs ++ memcpy dst 0 src
  unfolding memcpy
  memcpy-append [] dst zero src h = refl
  memcpy-append [] dst (suc off) src h = absurd (omega arith)
  memcpy-append (x ∷ xs) dst zero src h = absurd (omega arith)
  memcpy-append (x ∷ xs) dst (suc off) src h =
      ap (λ r. x ∷ r) (memcpy-append xs dst off src (omega arith))

  pub count_if-le : (p : A → Bool) (xs : List A) → count_if p xs ≤ length xs
  count_if-le p [] = omega arith
  count_if-le p (x ∷ xs) = ground (arith, count_if-le p xs)

  -- A write changes the count by the element that it replaces and the one that it puts.
  pub count_if-set :
      (p : A → Bool) (xs : List A) (i : ℕ) (x v : A)
      → get_elem? xs i ≡ some x
      → count_if p (set xs i v) + bit (p x) ≡ count_if p xs + bit (p v)
  count_if-set p [] i x v h = cc
  count_if-set p (y ∷ xs) zero x v h = ground arith
  count_if-set p (y ∷ xs) (suc i) x v h = omega (arith, count_if-set p xs i x v h)

  -- An element that passes is counted.
  pub count_if-pos :
      (p : A → Bool) (xs : List A) (i : ℕ) (x : A)
      → get_elem? xs i ≡ some x
      → p x ≡ true
      → 0 < count_if p xs
  count_if-pos p [] i x h t = cc
  count_if-pos p (y ∷ xs) zero x h t = ground arith
  count_if-pos p (y ∷ xs) (suc i) x h t = omega (arith, count_if-pos p xs i x h t)

  pub count_if-replicate :
      (p : A → Bool) (n : ℕ) (a : A) → p a ≡ false → count_if p (replicate n a) ≡ 0
  count_if-replicate p zero a h = refl
  count_if-replicate p (suc n) a h = ground (arith, count_if-replicate p n a h)
