-- ===== src/Base/Bytes.antt =====
-- Bytes of fixed-width integers: what `htonl`, `htons` and a `memcpy` of a host integer do.
-- A byte is a number below 256. The byte order of the host is a parameter; the binaries that are
-- committed in Workspace/ are for a little-endian machine.
use Prim.Native.Nat.{ℕ, ◌+◌, ◌-◌, ◌*◌, ◌/◌, ◌%◌, ◌^◌, ◌<◌}
use mathlib.Core.Path.{◌≡◌}
use mathlib.Core.List.{List, [], ◌∷◌}
use native.Mathlib.Omega.{arith}

pub data Endian : Type 0 where
  little big : Endian

abbrev pub u32_mod : ℕ
u32_mod = 2 ^ 32

abbrev pub u16_mod : ℕ
u16_mod = 2 ^ 16

-- `++` on a `uint32_t`.
abbrev pub inc32 : ℕ → ℕ
inc32 n = (n + 1) % u32_mod

-- The four bytes of `htonl(n)` in memory: the same on every host.
abbrev pub be32 : ℕ → List ℕ
be32 n = n / 2 ^ 24 % 256 ∷ n / 2 ^ 16 % 256 ∷ n / 2 ^ 8 % 256 ∷ n % 256 ∷ []

-- `ntohl` of four bytes in memory.
abbrev pub of_be32 : ℕ → ℕ → ℕ → ℕ → ℕ
of_be32 a b c d = a * 2 ^ 24 + b * 2 ^ 16 + c * 2 ^ 8 + d

pub of_be32-be32 :
    (n : ℕ)
    → n < u32_mod
    → of_be32 (n / 2 ^ 24 % 256) (n / 2 ^ 16 % 256) (n / 2 ^ 8 % 256) (n % 256) ≡ n
of_be32-be32 n h = omega arith

abbrev pub swap16 : ℕ → ℕ
swap16 n = n % 256 * 256 + n / 256 % 256

-- `htons` and `ntohs`, which are one function.
unfoldable pub htons : Endian → ℕ → ℕ
htons little n = swap16 n
htons big n = n % u16_mod

-- The two bytes of a `uint16_t` of the host in memory, and the `uint16_t` of two bytes.
unfoldable pub store16 : Endian → ℕ → List ℕ
store16 little n = n % 256 ∷ n / 256 % 256 ∷ []
store16 big n = n / 256 % 256 ∷ n % 256 ∷ []

unfoldable pub load16 : Endian → ℕ → ℕ → ℕ
load16 little a b = b * 256 + a
load16 big a b = a * 256 + b

-- `htons` undoes itself on 16 bits.
pub htons-htons : (e : Endian) (n : ℕ) → n < u16_mod → htons e (htons e n) ≡ n
unfolding htons
htons-htons little n h = omega arith
htons-htons big n h = omega arith

pub htons-lt : (e : Endian) (n : ℕ) → htons e n < u16_mod
unfolding htons
htons-lt little n = omega arith
htons-lt big n = omega arith

-- The numbers that `atoi` answers.
pub data ℤ : Type 0 where
  pos : ℕ → ℤ
  negsuc : ℕ → ℤ

-- An `int` that is passed as a `uint16_t`.
unfoldable pub to_u16 : ℤ → ℕ
to_u16 (pos n) = n % u16_mod
to_u16 (negsuc n) = u16_mod - 1 - n % u16_mod
