-- ===== src/Examples/Data.antt =====
-- Inputs that the examples share.
use remote_file_copy_udp_pro.Base.{ℕ, ◌+◌, ◌-◌, ◌*◌, ◌%◌, List, [], ◌∷◌, ◌==◌, if◌then◌else◌}
use remote_file_copy_udp_pro.Net.{Arrival}

-- A checksum function: the complement of the one's complement sum of the little-endian words.
abbrev pub word_sum : List ℕ → ℕ
word_sum [] = 0
word_sum (a ∷ []) = a
word_sum (a ∷ b ∷ bytes) = a + 256 * b + word_sum bytes

abbrev pub internet_sum : List ℕ → ℕ
internet_sum bytes = let s = word_sum bytes in 65535 - (if s == 0 then 0 else (s - 1) % 65535 + 1)

-- A file of three bytes.
abbrev pub small_file : List ℕ
small_file = 10 ∷ 20 ∷ 30 ∷ []

-- An array of twelve bytes on the stack.
abbrev pub small_array : List ℕ
small_array = 9 ∷ 9 ∷ 9 ∷ 9 ∷ 9 ∷ 9 ∷ 9 ∷ 9 ∷ 9 ∷ 9 ∷ 9 ∷ 9 ∷ []

-- A datagram from the address 7.
abbrev pub arrives : List ℕ → Arrival
arrives bytes = record { bytes = bytes; source = 7; before = small_array }
