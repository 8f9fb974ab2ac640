-- ===== src/Pdu/RoundTrip.antt =====
-- What a receiver reads back from a PDU that `createPDU` built.
use remote_file_copy_udp_pro.Base.{
  ℕ, suc, ◌+◌, ◌-◌, ◌≤◌, ◌<◌, ◌≡◌, refl, ap, ◌∙◌, none, some, ltb, le→ltb_false, if◌then◌else◌,
  List, [], ◌∷◌, length, take, memcpy, u32_mod, u16_mod, Endian, little, big, store16, load16,
  arith, take-append, take-all, memcpy_front, of_be32-be32,
}
use remote_file_copy_udp_pro.Pdu.Build.{datagram, create_pdu}
use remote_file_copy_udp_pro.Pdu.Parse.{
  receive_into, seq_num, flag_of, payload_of, fields, print_pdu,
}
use remote_file_copy_udp_pro.Pdu.Wire.{wire, summed, create_pdu-wire, store16-pair}

-- The test for a short datagram, at one of `7 + n` bytes.
payload_taken :
    (m n : ℕ) (xs : List ℕ)
    → m ≡ 7 + n
    → (if ltb m 7 then none else some (take (m - 7) xs)) ≡ some (take n xs)
payload_taken m n xs e = let e' : m - 7 ≡ n = omega arith in rw (le→ltb_false m 7 (omega arith), e')

-- From a PDU on the wire that fits into the receiver's array, with a 32-bit sequence number, the
-- receiver reads the sequence number, the flag and the payload that it was built from.
pub receive-wire :
    (e : Endian) (in_cksum : List ℕ → ℕ) (array : List ℕ) (s flag : ℕ) (payload : List ℕ) (src : ℕ)
    → s < u32_mod
    → 7 + length payload ≤ length array
    → let d = receive_into array (wire e in_cksum s flag payload) src in
      (seq_num d ≡ s) × (flag_of d ≡ flag) × (payload_of d ≡ some payload)
unfolding memcpy seq_num flag_of payload_of
receive-wire e in_cksum (a ∷ b ∷ c ∷ d ∷ f ∷ g ∷ h ∷ rest) s flag payload src lt le =
    let (x, y, two) = store16-pair e in_cksum (in_cksum (summed e in_cksum s flag payload)) in
    let copied : take (length payload) (memcpy rest 0 payload) ≡ payload =
      rw (memcpy_front rest payload (omega arith)) (take-append payload _ _ refl) in
    rw two
      (of_be32-be32 s lt, refl, payload_taken _ (length payload) _ (omega arith) ∙ ap some copied)
receive-wire e in_cksum _ s flag payload src lt le = absurd (omega arith)

-- The two bytes of a stored `uint16_t` are read back, on a host of either byte order.
pub load16-store16 :
    (e : Endian) (n : ℕ) {x y : ℕ} → n < u16_mod → store16 e n ≡ x ∷ y ∷ [] → load16 e x y ≡ n
unfolding load16 store16
load16-store16 little n h two = ground arith
load16-store16 big n h two = ground arith

-- `printPDU` prints the number, the flag and the payload of every PDU of `createPDU` with a 32-bit
-- number that fits into its array and whose checksum, once stored, verifies.
pub print-create_pdu :
    (e : Endian) (in_cksum : List ℕ → ℕ) (array : List ℕ) (s flag : ℕ) (payload : List ℕ)
    → s < u32_mod
    → 7 + length payload ≤ length array
    → in_cksum (wire e in_cksum s flag payload) ≡ 0
    → print_pdu in_cksum (datagram (create_pdu e in_cksum array s flag payload))
      ≡ fields s flag payload
unfolding print_pdu seq_num flag_of payload_of
print-create_pdu e in_cksum array s flag payload lt le verifies =
    let (x, y, two) = store16-pair e in_cksum (in_cksum (summed e in_cksum s flag payload)) in
    let taken = payload_taken (7 + length payload) (length payload) payload refl in
    let seven : suc (suc (suc (suc (suc (suc (suc (length payload))))))) ≡ 7 + length payload =
      omega arith in
    rw
      (
        create_pdu-wire e in_cksum array s flag payload le,
        verifies,
        two,
        of_be32-be32 s lt,
        seven,
        taken,
        take-all payload (length payload) (omega arith),
      )
      refl
