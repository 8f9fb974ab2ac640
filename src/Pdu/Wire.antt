-- ===== src/Pdu/Wire.antt =====
-- The bytes of a PDU on the wire, and `createPDU`, `send_rr` and `send_srej`.
use remote_file_copy_udp_pro.Base.{
  ℕ, suc, ◌+◌, ◌≤◌, ◌≡◌, refl, List, [], ◌∷◌, ◌++◌, length, take, memcpy, be32, Endian, ◌%◌, ◌/◌,
  little, big, store16, arith, take-append, memcpy_front, memcpy-nil,
}
use remote_file_copy_udp_pro.Pdu.Build.{datagram, create_pdu, rr_pdu, srej_pdu}

-- Seven bytes taken off a long enough array.
take_7 {ℓ} :
    {A : Type ℓ} (a b c d f g h : A) (n : ℕ) (xs : List A)
    → take (7 + n) (a ∷ b ∷ c ∷ d ∷ f ∷ g ∷ h ∷ xs) ≡ a ∷ b ∷ c ∷ d ∷ f ∷ g ∷ h ∷ take n xs
take_7 a b c d f g h n xs =
    let e : 7 + n ≡ suc (suc (suc (suc (suc (suc (suc n)))))) = omega arith in rw e

module _ (e : Endian) (in_cksum : List ℕ → ℕ) where
  -- The header with a zero checksum, and the payload: what the checksum is taken of.
  abbrev pub summed : ℕ → ℕ → List ℕ → List ℕ
  summed sequence_number flag payload = be32 sequence_number ++ (0 ∷ 0 ∷ flag ∷ payload)

  -- The layout: sequence number, checksum in the host's order, flag, payload.
  abbrev pub wire : ℕ → ℕ → List ℕ → List ℕ
  wire sequence_number flag payload =
      be32 sequence_number
      ++ (store16 e (in_cksum (summed sequence_number flag payload)) ++ (flag ∷ payload))

  -- The two bytes of the checksum, whatever the byte order.
  pub store16-pair : (n : ℕ) → (x : ℕ) × (y : ℕ) × (store16 e n ≡ x ∷ y ∷ [])
  unfolding store16
  store16-pair n = pair e
    where
      pair : (e : Endian) → (x : ℕ) × (y : ℕ) × (store16 e n ≡ x ∷ y ∷ [])
      pair little = (n % 256, n / 256 % 256, refl)
      pair big = (n / 256 % 256, n % 256, refl)

  -- In an array with room for 7 bytes and the payload, `createPDU` lays out the sequence number in
  -- network order, the checksum in the host's order, the flag and the payload; the checksum is that
  -- of these bytes with a zero checksum field.
  pub create_pdu-wire :
      (array : List ℕ) (sequence_number flag : ℕ) (payload : List ℕ)
      → 7 + length payload ≤ length array
      → datagram (create_pdu e in_cksum array sequence_number flag payload)
        ≡ wire sequence_number flag payload
  unfolding create_pdu memcpy
  create_pdu-wire (a ∷ b ∷ c ∷ d ∷ f ∷ g ∷ h ∷ rest) s flag payload le =
      let (x, y, two) = store16-pair (in_cksum (summed s flag payload)) in
      let copied : take (length payload) (memcpy rest 0 payload) ≡ payload =
        rw (memcpy_front rest payload (omega arith)) (take-append payload _ _ refl) in
      rw (memcpy-nil rest, take_7, copied, two, memcpy-nil, take_7, copied) refl
  create_pdu-wire _ s flag payload le = absurd (omega arith)

  pub length-wire :
      (s flag : ℕ) (payload : List ℕ) → length (wire s flag payload) ≡ 7 + length payload
  length-wire s flag payload =
      let (x, y, two) = store16-pair (in_cksum (summed s flag payload)) in rw two (omega arith)

  -- `send_rr` sends the PDU that `createPDU` makes for flag 5 and no payload, in any array that can
  -- hold one, and `send_srej` that for flag 6.
  pub control-create_pdu :
      (array : List ℕ) (s : ℕ)
      → 7 ≤ length array
      → (rr_pdu e in_cksum s ≡ datagram (create_pdu e in_cksum array s 5 []))
        × (srej_pdu e in_cksum s ≡ datagram (create_pdu e in_cksum array s 6 []))
  unfolding rr_pdu srej_pdu memcpy
  control-create_pdu array s h =
      let (x, y, two) = store16-pair (in_cksum (summed s 5 [])) in
      let (x', y', two') = store16-pair (in_cksum (summed s 6 [])) in
      (
        rw (create_pdu-wire array s 5 [] (omega arith), two) refl,
        rw (create_pdu-wire array s 6 [] (omega arith), two') refl,
      )
