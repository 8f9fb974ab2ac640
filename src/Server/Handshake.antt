-- ===== src/Server/Handshake.antt =====
-- Workspace/server.c: the decision of `wait_on_eof_ack_state` on the acknowledgement that
-- `send_eof_ack_state` of Workspace/rcopy.c sends.
use remote_file_copy_udp_pro.Base.{
  ℕ, ◌+◌, ◌%◌, ◌/◌, ◌≤◌, ◌<◌, ◌^◌, ◌≡◌, refl, ◌∙◌, ◌&&◌, ◌==◌, List, [], ◌∷◌, length, take, memcpy,
  of_be32, of_be32-be32, u16_mod, u32_mod, Endian, htons, load16, arith, min,
}
use remote_file_copy_udp_pro.Net.{recv_from}
use remote_file_copy_udp_pro.Pdu.{max_buf, stack_array, length-stack_array, flag_of, seq_num}
use remote_file_copy_udp_pro.Pdu.RoundTrip.{load16-store16}
use remote_file_copy_udp_pro.Pdu.Wire.{wire, summed, store16-pair}
use remote_file_copy_udp_pro.Server.Eof.{checksum_valid, is_eof_ack}
use remote_file_copy_udp_pro.Server.State.{Child}

-- The packet with a zero checksum field, cut out of `tempBuf`.
zeroed :
    (array rest : List ℕ) (m a b c d x y f : ℕ)
    → m ≡ 7
    → 7 ≤ length array
    → take m (memcpy (memcpy array 0 (take m (a ∷ b ∷ c ∷ d ∷ x ∷ y ∷ f ∷ rest))) 4 (0 ∷ 0 ∷ []))
      ≡ a ∷ b ∷ c ∷ d ∷ 0 ∷ 0 ∷ f ∷ []
unfolding memcpy
zeroed (a' ∷ b' ∷ c' ∷ d' ∷ x' ∷ y' ∷ f' ∷ array) rest m a b c d x y f e le = rw e refl
zeroed _ rest m a b c d x y f e le = absurd (omega (arith, le))

module _ (e : Endian) (in_cksum : List ℕ → ℕ) where
  is_eof_ack-fields :
      (c : Child) (m a b d f x y src : ℕ) (rest : List ℕ)
      → m ≡ 7
      → is_eof_ack e in_cksum c
          (record { buffer = a ∷ b ∷ d ∷ f ∷ x ∷ y ∷ 35 ∷ rest; bytes_recv = m; source = src })
        ≡ ((of_be32 a b d f == c.eof_seq)
            && (htons e (load16 e x y) == in_cksum (a ∷ b ∷ d ∷ f ∷ 0 ∷ 0 ∷ 35 ∷ [])))
  unfolding is_eof_ack checksum_valid flag_of seq_num
  is_eof_ack-fields c m a b d f x y src rest seven =
      let long : 7 ≤ length (stack_array (max_buf + 7)) =
        omega (arith, length-stack_array (max_buf + 7)) in
      rw (zeroed (stack_array (max_buf + 7)) rest m a b d f x y 35 seven long) refl

  is_eof_ack-recv :
      (c : Child) (bytes before : List ℕ) (a b d f x y src : ℕ)
      → bytes ≡ a ∷ b ∷ d ∷ f ∷ x ∷ y ∷ 35 ∷ []
      → 7 ≤ length before
      → is_eof_ack e in_cksum c
          (recv_from max_buf (record { bytes = bytes; source = src; before = before }))
        ≡ ((of_be32 a b d f == c.eof_seq)
            && (htons e (load16 e x y) == in_cksum (a ∷ b ∷ d ∷ f ∷ 0 ∷ 0 ∷ 35 ∷ [])))
  unfolding memcpy
  is_eof_ack-recv c bytes (a' ∷ b' ∷ d' ∷ f' ∷ x' ∷ y' ∷ g' ∷ rest) a b d f x y src eq le =
      let m = min 7 (length (a' ∷ b' ∷ d' ∷ f' ∷ x' ∷ y' ∷ g' ∷ rest)) in
      rw eq (is_eof_ack-fields c m a b d f x y src (memcpy rest 0 []) (omega arith))
  is_eof_ack-recv c bytes _ a b d f x y src eq le = absurd (omega (arith, le))

  -- On the acknowledgement of 7 bytes that carries the number `s` and a 16-bit checksum, received
  -- into an array of 7 bytes at least, the server's test holds just if `s` is the number of its
  -- end-of-file packet and the checksum's value does not change under `ntohs`.
  pub is_eof_ack-wire :
      (c : Child) (s src : ℕ) (before : List ℕ)
      → s < u32_mod
      → in_cksum (summed e in_cksum s 35 []) < u16_mod
      → 7 ≤ length before
      → is_eof_ack e in_cksum c (
          recv_from max_buf
            (record { bytes = wire e in_cksum s 35 []; source = src; before = before }))
        ≡ ((s == c.eof_seq)
            && (htons e (in_cksum (summed e in_cksum s 35 []))
                == in_cksum (summed e in_cksum s 35 [])))
  is_eof_ack-wire c s src before lt word le =
      let v = in_cksum (summed e in_cksum s 35 []) in
      let (x, y, two) = store16-pair e in_cksum v in
      is_eof_ack-recv c (wire e in_cksum s 35 []) before (s / 2 ^ 24 % 256) (s / 2 ^ 16 % 256)
        (s / 2 ^ 8 % 256) (s % 256) x y src (rw two refl) le
      ∙ rw (of_be32-be32 s lt, load16-store16 e v word two) refl
