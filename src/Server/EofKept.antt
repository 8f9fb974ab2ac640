-- ===== src/Server/EofKept.antt =====
-- Workspace/server.c: the EOF that `send_data_state` keeps for `resend_eof_state`.
use remote_file_copy_udp_pro.Base.{
  ℕ, ◌+◌, ◌≤◌, ◌≡◌, refl, sym, ◌∙◌, List, [], length, take, memcpy_front, take-append, arith,
  Endian,
}
use remote_file_copy_udp_pro.Pdu.{create_pdu, datagram, stack_array, length-stack_array}
use remote_file_copy_udp_pro.Pdu.Wire.{wire, create_pdu-wire, length-wire}
use remote_file_copy_udp_pro.Server.State.{Child}
use remote_file_copy_udp_pro.Server.Transfer.{send_eof}

module _ (e : Endian) (in_cksum : List ℕ → ℕ) where
  -- The EOF that is kept is the one that has been sent.
  pub send_eof_kept :
      (seq : ℕ) (c : Child)
      → 7 ≤ length c.eof_packet
      → let c' = send_eof e in_cksum c seq in
        take c'.eof_len c'.eof_packet ≡ wire e in_cksum seq 10 []
  unfolding send_eof
  send_eof_kept seq c room =
      let eof = create_pdu e in_cksum (stack_array 7) seq 10 [] in
      let wired : datagram eof ≡ wire e in_cksum seq 10 [] =
        create_pdu-wire e in_cksum (stack_array 7) seq 10 []
          (omega (arith, length-stack_array 7)) in
      let seven = length-wire e in_cksum seq 10 [] in
      let len : eof.len ≡ 7 + 0 = unfold create_pdu in refl in
      rw wired (
        rw (memcpy_front c.eof_packet (wire e in_cksum seq 10 []) (omega (arith, room, seven)))
          (take-append (wire e in_cksum seq 10 []) _ eof.len (len ∙ sym seven)))
