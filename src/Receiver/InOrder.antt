-- ===== src/Receiver/InOrder.antt =====
-- Workspace/rcopy.c: the packets of a sender that are neither lost nor overtaken.
use remote_file_copy_udp_pro.Base.{
  ℕ, zero, suc, ◌<◌, ◌≡◌, refl, true, false, some, List, length, ==_iff, lt→ltb, Endian,
}
use remote_file_copy_udp_pro.Pdu.{Received, seq_num, flag_of, payload_of}
use remote_file_copy_udp_pro.Receiver.Buffer.{flush_rounds, flush_buffer}
use remote_file_copy_udp_pro.Receiver.State.{in_order, ReceiveInfo}
use remote_file_copy_udp_pro.Receiver.Transfer.{
  take_expected, send_rr, in_order_expected, on_in_order, on_data, on_eof, on_packet,
  send_eof_ack_state,
}

-- With nothing in the buffer that is expected, the flush loop does nothing.
flush_rounds-calm :
    (fuel : ℕ) (info : ReceiveInfo)
    → info.highest < info.expected
    → flush_rounds fuel info ≡ some info
unfolding flush_rounds
flush_rounds-calm zero info calm = refl
flush_rounds-calm (suc fuel) info calm = rw (lt→ltb info.highest info.expected calm) refl

module _ (e : Endian) (in_cksum : List ℕ → ℕ) (info : ReceiveInfo) (d : Received) where
  -- The packet that is expected is written, and the RR asks for the next one.
  pub on_packet-expected :
      (payload : List ℕ)
      → flag_of d ≡ 16
      → seq_num d ≡ info.expected
      → payload_of d ≡ some payload
      → let info' : ReceiveInfo = record (take_expected info payload) { highest = seq_num d } in
        on_packet e in_cksum in_order info d
        ≡ some (false, in_order, send_rr e in_cksum info' info'.expected)
  unfolding on_packet on_data on_in_order in_order_expected
  on_packet-expected payload flag here paid =
      let is_expected = (==_iff (seq_num d) info.expected).1 here in
      rw (flag, is_expected, paid) refl

  -- An EOF with nothing in the buffer is acknowledged.
  pub on_packet-eof :
      flag_of d ≡ 10
      → info.highest < info.expected
      → on_packet e in_cksum in_order info d
        ≡ some (
          true,
          in_order,
          send_eof_ack_state e in_cksum (record info { eof_seq = seq_num d }) (seq_num d),
        )
  unfolding on_packet on_eof flush_buffer
  on_packet-eof flag calm =
      rw (flag, flush_rounds-calm (length info.buffer) (record info { eof_seq = seq_num d }) calm)
        refl
