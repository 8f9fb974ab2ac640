-- ===== src/Server/Eof.antt =====
-- Workspace/server.c: `wait_on_eof_ack_state` and `resend_eof_state`.
use remote_file_copy_udp_pro.Base.{
  ℕ, ◌+◌, Bool, ◌&&◌, List, [], ◌∷◌, take, memcpy, Endian, load16, htons, leb, ◌==◌, if◌then◌else◌,
}
use remote_file_copy_udp_pro.Pdu.{Received, byte, seq_num, flag_of, stack_array, max_buf}
use remote_file_copy_udp_pro.Net.{Event, timeout, ready, failure, recv_from}
use remote_file_copy_udp_pro.Server.State.{
  done, wait_on_eof_ack, resend_eof, Child, Outcome, returns, waits, exits, send,
}

module _ (e : Endian) (in_cksum : List ℕ → ℕ) where
  -- The checksum of the packet as `wait_on_eof_ack_state` compares it: the stored one goes through
  -- `ntohs`, the computed one does not.
  unfoldable pub checksum_valid : Received → Bool
  checksum_valid d =
      let recv_checksum = htons e (load16 e (byte d 4) (byte d 5)) in
      let copied = memcpy (stack_array (max_buf + 7)) 0 (take d.bytes_recv d.buffer) in
      let temp_buf = memcpy copied 4 (0 ∷ 0 ∷ []) in
      recv_checksum == in_cksum (take d.bytes_recv temp_buf)

  -- The decision on a datagram that has arrived.
  unfoldable pub is_eof_ack : Child → Received → Bool
  unfolding checksum_valid
  is_eof_ack c d = flag_of d == 35 && (seq_num d == c.eof_seq && checksum_valid d)

  -- `wait_on_eof_ack_state`.
  unfoldable pub wait_on_eof_ack_state : Child → List Event → Outcome
  unfolding is_eof_ack
  wait_on_eof_ack_state c [] = waits c
  wait_on_eof_ack_state c (timeout ∷ es) = returns resend_eof c es
  wait_on_eof_ack_state c (failure ∷ es) = exits c
  wait_on_eof_ack_state c (ready a ∷ es) =
      let d = recv_from max_buf a in
      let c' : Child = record c { info = record c.info { client_addr = d.source } } in
      returns (if is_eof_ack c' d then done else wait_on_eof_ack) c' es

-- `resend_eof_state`.
unfoldable pub resend_eof_state : Child → List Event → Outcome
resend_eof_state c es =
    if leb 10 c.eof_resend_count
    then returns done c es
    else let c' = send c (take c.eof_len c.eof_packet) in
      returns wait_on_eof_ack
        (record c' { info = record c'.info { eof_resend_count = c'.eof_resend_count + 1 } }) es
