-- ===== src/Receiver/Transfer.antt =====
-- Workspace/rcopy.c: `process_transfer_state`, `send_eof_ack_state` and `wait_on_data_state`.
use remote_file_copy_udp_pro.Base.{
  ℕ, ◌+◌, Bool, true, false, ◌||◌, Option, none, some, ◌>>=◌, List, [], ◌∷◌, replicate, inc32,
  Endian, ltb, leb, ◌==◌, if◌then◌else◌,
}
use remote_file_copy_udp_pro.Pdu.{
  Received, seq_num, flag_of, payload_of, create_pdu, datagram, stack_array, max_buf, rr_pdu,
  srej_pdu,
}
use remote_file_copy_udp_pro.Net.{Event, timeout, ready, failure, recv_from}
use remote_file_copy_udp_pro.Receiver.Buffer.{slot, buffer_packet, flush_buffer}
use remote_file_copy_udp_pro.Receiver.State.{
  TransferState, in_order, out_of_order, flush, PacketEntry, ReceiveInfo, write, send,
}

-- What `process_transfer_state` comes to: it is done, or waits in `recvfrom` behind the last event, or
-- the program leaves by `exit`, or the C code has no defined behaviour.
pub data TransferOutcome : Type 0 where
  finished : ReceiveInfo → TransferOutcome
  waits : TransferState → ReceiveInfo → TransferOutcome
  exits : ReceiveInfo → TransferOutcome
  faults : ReceiveInfo → TransferOutcome

-- The flags of a data packet: sent first, as the answer to an SREJ, after a time-out.
abbrev pub is_data : ℕ → Bool
is_data flag = flag == 16 || (flag == 17 || flag == 18)

-- `if (seqNum > info->highest) info->highest = seqNum`.
abbrev pub raise_highest : ReceiveInfo → ℕ → ReceiveInfo
raise_highest info seq = record info {
  highest = if ltb info.highest seq then seq else info.highest;
}

-- The packet that is expected next, in the states `IN_ORDER` and `OUT_OF_ORDER`.
abbrev pub take_expected : ReceiveInfo → List ℕ → ReceiveInfo
take_expected info payload = record (write info payload) { expected = inc32 info.expected }

module _ (e : Endian) (in_cksum : List ℕ → ℕ) where
  -- `send_rr` and `send_srej`.
  abbrev pub send_rr : ReceiveInfo → ℕ → ReceiveInfo
  send_rr info next = send info (rr_pdu e in_cksum next)

  abbrev pub send_srej : ReceiveInfo → ℕ → ReceiveInfo
  send_srej info missing_seq = send info (srej_pdu e in_cksum missing_seq)

  -- The case `IN_ORDER`: the packet that is expected, one further on, any other.
  unfoldable pub in_order_expected : ReceiveInfo → Received → Option (TransferState × ReceiveInfo)
  in_order_expected info d = do
    payload ← payload_of d
    let info' : ReceiveInfo = record (take_expected info payload) { highest = seq_num d }
    some (in_order, send_rr info' info'.expected)

  unfoldable pub in_order_ahead : ReceiveInfo → Received → Option (TransferState × ReceiveInfo)
  unfolding buffer_packet
  in_order_ahead info d = do
    payload ← payload_of d
    info' ← buffer_packet info (seq_num d) payload
    let info'' = raise_highest info' (seq_num d)
    some (out_of_order, send_srej info'' info''.expected)

  unfoldable pub on_in_order : ReceiveInfo → Received → Option (TransferState × ReceiveInfo)
  unfolding in_order_expected in_order_ahead
  on_in_order info d =
      if seq_num d == info.expected
      then in_order_expected info d
      else if ltb info.expected (seq_num d)
      then in_order_ahead info d
      else some (in_order, info)

  -- The case `OUT_OF_ORDER`.
  unfoldable pub out_of_order_expected :
      ReceiveInfo → Received → Option (TransferState × ReceiveInfo)
  out_of_order_expected info d = do
    payload ← payload_of d
    let info' = take_expected info payload
    some (flush, send_rr info' info'.expected)

  unfoldable pub out_of_order_ahead : ReceiveInfo → Received → Option (TransferState × ReceiveInfo)
  unfolding buffer_packet
  out_of_order_ahead info d = do
    payload ← payload_of d
    info' ← buffer_packet info (seq_num d) payload
    some (out_of_order, raise_highest info' (seq_num d))

  unfoldable pub on_out_of_order : ReceiveInfo → Received → Option (TransferState × ReceiveInfo)
  unfolding out_of_order_expected out_of_order_ahead
  on_out_of_order info d =
      if seq_num d == info.expected
      then out_of_order_expected info d
      else if ltb info.expected (seq_num d)
      then out_of_order_ahead info d
      else some (out_of_order, info)

  -- The case `FLUSH`: the packet that has arrived is not looked at.
  unfoldable pub after_flush : ReceiveInfo → Option (TransferState × ReceiveInfo)
  after_flush info =
      if leb info.expected info.highest
      then (slot info info.expected >>= λ entry.
          some
            (if entry.valid then (flush, info) else (out_of_order, send_srej info info.expected)))
      else some (in_order, send_rr info info.expected)

  unfoldable pub on_flush : ReceiveInfo → Option (TransferState × ReceiveInfo)
  unfolding flush_buffer after_flush
  on_flush info = flush_buffer info >>= λ info'. after_flush info'

  -- The `switch` on a data packet.
  unfoldable pub on_data :
      TransferState → ReceiveInfo → Received → Option (TransferState × ReceiveInfo)
  unfolding on_in_order on_out_of_order on_flush
  on_data in_order info d = on_in_order info d
  on_data out_of_order info d = on_out_of_order info d
  on_data flush info d = on_flush info

  -- `send_eof_ack_state`; it always returns DONE.
  unfoldable pub send_eof_ack_state : ReceiveInfo → ℕ → ReceiveInfo
  send_eof_ack_state info eof_sequence =
      send info (datagram (create_pdu e in_cksum (stack_array 7) eof_sequence 35 []))

  -- The branch for an EOF.
  unfoldable pub on_eof : ReceiveInfo → Received → Option ReceiveInfo
  unfolding flush_buffer send_eof_ack_state
  on_eof info d = do
    info' ← flush_buffer (record info { eof_seq = seq_num d })
    some (send_eof_ack_state info' (seq_num d))

  -- One datagram: done (`inl`), or on to the next.
  unfoldable pub on_packet :
      TransferState → ReceiveInfo → Received → Option (Bool × TransferState × ReceiveInfo)
  unfolding on_data on_eof
  on_packet state info d =
      if flag_of d == 10
      then (on_eof info d >>= λ info'. some (true, state, info'))
      else if is_data (flag_of d)
      then (on_data state info d >>= λ r. some (false, r.0, r.1))
      else some (false, state, info)

  -- `process_transfer_state`. Its `recvfrom` has no time-out, so one does not show.
  unfoldable pub process_transfer_state : TransferState → ReceiveInfo → List Event → TransferOutcome
  unfolding on_packet
  process_transfer_state state info [] = waits state info
  process_transfer_state state info (timeout ∷ es) = process_transfer_state state info es
  process_transfer_state state info (failure ∷ es) = exits info
  process_transfer_state state info (ready a ∷ es) =
      let d = recv_from (max_buf + 7) a in
      let info' : ReceiveInfo = record info { server_addr = d.source } in
      elim (on_packet state info' d) [
        | none ↦ faults info'
        | some (is_done, state', info'') ↦
            let rest = process_transfer_state state' info'' es in
            if is_done then finished info'' else rest
      ]

-- An entry of the array from `calloc`.
abbrev pub zero_packet : PacketEntry
zero_packet = record { packet = replicate max_buf 0; packet_len = 0; valid = false }

-- The `ReceiveInfo` of `wait_on_data_state`, once its `calloc` and `fopen` have succeeded.
unfoldable pub new_info : ℕ → ℕ → ℕ → ReceiveInfo
new_info window_size socket_num server_addr = record {
  buffer = replicate window_size zero_packet;
  window_size = window_size;
  expected = 1;
  highest = 0;
  out_file = [];
  socket_num = socket_num;
  server_addr = server_addr;
  eof_seq = 0;
  sent = [];
}

-- `wait_on_data_state`: `none` is its return of DONE where the buffer or the file cannot be had.
unfoldable pub wait_on_data_state :
    Endian → (List ℕ → ℕ) → Bool → ℕ → ℕ → ℕ → List Event → Option TransferOutcome
unfolding process_transfer_state new_info
wait_on_data_state e in_cksum opened window_size socket_num server_addr es =
    if opened
    then some (
        process_transfer_state e in_cksum in_order (new_info window_size socket_num server_addr) es)
    else none
