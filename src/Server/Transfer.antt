-- ===== src/Server/Transfer.antt =====
-- Workspace/server.c: the loops of `send_data_state`.
use remote_file_copy_udp_pro.Base.{
  ℕ, ◌+◌, true, Option, none, some, List, [], ◌∷◌, length, take, drop, memcpy, inc32, Endian, ltb,
  leb, ◌==◌, if◌then◌else◌,
}
use remote_file_copy_udp_pro.Pdu.{create_pdu, datagram, stack_array, max_buf}
use remote_file_copy_udp_pro.CircularQueue.{insert, is_full}
use remote_file_copy_udp_pro.Net.{Event, timeout, ready, failure}
use remote_file_copy_udp_pro.Server.Send.{receive_ack, resend_first}
use remote_file_copy_udp_pro.Server.State.{
  done, wait_on_eof_ack, Child, Outcome, returns, waits, exits, faults, Next, polls_sent,
  polls_full, at_eof, broken, send,
}

-- The two places where `send_data_state` polls.
pub data Poll : Type 0 where
  sent full : Poll

-- One packet of the file: its PDU goes to the window and to the client. What
-- `CircularQueue_insert` returns is not looked at.
unfoldable pub keep_and_send : Child → ℕ → List ℕ → List ℕ → Next
keep_and_send c sequence_num pdu rest = elim (insert true c.window sequence_num pdu) [
  | none ↦ broken c
  | some (_, window) ↦
      let c' : Child = record c { info = record c.info { file = some rest }; window = window } in
      polls_sent (send c' pdu) (inc32 sequence_num)
]

module _ (e : Endian) (in_cksum : List ℕ → ℕ) where
  unfoldable pub send_packet : Child → ℕ → List ℕ → List ℕ → Next
  send_packet c sequence_num payload rest =
      let pdu = create_pdu e in_cksum (stack_array (max_buf + 7)) sequence_num 16 payload in
      keep_and_send c sequence_num (datagram pdu) rest

  -- `fread(payload, 1, bufferSize, file)` and what follows it. A `fread` of more than `MAXBUF` bytes
  -- runs over the array `payload`, and one from NULL faults.
  unfoldable pub read_chunk : Child → ℕ → ℕ → Option (List ℕ) → Next
  unfolding send_packet
  read_chunk c sequence_num buffer_size none = broken c
  read_chunk c sequence_num buffer_size (some bytes) =
      let payload = take buffer_size bytes in
      if ltb max_buf (length payload)
      then broken c
      else if length payload == 0
      then at_eof c
      else send_packet c sequence_num payload (drop buffer_size bytes)

  -- From the head of the outer loop to the next poll.
  unfoldable pub fill : Child → ℕ → Next
  unfolding read_chunk
  fill c sequence_num =
      if is_full c.window then polls_full c else read_chunk c sequence_num c.buffer_size c.file

  -- The EOF packet, sent and kept for `resend_eof_state`.
  unfoldable pub send_eof : Child → ℕ → Child
  send_eof c sequence_num =
      let eof_pdu = create_pdu e in_cksum (stack_array 7) sequence_num 10 [] in
      let c' = send c (datagram eof_pdu) in
      record c' {
        info = record c'.info {
          eof_packet = memcpy c'.eof_packet 0 (datagram eof_pdu);
          eof_len = eof_pdu.len;
          eof_seq = sequence_num;
        };
      }

  -- The next poll, the end of the file or the fault that `fill` has come to; `again` is the rest of
  -- the loop.
  abbrev pub resume : (Poll → Child → ℕ → Outcome) → ℕ → List Event → Next → Outcome
  resume again sequence_num es (polls_sent c next) = again sent c next
  resume again sequence_num es (polls_full c) = again full c sequence_num
  resume again sequence_num es (at_eof c) = returns wait_on_eof_ack (send_eof c sequence_num) es
  resume again sequence_num es (broken c) = faults c

  -- The loops of `send_data_state` from one of their polls, with `sequenceNum` and `timeoutCount`. The
  -- poll of `wait_on_ack_state` finds the datagram that the poll of the loop has seen.
  unfoldable pub send_loop : Poll → Child → ℕ → ℕ → List Event → Outcome
  send_loop poll c seq count [] = waits c
  send_loop poll c seq count (failure ∷ es) = exits c
  send_loop sent c seq count (timeout ∷ es) =
      resume (λ poll' c' seq'. send_loop poll' c' seq' 0 es) seq es (fill c seq)
  send_loop full c seq count (timeout ∷ es) = elim (resend_first e in_cksum c) [
    | none ↦ faults c
    | some c' ↦
        let rest = send_loop full c' seq (count + 1) es in
        if leb 10 (count + 1) then returns done c' es else rest
  ]
  send_loop sent c seq count (ready a ∷ es) = elim (receive_ack e in_cksum c a) [
    | none ↦ faults c
    | some c' ↦ send_loop sent c' seq count es
  ]
  send_loop full c seq count (ready a ∷ es) = elim (receive_ack e in_cksum c a) [
    | none ↦ faults c
    | some c' ↦ resume (λ poll' c'' seq'. send_loop poll' c'' seq' 0 es) seq es (fill c' seq)
  ]

  -- `send_data_state`.
  unfoldable pub send_data_state : Child → List Event → Outcome
  send_data_state c es =
      let start : Child = record c { info = record c.info { eof_resend_count = 0 } } in
      resume (λ poll c' seq. send_loop poll c' seq 0 es) 1 es (fill start 1)
