-- ===== src/Server/Send.antt =====
-- Workspace/server.c: `send_data_state` and `wait_on_ack_state`.
use remote_file_copy_udp_pro.Base.{
  ℕ, zero, suc, ◌+◌, ◌-◌, Option, none, some, ◌>>=◌, List, [], ◌∷◌, take, drop, of_be32, get_or,
  Endian, ltb, ◌==◌, if◌then◌else◌,
}
use remote_file_copy_udp_pro.Pdu.{
  seq_num, flag_of, create_pdu, datagram, stack_array, max_buf, header_len,
}
use remote_file_copy_udp_pro.CircularQueue.{QueueEntry, CircularQueue, get, remove}
use remote_file_copy_udp_pro.Net.{Arrival, Event, timeout, ready, failure, recv_from}
use remote_file_copy_udp_pro.Server.State.{
  send_data, Child, Outcome, returns, waits, exits, faults, send,
}

-- `for (i = first; i < first + n; i++) CircularQueue_remove(window, i)`.
unfoldable pub remove_from : ℕ → ℕ → CircularQueue → Option CircularQueue
remove_from zero first q = some q
remove_from (suc n) first q = remove q first >>= λ r. remove_from n (first + 1) r.1

-- `entry->packet + 7` for `entry->packetLen - 7` bytes, copied into an array of `MAXBUF + 7`.
unfoldable pub entry_payload : QueueEntry → Option (List ℕ)
entry_payload entry = do
  block ← entry.packet
  if ltb entry.packet_len header_len
      then none
      else if ltb max_buf (entry.packet_len - header_len)
      then none
      else some (take (entry.packet_len - header_len) (drop header_len block))

-- The first entry in use, in the order of the array.
unfoldable pub first_valid : List QueueEntry → Option QueueEntry
first_valid [] = none
first_valid (entry ∷ entries) = if entry.valid then some entry else first_valid entries

module _ (e : Endian) (in_cksum : List ℕ → ℕ) where
  -- A PDU of at most `MAXBUF` bytes of payload, sent to the client.
  abbrev pub send_pdu : Child → ℕ → ℕ → List ℕ → Child
  send_pdu c sequence_num flag payload =
      send c
        (datagram (create_pdu e in_cksum (stack_array (max_buf + 7)) sequence_num flag payload))

  -- The branch of `wait_on_ack_state` for an SREJ.
  unfoldable pub answer_srej : Child → ℕ → Option Child
  unfolding entry_payload
  answer_srej c ack_sequence = do
    found ← get c.window ack_sequence
    elim found [
      | none ↦ some c
      | some entry ↦ entry_payload entry >>= λ payload. some (send_pdu c ack_sequence 17 payload)
    ]

  -- `wait_on_ack_state` behind its poll: it takes the datagram and acts on its flag.
  unfoldable pub receive_ack : Child → Arrival → Option Child
  unfolding remove_from answer_srej
  receive_ack c a =
      let d = recv_from 7 a in
      let c' : Child = record c { info = record c.info { client_addr = d.source } } in
      let ack_sequence = seq_num d in
      if flag_of d == 5
      then (remove_from (ack_sequence - 1) 1 c'.window >>= λ q. some (record c' { window = q }))
      else if flag_of d == 6
      then answer_srej c' ack_sequence
      else some c'

  -- `wait_on_ack_state`.
  unfoldable pub wait_on_ack_state : Child → List Event → Outcome
  unfolding receive_ack
  wait_on_ack_state c [] = waits c
  wait_on_ack_state c (timeout ∷ es) = returns send_data c es
  wait_on_ack_state c (failure ∷ es) = exits c
  wait_on_ack_state c (ready a ∷ es) = elim (receive_ack c a) [
    | none ↦ faults c
    | some c' ↦ returns send_data c' es
  ]

  -- The resending of the oldest packet after a time-out on a full window: of the first entry in use.
  unfoldable pub resend_entry : Child → QueueEntry → Option Child
  resend_entry c entry = do
    block ← entry.packet
    payload ← entry_payload entry
    let seq = of_be32 (get_or block 0 0) (get_or block 1 0) (get_or block 2 0) (get_or block 3 0)
    some (send_pdu c seq 18 payload)

  unfoldable pub resend_first : Child → Option Child
  resend_first c = elim (first_valid c.window.entries) [
    | none ↦ some c
    | some entry ↦ resend_entry c entry
  ]
