-- ===== src/System/Defs.antt =====
-- Workspace/server.c (`send_data_state`, `wait_on_eof_ack_state`, `resend_eof_state`) and Workspace/rcopy.c (`process_transfer_state`): both ends,
-- and the network between them. A data packet may be lost, repeated and overtaken at will; an
-- acknowledgement may be lost, but the acknowledgements come in order and once.
use remote_file_copy_udp_pro.Base.{
  ℕ, ◌+◌, Option, none, some, List, [], ◌∷◌, ◌++◌, length, drop, get_elem?, leb, Endian, without,
  if◌then◌else◌,
}
use remote_file_copy_udp_pro.Net.{Arrival, Sent, recv_from, ready}
use remote_file_copy_udp_pro.Pdu.{max_buf}
use remote_file_copy_udp_pro.Receiver.{TransferState, in_order, ReceiveInfo, on_packet}
use remote_file_copy_udp_pro.Server.Replies.{start_sending}
use remote_file_copy_udp_pro.Server.{
  Child, Next, polls_sent, polls_full, at_eof, broken, Poll, sent, full, fill, send_eof,
  receive_ack, resend_first, Outcome, returns, waits, exits, faults, out_of_fuel, done,
  wait_on_eof_ack, wait_on_eof_ack_state, resend_eof_state,
}

-- The sender: at a poll of `send_data_state`, with `sequenceNum` and `timeoutCount`; at the poll of
-- `wait_on_eof_ack_state`; or behind the loop of `processClient`.
pub data SenderState : Type 0 where
  polls : Poll → Child → ℕ → ℕ → SenderState
  closes : Child → SenderState
  over : Child → SenderState

-- The receiver: at its `recvfrom`, or behind `process_transfer_state`.
pub data ReceiverState : Type 0 where
  receives : TransferState → ReceiveInfo → ReceiverState
  closed : ReceiveInfo → ReceiverState

-- Both, with the acknowledgements that are on their way.
pub record Both : Type 0 where
  pub sender : SenderState
  pub receiver : ReceiverState
  pub acks : List Sent

-- What happens next: a second goes by at the sender; the next acknowledgement arrives or is lost; one
-- of the datagrams that the sender has ever sent arrives. `before` is what the array of the `recvfrom`
-- holds, and the number in front of it the address that the datagram comes from.
pub data Action : Type 0 where
  second : Action
  take_ack : ℕ → List ℕ → Action
  lose_ack : ℕ → Action
  deliver : ℕ → ℕ → List ℕ → Action

-- What the sender has sent.
abbrev pub child_of : SenderState → Child
child_of (polls poll c seq count) = c
child_of (closes c) = c
child_of (over c) = c

module _ (e : Endian) (in_cksum : List ℕ → ℕ) where
  -- The next poll of the sender, from what `fill` has come to; `none` is a fault.
  abbrev pub next_poll : ℕ → Next → Option SenderState
  next_poll seq (polls_sent c next) = some (polls sent c next 0)
  next_poll seq (polls_full c) = some (polls full c seq 0)
  next_poll seq (at_eof c) = some (closes (send_eof e in_cksum c seq))
  next_poll seq (broken c) = none

  -- The next poll of the sender behind its EOF, from what one of the two states has returned.
  abbrev pub next_eof_poll : Outcome → Option SenderState
  next_eof_poll (returns done c es) = some (over c)
  next_eof_poll (returns wait_on_eof_ack c es) = some (closes c)
  next_eof_poll (returns state c es) = none
  next_eof_poll (waits c) = none
  next_eof_poll (exits c) = none
  next_eof_poll (faults c) = none
  next_eof_poll out_of_fuel = none

  -- The sender's poll times out; behind the EOF, `resend_eof_state` comes next.
  unfoldable pub on_second : SenderState → Option SenderState
  on_second (polls sent c seq count) = next_poll seq (fill e in_cksum c seq)
  on_second (polls full c seq count) = elim (resend_first e in_cksum c) [
    | none ↦ none
    | some c' ↦ some (if leb 10 (count + 1) then over c' else polls full c' seq (count + 1))
  ]
  on_second (closes c) = next_eof_poll (resend_eof_state c [])
  on_second (over c) = some (over c)

  -- The sender's poll finds a datagram.
  unfoldable pub on_ack : Arrival → SenderState → Option SenderState
  on_ack a (polls sent c seq count) = elim (receive_ack e in_cksum c a) [
    | none ↦ none
    | some c' ↦ some (polls sent c' seq count)
  ]
  on_ack a (polls full c seq count) = elim (receive_ack e in_cksum c a) [
    | none ↦ none
    | some c' ↦ next_poll seq (fill e in_cksum c' seq)
  ]
  on_ack a (closes c) = next_eof_poll (wait_on_eof_ack_state e in_cksum c (ready a ∷ []))
  on_ack a (over c) = some (over c)

  -- The receiver's `recvfrom` returns: what it has come to, and what it has sent.
  unfoldable pub on_datagram : Arrival → ReceiverState → Option (ReceiverState × List Sent)
  unfolding on_packet
  on_datagram a (closed info) = some (closed info, [])
  on_datagram a (receives state info) =
      let d = recv_from (max_buf + 7) a in
      let info' : ReceiveInfo = record info { server_addr = d.source } in
      elim (on_packet e in_cksum state info' d) [
        | none ↦ none
        | some (is_done, state', info'') ↦ some (
          if is_done then closed info'' else receives state' info'',
          drop (length info.sent) info''.sent,
        )
      ]

  -- One action; `none` is a fault of one of the programs.
  unfoldable pub step : Action → Both → Option Both
  unfolding on_second on_ack on_datagram
  step second s = elim (on_second s.sender) [
    | none ↦ none
    | some sender ↦ some (record s { sender = sender })
  ]
  step (take_ack source before) s = elim s.acks [
    | [] ↦ some s
    | x ∷ rest ↦
        elim (on_ack (record { bytes = x.bytes; source = source; before = before }) s.sender) [
          | none ↦ none
          | some sender ↦ some (record s { sender = sender; acks = rest })
        ]
  ]
  step (lose_ack i) s = some (record s { acks = without i s.acks })
  step (deliver i source before) s = elim (get_elem? (child_of s.sender).sent i) [
    | none ↦ some s
    | some x ↦
        elim (on_datagram (record { bytes = x.bytes; source = source; before = before })
          s.receiver) [
            | none ↦ none
            | some (receiver, acks) ↦ some (record s { receiver = receiver; acks = s.acks ++ acks })
          ]
  ]

  -- Actions one after the other.
  unfoldable pub run : List Action → Both → Option Both
  unfolding step
  run [] s = some s
  run (a ∷ actions) s = elim (step a s) [ none ↦ none | some s' ↦ run actions s' ]

  -- The child at the head of `send_data_state`, and a client at the head of `process_transfer_state`.
  unfoldable pub begin : Child → ReceiveInfo → Option Both
  begin c info = elim (next_poll 1 (fill e in_cksum (start_sending c) 1)) [
    | none ↦ none
    | some sender ↦ some (record { sender = sender; receiver = receives in_order info; acks = [] })
  ]
