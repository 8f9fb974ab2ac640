-- ===== src/Server/State.antt =====
-- Workspace/server.c: `enum State`, `ServerInfo`, and what a state function can come to.
use remote_file_copy_udp_pro.Base.{ℕ, Bool, Option, List, [], ◌∷◌, ◌++◌}
use remote_file_copy_udp_pro.CircularQueue.{CircularQueue}
use remote_file_copy_udp_pro.Net.{Event, Sent}

-- `enum State`.
pub data State : Type 0 where
  start filename write_file_ok_ack send_data wait_on_ack wait_on_eof_ack resend_eof done : State

-- `ServerInfo`. The open file is the list of bytes that are still to be read; NULL is `none`.
pub record ServerInfo : Type 0 where
  pub child_socket : ℕ
  pub file : Option (List ℕ)
  pub client_addr : ℕ
  pub window_size : ℕ
  pub buffer_size : ℕ
  pub eof_len : ℕ
  pub eof_packet : List ℕ
  pub eof_seq : ℕ
  pub eof_resend_count : ℕ

-- The variables of `processClient`, and what it has sent. `window_set` tells whether
-- `CircularQueue_init` has been called on the local variable `window`.
pub record Child : Type 0 where
  pub info : ServerInfo
  pub open info use *
  pub window : CircularQueue
  pub window_set : Bool
  pub sent : List Sent

-- A state function returns the next state, with the events that are left; or it waits for an event
-- behind the last one of the list; or the program leaves by `exit`; or the C code has no defined
-- behaviour: a division by zero, a NULL or uninitialised pointer, a copy past the end of an array.
pub data Outcome : Type 0 where
  returns : State → Child → List Event → Outcome
  waits : Child → Outcome
  exits : Child → Outcome
  faults : Child → Outcome
  out_of_fuel : Outcome

-- `sendtoErr` to the client.
abbrev pub send : Child → List ℕ → Child
send c bytes = record c { sent = c.sent ++ (record { target = c.client_addr; bytes = bytes } ∷ []) }

-- Where the loops of `send_data_state` come to next from the head of the outer loop: the poll after a
-- packet has been sent, with the number of the next packet; the poll on a full window; the end of the
-- file; or a fault.
pub data Next : Type 0 where
  polls_sent : Child → ℕ → Next
  polls_full : Child → Next
  at_eof : Child → Next
  broken : Child → Next
