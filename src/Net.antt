-- ===== src/Net.antt =====
-- What the programs meet at the calls of Workspace/pollLib.c and Workspace/safeUtil.c. The network is
-- a list of events in the order in which the program's polls and receives meet them.
use remote_file_copy_udp_pro.Base.{ℕ, List, take}
use remote_file_copy_udp_pro.Pdu.{Received, receive_into}

-- A datagram that waits in the socket, and what the array of the call that takes it holds before.
pub record Arrival : Type 0 where
  pub bytes : List ℕ
  pub source : ℕ
  pub before : List ℕ

-- `pollCall` returns -1 after a time-out, and the number of the socket while a datagram waits; the
-- `safeRecvfrom` behind it takes that datagram. `failure` is a `poll` or a `recvfrom` that returns a
-- negative number, at which both wrappers leave the program by `exit(-1)`.
pub data Event : Type 0 where
  timeout : Event
  ready : Arrival → Event
  failure : Event

-- `safeRecvfrom(socket, array, len, …)`: a longer datagram is cut off.
abbrev pub recv_from : ℕ → Arrival → Received
recv_from len a = receive_into a.before (take len a.bytes) a.source

-- A datagram handed to `sendtoErr`, with the address. What that library drops or flips on the way is
-- the network's.
pub record Sent : Type 0 where
  pub target : ℕ
  pub bytes : List ℕ
