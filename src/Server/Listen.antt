-- ===== src/Server/Listen.antt =====
-- Workspace/server.c: `main`, `processServer` and the arguments of the program.
use remote_file_copy_udp_pro.Base.{
  false, ℕ, ℤ, pos, to_u16, Bool, ◌||◌, Option, none, some, List, [], ◌∷◌, ◌++◌, length, get_or,
  Endian, ltb, ◌==◌, if◌then◌else◌,
}
use remote_file_copy_udp_pro.Address.{SockAddr, udp_server_setup}
use remote_file_copy_udp_pro.Net.{Event, timeout, ready, failure, recv_from}
use remote_file_copy_udp_pro.CircularQueue.{CircularQueue}
use remote_file_copy_udp_pro.Pdu.{Received, flag_of, max_buf}
use remote_file_copy_udp_pro.Server.Process.{process_client, new_child}
use remote_file_copy_udp_pro.Server.State.{
  start, Child, Outcome, returns, waits, faults, out_of_fuel,
}
use remote_file_copy_udp_pro.Server.State

-- The parent, with the requests that it has started a child for: it waits in `recvfrom` behind the last
-- event, or has left by `exit`.
pub data Parent : Type 0 where
  listens : List Received → Parent
  exits : List Received → Parent

-- The requests of a parent.
abbrev pub children : Parent → List Received
children (listens requests) = requests
children (exits requests) = requests

-- `processServer`. A child runs `processClient` on what has been received; `fork` tells of the number
-- of children so far whether it can start another one. `recvfrom` has no time-out.
unfoldable pub process_server : (ℕ → Bool) → List Received → List Event → Parent
process_server fork requests [] = listens requests
process_server fork requests (timeout ∷ es) = process_server fork requests es
process_server fork requests (failure ∷ es) = exits requests
process_server fork requests (ready a ∷ es) =
    let d = recv_from max_buf a in
    let same = process_server fork requests es in
    let more = process_server fork (requests ++ (d ∷ [])) es in
    if flag_of d == 8 then if fork (length requests) then more else exits requests else same

-- A child of `processServer`: it has left by `exit` behind `processClient`, or has received another
-- datagram on the socket of its parent; or it is still in `processClient`, or has left from there; or
-- it has no socket.
pub data Served : Type 0 where
  left : Child → Served
  receives : Child → Served
  stays : Outcome → Served
  no_socket : Served

-- The next round of the child's loop: a `recvfrom` on a descriptor that is not open is an error, at
-- which `safeRecvfrom` leaves the program.
abbrev pub next_round : (ℕ → Bool) → ℕ → Outcome → Served
next_round descriptors main_socket (returns state c es) =
    if descriptors main_socket then receives c else left c
next_round descriptors main_socket (waits c) = stays (waits c)
next_round descriptors main_socket (State.exits c) = stays (State.exits c)
next_round descriptors main_socket (faults c) = stays (faults c)
next_round descriptors main_socket out_of_fuel = stays out_of_fuel

-- The child with its open descriptors: `filename_state` closes the socket of the parent and opens one
-- with `udpServerSetup`, whose number is what `socket` answers; `processClient` closes it, as it closes
-- the file, before it returns.
unfoldable pub serve :
    Endian
    → (List ℕ → ℕ)
    → (List ℕ → Option (List ℕ))
    → ((ℕ → Bool) → Option ℕ)
    → ℕ
    → (ℕ → Bool)
    → ℕ
    → Received
    → CircularQueue
    → List Event
    → Served
unfolding process_client
serve e in_cksum fopen socket fuel descriptors main_socket request window es =
    let without_main : ℕ → Bool = λ n. if n == main_socket then false else descriptors n in
    elim (socket without_main) [
      | none ↦ no_socket
      | some s ↦
          next_round (λ n. if n == s then false else without_main n) main_socket
            (process_client e in_cksum fopen s request fuel start (new_child request.source window)
              es)
    ]

-- `checkArgs`: the port number, or `none` for its `exit`.
unfoldable pub check_args : (List ℕ → ℤ) → List (List ℕ) → Option ℤ
check_args atoi args =
    if ltb 3 (length args) || length args == 1
    then none
    else if length args == 3
    then some (atoi (get_or args 2 []))
    else some (pos 0)

-- `getErrorRate`: the text of the rate, where there is one, or `none` for its `exit`.
unfoldable pub get_error_rate : (List ℕ → Bool) → List (List ℕ) → Option (Option (List ℕ))
get_error_rate is_rate args =
    if length args == 3 || length args == 2
    then if is_rate (get_or args 1 []) then some (some (get_or args 1 [])) else none
    else some none

module _ (e : Endian) (atoi : List ℕ → ℤ) (is_rate : List ℕ → Bool) (socket : Option ℕ)
    (bind : ℕ → SockAddr → Bool) (getsockname : ℕ → SockAddr) (fork : ℕ → Bool) where
  -- `main`, which does not come behind `processServer`.
  unfoldable pub main : List (List ℕ) → List Event → Parent
  unfolding process_server check_args get_error_rate udp_server_setup
  main args es = elim (check_args atoi args) [
    | none ↦ exits []
    | some port_number ↦ elim (udp_server_setup bind getsockname e socket (to_u16 port_number)) [
      | none ↦ exits []
      | some _ ↦ elim (get_error_rate is_rate args) [
        | none ↦ exits []
        | some _ ↦ process_server fork [] es
      ]
    ]
  ]
