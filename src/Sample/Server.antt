-- ===== src/Sample/Server.antt =====
-- Workspace/myServer.c.
use remote_file_copy_udp_pro.Address.{Family, SockAddr}
use remote_file_copy_udp_pro.Base.{
  ℕ, ℤ, pos, to_u16, Bool, true, Option, none, some, List, [], ◌∷◌, ◌++◌, length, get_or, memcpy,
  Endian, ltb, ◌==◌, if◌then◌else◌,
}
use remote_file_copy_udp_pro.Output.{Line, message_received, connection_closed}
use remote_file_copy_udp_pro.Sample.State.{Ended, returns, exits, faults, max_buf, print_text}
use remote_file_copy_udp_pro.Tcp.{tcp_server_setup, tcp_accept, safe_recv}
use remote_file_copy_udp_pro.Tcp

-- `recvFromClient`, on the array `stack` that it finds on the stack, behind what has been printed.
unfoldable pub recv_from_client : (recv : ℕ → ℕ → Option (List ℕ)) → List ℕ → ℕ → List Line → Ended
unfolding print_text
recv_from_client recv stack client_socket printed = elim (safe_recv recv client_socket max_buf) [
  | none ↦ exits printed
  | some bytes ↦
      if length bytes == 0
      then returns (printed ++ (connection_closed ∷ []))
      else elim (print_text (memcpy stack 0 bytes)) [
        | none ↦ faults
        | some text ↦ returns (printed ++ (message_received (length bytes) text ∷ []))
      ]
]

-- `checkArgs`: the port number, or `none` for its `exit`.
unfoldable pub check_args : (List ℕ → ℤ) → List (List ℕ) → Option ℤ
check_args atoi args =
    if ltb 2 (length args)
    then none
    else if length args == 2
    then some (atoi (get_or args 1 []))
    else some (pos 0)

module _ (inet_ntop : Family → List ℕ → List ℕ) (bind : ℕ → SockAddr → Bool)
    (getsockname : ℕ → Option SockAddr) (listen : ℕ → Bool) (accept : ℕ → Option (ℕ × SockAddr))
    (atoi : List ℕ → ℤ) (recv : ℕ → ℕ → Option (List ℕ)) (e : Endian) (socket : Option ℕ) where
  -- What stands behind `tcpAccept` and behind `tcpServerSetup`.
  abbrev pub with_client : List ℕ → List Line → Tcp.Setup → Ended
  with_client stack printed Tcp.exits = exits printed
  with_client stack printed (Tcp.opened client_socket more) =
      recv_from_client recv stack client_socket (printed ++ more)

  abbrev pub with_server : List ℕ → Tcp.Setup → Ended
  with_server stack Tcp.exits = exits []
  with_server stack (Tcp.opened main_server_socket printed) =
      with_client stack printed (tcp_accept inet_ntop accept e main_server_socket true)

  -- `main`.
  unfoldable pub main : List (List ℕ) → List ℕ → Ended
  unfolding recv_from_client check_args
  main args stack = elim (check_args atoi args) [
    | none ↦ exits []
    | some port_number ↦
        with_server stack (tcp_server_setup bind getsockname listen e socket (to_u16 port_number))
  ]
