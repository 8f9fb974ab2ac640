-- ===== src/Tcp/Defs.antt =====
-- Workspace/networks.c: the TCP functions, and `safeSend` and `safeRecv` of Workspace/safeUtil.c. The
-- system calls are parameters; `none` is their -1.
use remote_file_copy_udp_pro.Address.{
  Family, SockAddr, Hints, zero_address, any_address, af_inet6, gethostbyname6,
}
use remote_file_copy_udp_pro.Address.Text.{get_ip_address_string6}
use remote_file_copy_udp_pro.Base.{
  ℕ, ℤ, to_u16, Option, none, some, List, [], ◌∷◌, Bool, Endian, htons, take, if◌then◌else◌,
}
use remote_file_copy_udp_pro.Output.{Line, server_port_number, client_accepted, connected_to}

-- What a function of networks.c comes to: it leaves the program, or returns a socket; with what it has
-- printed.
pub data Setup : Type 0 where
  exits : Setup
  opened : ℕ → List Line → Setup

-- `tcpServerSetup`.
unfoldable pub tcp_server_setup :
    (bind : ℕ → SockAddr → Bool) (getsockname : ℕ → Option SockAddr) (listen : ℕ → Bool)
    → Endian
    → Option ℕ
    → ℕ
    → Setup
tcp_server_setup bind getsockname listen e none server_port = exits
tcp_server_setup bind getsockname listen e (some main_server_socket) server_port =
    if bind main_server_socket (any_address e server_port)
    then elim (getsockname main_server_socket) [
      | none ↦ exits
      | some server_address ↦
          if listen main_server_socket
          then opened main_server_socket (server_port_number (htons e server_address.port) ∷ [])
          else exits
    ]
    else exits

module _ (inet_ntop : Family → List ℕ → List ℕ) where
  -- `tcpAccept`. `accept` answers the socket and the address of the client.
  unfoldable pub tcp_accept : (accept : ℕ → Option (ℕ × SockAddr)) → Endian → ℕ → Bool → Setup
  tcp_accept accept e main_server_socket debug_flag = elim (accept main_server_socket) [
    | none ↦ exits
    | some (client_socket, client_address) ↦ opened client_socket (
        if debug_flag
        then client_accepted (get_ip_address_string6 inet_ntop (some client_address.address))
            (htons e client_address.port)
          ∷ []
        else [])
  ]

  -- `tcpClientSetup`.
  unfoldable pub tcp_client_setup :
      (getaddrinfo : List ℕ → Hints → Option (List ℕ)) (connect : ℕ → SockAddr → Bool)
      (atoi : List ℕ → ℤ)
      → Endian
      → Option ℕ
      → List ℕ
      → List ℕ
      → Bool
      → Setup
  tcp_client_setup getaddrinfo connect atoi e none server_name server_port debug_flag = exits
  tcp_client_setup getaddrinfo connect atoi e (some socket_num) server_name server_port debug_flag =
      let server_address : SockAddr = record zero_address {
        family = some af_inet6;
        port = htons e (to_u16 (atoi server_port));
      } in
      elim (gethostbyname6 getaddrinfo server_name server_address) [
        | none ↦ exits
        | some (filled, ip_address) ↦
            if connect socket_num filled
            then opened socket_num (
                if debug_flag
                then connected_to server_name (get_ip_address_string6 inet_ntop (some ip_address))
                    (atoi server_port)
                  ∷ []
                else [])
            else exits
      ]

-- `safeSend`: the number of bytes that `send` has taken, or `none` where the program leaves.
unfoldable pub safe_send : (send : ℕ → List ℕ → Option ℕ) → ℕ → List ℕ → Option ℕ
safe_send send socket_num buf = send socket_num buf

-- `safeRecv`: the bytes that have been received, at most `len`.
unfoldable pub safe_recv : (recv : ℕ → ℕ → Option (List ℕ)) → ℕ → ℕ → Option (List ℕ)
safe_recv recv socket_num len = elim (recv socket_num len) [
  | none ↦ none
  | some bytes ↦ some (take len bytes)
]
