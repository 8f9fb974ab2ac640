-- ===== src/Sample/Session.antt =====
-- Workspace/myClient.c and Workspace/myServer.c: one line from the client's terminal to the server's.
use remote_file_copy_udp_pro.Address.{
  Family, SockAddr, Hints, any_address, af_inet6, gethostbyname6, get_ip_address46,
}
use remote_file_copy_udp_pro.Address.Text.{get_ip_address_string6, get_ip_address_string46}
use remote_file_copy_udp_pro.Base.{
  ℕ, ◌+◌, ◌%◌, ◌≤◌, ◌<◌, ◌≡◌, refl, sym, ap, ◌∙◌, ℤ, pos, to_u16, Bool, true, false, Option, some,
  List, [], ◌∷◌, ◌++◌, length, take, drop, memcpy, memcpy_front, take-all, take-append-drop,
  length-append, append_assoc, Endian, u16_mod, htons, htons-htons, htons-lt, mod-eq_of_lt, arith,
  ◌==◌, Bool-cases, inl, inr,
}
use remote_file_copy_udp_pro.Output.{
  Line, server_port_number, client_accepted, connected_to, enter_data, read, amount_sent,
  message_received,
}
use remote_file_copy_udp_pro.Sample.Client
use remote_file_copy_udp_pro.Sample.Client.{read_from_stdin, send_to_server, with_connection}
use remote_file_copy_udp_pro.Sample.Line.{line_of, read_from_stdin-line}
use remote_file_copy_udp_pro.Sample.Server
use remote_file_copy_udp_pro.Sample.Server.{recv_from_client, check_args}
use remote_file_copy_udp_pro.Sample.State.{returns, max_buf, print_text}
use remote_file_copy_udp_pro.Server.{c_string}
use remote_file_copy_udp_pro.Tcp.{
  tcp_server_setup, tcp_accept, tcp_client_setup, safe_send, safe_recv, opened,
}

-- A text with a NUL behind it.
print_text-c_string : (text rest : List ℕ) → print_text (text ++ (0 ∷ rest)) ≡ some (c_string text)
unfolding print_text c_string
print_text-c_string [] rest = refl
print_text-c_string (b ∷ text) rest = elim (Bool-cases (b == 0)) [
  | inl nul ↦ rw (nul, c_string) refl
  | inr other ↦ rw (other, print_text-c_string text rest) refl
]

-- What the client sends.
abbrev pub sent_of : List ℕ → List ℕ
sent_of stdin = line_of stdin ++ (0 ∷ [])

length-sent_of : (stdin : List ℕ) → length (sent_of stdin) ≡ length (line_of stdin) + 1
length-sent_of stdin = length-append (line_of stdin) (0 ∷ [])

-- The client's part.
pub send_to_server-line :
    (send : ℕ → List ℕ → Option ℕ) (stack stdin : List ℕ) (socket_num n : ℕ) (printed : List Line)
    → length stack ≡ max_buf
    → send socket_num (sent_of stdin) ≡ some n
    → send_to_server send stack stdin socket_num printed
      ≡ returns (
          (printed
            ++ (enter_data ∷ read (c_string (line_of stdin)) (length (line_of stdin) + 1) ∷ []))
          ++ (amount_sent n ∷ []))
unfolding send_to_server safe_send
send_to_server-line send stack stdin socket_num n printed sized all_sent =
    let r = read_from_stdin stack stdin in
    let (front, count, short, size) = read_from_stdin-line stack stdin sized in
    let whole : r.0 ≡ line_of stdin ++ (0 ∷ drop r.1 r.0) =
      sym (take-append-drop r.1 r.0)
      ∙ ap (λ xs. xs ++ drop r.1 r.0) front
      ∙ append_assoc (line_of stdin) (0 ∷ []) (drop r.1 r.0) in
    let text : print_text r.0 ≡ some (c_string (line_of stdin)) =
      ap print_text whole ∙ print_text-c_string (line_of stdin) (drop r.1 r.0) in
    rw (send_to_server, text, front, all_sent, count) refl

-- The server's part.
pub recv_from_client-line :
    (recv : ℕ → ℕ → Option (List ℕ)) (stack stdin : List ℕ) (client_socket : ℕ)
    (printed : List Line)
    → length stack ≡ max_buf
    → length (sent_of stdin) ≤ max_buf
    → recv client_socket max_buf ≡ some (sent_of stdin)
    → recv_from_client recv stack client_socket printed
      ≡ returns (
          printed
          ++ (message_received (length (line_of stdin) + 1) (c_string (line_of stdin)) ∷ []))
unfolding recv_from_client safe_recv
recv_from_client-line recv stack stdin client_socket printed sized short whole =
    let len = length-sent_of stdin in
    let some_bytes : (length (sent_of stdin) == 0) ≡ false = ground (arith, len) in
    let all = take-all (sent_of stdin) max_buf short in
    let placed : memcpy stack 0 (sent_of stdin)
        ≡ line_of stdin ++ (0 ∷ drop (length (sent_of stdin)) stack) =
      memcpy_front stack (sent_of stdin) (omega (arith, short, sized))
      ∙ append_assoc (line_of stdin) (0 ∷ []) (drop (length (sent_of stdin)) stack) in
    let text : print_text (memcpy stack 0 (sent_of stdin)) ≡ some (c_string (line_of stdin)) =
      ap print_text placed ∙ print_text-c_string (line_of stdin) _ in
    rw (recv_from_client, safe_recv, whole, all, some_bytes, text, ap length all ∙ len) refl

module _ (inet_ntop : Family → List ℕ → List ℕ) (e : Endian) (stdin stack stack' : List ℕ)
    (sized : length stack ≡ max_buf) (sized' : length stack' ≡ max_buf) where
  module _ (bind : ℕ → SockAddr → Bool) (getsockname : ℕ → Option SockAddr) (listen : ℕ → Bool)
      (accept : ℕ → Option (ℕ × SockAddr)) (atoi : List ℕ → ℤ)
      (recv : ℕ → ℕ → Option (List ℕ)) where
    server_main :
        (program : List ℕ) (main_socket client_socket : ℕ) (bound peer : SockAddr)
        → bind main_socket (any_address e 0) ≡ true
        → getsockname main_socket ≡ some bound
        → listen main_socket ≡ true
        → accept main_socket ≡ some (client_socket, peer)
        → recv client_socket max_buf ≡ some (sent_of stdin)
        → Server.main inet_ntop bind getsockname listen accept atoi recv e
            (some main_socket)
            (program ∷ [])
            stack'
          ≡ returns (
              server_port_number (htons e bound.port)
              ∷ client_accepted (inet_ntop af_inet6 peer.address) (htons e peer.port)
              ∷ message_received (length (line_of stdin) + 1) (c_string (line_of stdin))
              ∷ [])
    unfolding Server.main check_args tcp_server_setup tcp_accept to_u16 get_ip_address_string6
        get_ip_address_string46
    server_main program main_socket client_socket bound peer binds named listens accepts whole =
        let (_, count, short, _) = read_from_stdin-line stack stdin sized in
        let printed =
          server_port_number (htons e bound.port)
          ∷ client_accepted (inet_ntop af_inet6 peer.address) (htons e peer.port)
          ∷ [] in
        rw (Server.main, tcp_server_setup, binds, named, listens, tcp_accept, accepts)
          (recv_from_client-line recv stack' stdin client_socket printed sized'
            (omega (arith, length-sent_of stdin, count, short)) whole)

  module _ (getaddrinfo : List ℕ → Hints → Option (List ℕ)) (connect : ℕ → SockAddr → Bool)
      (atoi : List ℕ → ℤ) (send : ℕ → List ℕ → Option ℕ) where
    setup_opened :
        (host port_text info : List ℕ) (socket_num port : ℕ)
        → port < u16_mod
        → atoi port_text ≡ pos (htons e port)
        → getaddrinfo host (record { ai_family = af_inet6; mapped = true }) ≡ some info
        → connect socket_num
            (record { family = some af_inet6; port = port; address = take 16 info })
          ≡ true
        → tcp_client_setup inet_ntop getaddrinfo connect atoi e
            (some socket_num)
            host
            port_text
            true
          ≡ opened socket_num
              (connected_to host (inet_ntop af_inet6 (take 16 info)) (pos (htons e port)) ∷ [])
    unfolding tcp_client_setup gethostbyname6 get_ip_address46 to_u16 get_ip_address_string6
        get_ip_address_string46
    setup_opened host port_text info socket_num port small is_port found connects =
        let low : htons e port % u16_mod ≡ htons e port = mod-eq_of_lt (htons-lt e port) in
        let back = htons-htons e port small in
        rw
          (
            tcp_client_setup, is_port, gethostbyname6, get_ip_address46, found, to_u16, low, back,
            connects,
          )
          (ap
            (λ n. opened socket_num (connected_to host (inet_ntop af_inet6 (take 16 info)) n ∷ []))
            is_port)

    client_main :
        (program host port_text info : List ℕ) (socket_num port n : ℕ)
        → port < u16_mod
        → atoi port_text ≡ pos (htons e port)
        → getaddrinfo host (record { ai_family = af_inet6; mapped = true }) ≡ some info
        → connect socket_num
            (record { family = some af_inet6; port = port; address = take 16 info })
          ≡ true
        → send socket_num (sent_of stdin) ≡ some n
        → Client.main inet_ntop getaddrinfo connect atoi send e
            (some socket_num)
            (program ∷ host ∷ port_text ∷ [])
            stack
            stdin
          ≡ returns (
              connected_to host (inet_ntop af_inet6 (take 16 info)) (pos (htons e port))
              ∷ enter_data
              ∷ read (c_string (line_of stdin)) (length (line_of stdin) + 1)
              ∷ amount_sent n
              ∷ [])
    unfolding Client.main
    client_main program host port_text info socket_num port n small is_port found connects sends =
        let printed =
          connected_to host (inet_ntop af_inet6 (take 16 info)) (pos (htons e port)) ∷ [] in
        ap (with_connection inet_ntop getaddrinfo connect atoi send e (some socket_num) stack stdin)
          (setup_opened host port_text info socket_num port small is_port found connects)
        ∙ send_to_server-line send stack stdin socket_num n printed sized sends

    -- Where the system calls of both sides succeed, the port that the client is given is the number
    -- that the server has printed, and the stream hands over in one piece what the client has sent:
    -- of the sample programs, the client connects to the port of the server's socket and sends the
    -- line that is typed, cut off at 1023 bytes, with a NUL behind it, both programs return, and
    -- the server prints the address of the client and just the text of that line up to its first
    -- NUL, with the length that the client has printed.
    pub line-printed :
        (bind : ℕ → SockAddr → Bool) (getsockname : ℕ → Option SockAddr) (listen : ℕ → Bool)
        (accept : ℕ → Option (ℕ × SockAddr)) (recv : ℕ → ℕ → Option (List ℕ))
        (program program' host port_text info : List ℕ) (main_socket client_socket socket_num n : ℕ)
        (bound peer : SockAddr)
        → bind main_socket (any_address e 0) ≡ true
        → getsockname main_socket ≡ some bound
        → bound.port < u16_mod
        → listen main_socket ≡ true
        → accept main_socket ≡ some (client_socket, peer)
        → atoi port_text ≡ pos (htons e bound.port)
        → getaddrinfo host (record { ai_family = af_inet6; mapped = true }) ≡ some info
        → connect socket_num
            (record { family = some af_inet6; port = bound.port; address = take 16 info })
          ≡ true
        → send socket_num (sent_of stdin) ≡ some n
        → recv client_socket max_buf ≡ some (sent_of stdin)
        → let text = c_string (line_of stdin) in
          let len = length (line_of stdin) + 1 in
          (Client.main inet_ntop getaddrinfo connect atoi send e
              (some socket_num)
              (program ∷ host ∷ port_text ∷ [])
              stack
              stdin
            ≡ returns (
                connected_to host (inet_ntop af_inet6 (take 16 info)) (pos (htons e bound.port))
                ∷ enter_data
                ∷ read text len
                ∷ amount_sent n
                ∷ []))
          × (Server.main inet_ntop bind getsockname listen accept atoi recv e
                (some main_socket)
                (program' ∷ [])
                stack'
              ≡ returns (
                  server_port_number (htons e bound.port)
                  ∷ client_accepted (inet_ntop af_inet6 peer.address) (htons e peer.port)
                  ∷ message_received len text
                  ∷ []))
    line-printed bind getsockname listen accept recv program program' host port_text info
          main_socket client_socket socket_num n bound peer binds named small listens accepts
          is_port found connects sends whole =
        (
          client_main program host port_text info socket_num bound.port n small is_port found
              connects sends,
          server_main bind getsockname listen accept atoi recv program' main_socket client_socket
              bound peer binds named listens accepts whole,
        )
