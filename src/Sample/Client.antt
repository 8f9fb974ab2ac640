-- ===== src/Sample/Client.antt =====
-- Workspace/myClient.c.
use remote_file_copy_udp_pro.Address.{Family, SockAddr, Hints}
use remote_file_copy_udp_pro.Base.{
  ℕ, zero, suc, ◌+◌, ◌-◌, ℤ, Bool, true, Option, none, some, List, [], ◌∷◌, ◌++◌, length, get_or,
  set, take, Endian, ◌==◌, if◌then◌else◌,
}
use remote_file_copy_udp_pro.Output.{Line, enter_data, read, amount_sent, usage}
use remote_file_copy_udp_pro.Sample.State.{Ended, returns, exits, faults, max_buf, print_text}
use remote_file_copy_udp_pro.Tcp.{tcp_client_setup, safe_send}
use remote_file_copy_udp_pro.Tcp

-- `getchar`, in a `char`, and the rest of the standard input: at its end EOF is -1, which is stored as
-- the byte 255.
abbrev pub get_char : List ℕ → ℕ × List ℕ
get_char [] = (255, [])
get_char (c ∷ stdin) = (c, stdin)

-- The loop of `readFromStdin`: the array, `inputLen`, and what is left of the input; `room` is
-- `MAXBUF - 1 - inputLen`.
unfoldable pub read_loop : ℕ → List ℕ → ℕ → List ℕ → List ℕ × ℕ × List ℕ
read_loop zero buffer input_len stdin = (buffer, input_len, stdin)
read_loop (suc room) buffer input_len stdin =
    let (a_char, left) = get_char stdin in
    let more = read_loop room (set buffer input_len a_char) (suc input_len) left in
    if a_char == 10 then (buffer, input_len, left) else more

-- `readFromStdin`: the array and the length that is returned.
unfoldable pub read_from_stdin : List ℕ → List ℕ → List ℕ × ℕ
unfolding read_loop
read_from_stdin buffer stdin =
    let (typed, input_len, left) = read_loop (max_buf - 1) (set buffer 0 0) 0 stdin in
    (set typed input_len 0, input_len + 1)

-- `sendToServer`, on the array `stack` that it finds on the stack, behind what has been printed. The
-- length that `safeSend` returns is never negative.
unfoldable pub send_to_server :
    (send : ℕ → List ℕ → Option ℕ) → List ℕ → List ℕ → ℕ → List Line → Ended
unfolding read_from_stdin print_text
send_to_server send stack stdin socket_num printed =
    let (send_buf, send_len) = read_from_stdin stack stdin in
    elim (print_text send_buf) [
      | none ↦ faults
      | some text ↦
          let lines = printed ++ (enter_data ∷ read text send_len ∷ []) in
          elim (safe_send send socket_num (take send_len send_buf)) [
            | none ↦ exits lines
            | some sent ↦ returns (lines ++ (amount_sent sent ∷ []))
          ]
    ]

-- `checkArgs`: whether the program goes on.
abbrev pub check_args : List (List ℕ) → Bool
check_args args = length args == 3

module _ (inet_ntop : Family → List ℕ → List ℕ) (getaddrinfo : List ℕ → Hints → Option (List ℕ))
    (connect : ℕ → SockAddr → Bool) (atoi : List ℕ → ℤ) (send : ℕ → List ℕ → Option ℕ) (e : Endian)
    (socket : Option ℕ) where
  -- What stands behind `tcpClientSetup`.
  abbrev pub with_connection : List ℕ → List ℕ → Tcp.Setup → Ended
  with_connection stack stdin Tcp.exits = exits []
  with_connection stack stdin (Tcp.opened socket_num printed) =
      send_to_server send stack stdin socket_num printed

  -- `main`.
  unfoldable pub main : List (List ℕ) → List ℕ → List ℕ → Ended
  unfolding send_to_server
  main args stack stdin =
      if check_args args
      then with_connection stack stdin (
          tcp_client_setup inet_ntop getaddrinfo connect atoi e socket (get_or args 1 [])
            (get_or args 2 []) true)
      else exits (usage ∷ [])
