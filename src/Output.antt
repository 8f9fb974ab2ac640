-- ===== src/Output.antt =====
-- What the functions of Workspace/networks.c and Workspace/gethostbyname.c and the programs
-- Workspace/myClient.c and Workspace/myServer.c print: one constructor for each `printf`.
use remote_file_copy_udp_pro.Base.{ℕ, ℤ, List}

-- A text is the list of its bytes.
pub data Line : Type 0 where
  server_port_number : ℕ → Line
  client_accepted : List ℕ → ℕ → Line
  connected_to : List ℕ → List ℕ → ℤ → Line
  ip_info : List ℕ → ℕ → Line
  ipv6_host : List ℕ → List ℕ → Line
  ipv4_host : List ℕ → List ℕ → Line
  empty_line : Line
  enter_data : Line
  read : List ℕ → ℕ → Line
  amount_sent : ℕ → Line
  message_received : ℕ → List ℕ → Line
  connection_closed : Line
  usage : Line
