-- ===== src/Server/Setup.antt =====
-- Workspace/server.c: `filename_state` and `write_file_ok_ack_state`.
use remote_file_copy_udp_pro.Base.{
  ℕ, ◌+◌, ◌-◌, Option, none, some, List, [], ◌∷◌, take, drop, Endian, load16, htons, ltb, leb, ◌==◌,
  if◌then◌else◌,
}
use remote_file_copy_udp_pro.Pdu.{
  Received, byte, flag_of, create_pdu, datagram, stack_array, max_buf,
}
use remote_file_copy_udp_pro.Net.{Event, timeout, ready, failure, recv_from}
use remote_file_copy_udp_pro.Server.State.{
  done, send_data, write_file_ok_ack, Child, Outcome, returns, waits, exits, faults, send,
}

-- A C string: the bytes before the first NUL.
unfoldable pub c_string : List ℕ → List ℕ
c_string [] = []
c_string (b ∷ bs) = if b == 0 then [] else b ∷ c_string bs

-- `char filename[100]`.
abbrev pub filename_size : ℕ
filename_size = 100

-- The 11 bytes before the file name in a request: header, window size, buffer size.
abbrev pub request_len : ℕ
request_len = 11

module _ (e : Endian) (in_cksum : List ℕ → ℕ) (fopen : List ℕ → Option (List ℕ)) where
  -- The end of `filename_state`, once `fopen` has answered.
  abbrev pub answer : Child → List ℕ → ℕ → ℕ → Option (List ℕ) → List Event → Outcome
  answer c filename window_size buffer_size none es =
      let error_pdu = create_pdu e in_cksum (stack_array max_buf) 0 33 filename in
      returns done (send c (datagram error_pdu)) es
  answer c filename window_size buffer_size (some file) es =
      let ok_pdu = create_pdu e in_cksum (stack_array max_buf) 0 9 filename in
      let c' = send c (datagram ok_pdu) in
      returns write_file_ok_ack
        (record c' {
          info = record c'.info {
            file = some file;
            window_size = window_size;
            buffer_size = buffer_size;
          };
        })
        es

  -- `filename_state`, on the request in the array `request`. `fopen` gives the contents of a file
  -- that can be read, and `socket` is the socket that `udpServerSetup` returns.
  unfoldable pub filename_state : ℕ → Received → Child → List Event → Outcome
  unfolding c_string
  filename_state socket request c es =
      let window_size = load16 e (byte request 7) (byte request 8) in
      let buffer_size = load16 e (byte request 9) (byte request 10) in
      let c' : Child = record c {
        info = record c.info {
          child_socket = socket;
          window_size = htons e window_size;
          buffer_size = htons e buffer_size;
        };
      } in
      if ltb request.bytes_recv request_len
      then faults c'
      else let filename_len = request.bytes_recv - request_len in
        if leb filename_size filename_len
        then faults c'
        else let filename = c_string (take filename_len (drop request_len request.buffer)) in
          answer c' filename window_size buffer_size (fopen filename) es

-- The loop of `write_file_ok_ack_state`, with its counter.
unfoldable pub ok_ack_loop : ℕ → Child → List Event → Outcome
ok_ack_loop count c [] = waits c
ok_ack_loop count c (failure ∷ es) = exits c
ok_ack_loop count c (timeout ∷ es) =
    let rest = ok_ack_loop (count + 1) c es in
    if ltb (count + 1) 10 then rest else returns done c es
ok_ack_loop count c (ready a ∷ es) =
    let d = recv_from max_buf a in
    let c' : Child = record c { info = record c.info { client_addr = d.source } } in
    let rest = ok_ack_loop count c' es in if flag_of d == 34 then returns send_data c' es else rest

unfoldable pub write_file_ok_ack_state : Child → List Event → Outcome
unfolding ok_ack_loop
write_file_ok_ack_state c es = ok_ack_loop 0 c es
