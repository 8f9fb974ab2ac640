-- ===== src/Server/Process.antt =====
-- Workspace/server.c: `processClient`.
use remote_file_copy_udp_pro.Base.{
  ℕ, zero, suc, true, false, Option, none, some, List, [], replicate, Endian, ◌==◌, if◌then◌else◌,
  ◌+◌,
}
use remote_file_copy_udp_pro.Pdu.{Received, max_buf}
use remote_file_copy_udp_pro.CircularQueue.{CircularQueue, init, free}
use remote_file_copy_udp_pro.Net.{Event}
use remote_file_copy_udp_pro.Server.Eof.{wait_on_eof_ack_state, resend_eof_state}
use remote_file_copy_udp_pro.Server.Send.{wait_on_ack_state}
use remote_file_copy_udp_pro.Server.Setup.{filename_state, write_file_ok_ack_state}
use remote_file_copy_udp_pro.Server.State.{
  State, start, filename, write_file_ok_ack, send_data, wait_on_ack, wait_on_eof_ack, resend_eof,
  done, Child, Outcome, returns, waits, exits, faults, out_of_fuel,
}
use remote_file_copy_udp_pro.Server.Transfer.{send_data_state}

-- The variables at the start: `ServerInfo info = {0}`, and `window` with what the stack holds.
abbrev pub new_child : ℕ → CircularQueue → Child
new_child client_addr window = record {
  info = record {
    child_socket = 0;
    file = none;
    client_addr = client_addr;
    window_size = 0;
    buffer_size = 0;
    eof_len = 0;
    eof_packet = replicate (max_buf + 7) 0;
    eof_seq = 0;
    eof_resend_count = 0;
  };
  window = window;
  window_set = false;
  sent = [];
}

-- What stands behind the loop of `processClient`: it frees the window, set or not, if the window size
-- is not 0, and closes the file, open or not.
unfoldable pub clean_up : Child → List Event → Outcome
clean_up c es =
    let c' : Child = if c.window_size == 0 then c else record c { window = free c.window } in
    if c.window_size == 0
    then elim c'.file [ none ↦ faults c' | some _ ↦ returns done c' es ]
    else if c.window_set
    then elim c'.file [ none ↦ faults c' | some _ ↦ returns done c' es ]
    else faults c

module _ (e : Endian) (in_cksum : List ℕ → ℕ) (fopen : List ℕ → Option (List ℕ)) (socket : ℕ)
    (request : Received) where
  -- The `switch` of `processClient`.
  unfoldable pub switch : State → Child → List Event → Outcome
  switch start c es = returns filename c es
  switch filename c es = filename_state e in_cksum fopen socket request c es
  switch write_file_ok_ack c es = write_file_ok_ack_state c es
  switch send_data c es =
      let c' : Child = record c {
        window = (init true c.window c.window_size).1;
        window_set = true;
      } in
      send_data_state e in_cksum c' es
  switch wait_on_ack c es = wait_on_ack_state e in_cksum c es
  switch wait_on_eof_ack c es = wait_on_eof_ack_state e in_cksum c es
  switch resend_eof c es = resend_eof_state c es
  switch done c es = returns done c es

  -- The loop of `processClient`, and what stands behind it. `out_of_fuel` stands for a run of more
  -- than `fuel` rounds.
  unfoldable pub process_client : ℕ → State → Child → List Event → Outcome
  unfolding switch clean_up
  process_client zero state c es = out_of_fuel
  process_client (suc fuel) done c es = clean_up c es
  process_client (suc fuel) state c es = elim (switch state c es) [
    | returns state' c' es' ↦ process_client fuel state' c' es'
    | waits c' ↦ waits c'
    | exits c' ↦ exits c'
    | faults c' ↦ faults c'
    | out_of_fuel ↦ out_of_fuel
  ]
