-- ===== src/Client/Main.antt =====
-- Workspace/rcopy.c: `processFile` and `main`.
use remote_file_copy_udp_pro.Base.{ℤ, ℕ, zero, suc, Bool, true, false, Option, none, some, List, []}
use remote_file_copy_udp_pro.Address.{zero_address}
use remote_file_copy_udp_pro.Client.Defs.{
  ClientState, start, done, wait_on_file_ok, wait_on_data, process_transfer, send_eof_ack, Argv,
  argv_of, window_of, check_args, Process,
}
use remote_file_copy_udp_pro.Client.Handshake.{
  goes, waits, exits, faults, World, start_state, open_socket, wait_on_file_ok_state,
}
use remote_file_copy_udp_pro.Net.{Event}
use remote_file_copy_udp_pro.Poll.{no_poll_set}
use remote_file_copy_udp_pro.Receiver.{TransferOutcome, wait_on_data_state}

-- What the client comes to. A transfer is given with its socket and its events; behind its end the
-- state is DONE, so the client ends with it.
pub data Run : Type 0 where
  ended : Process → Run
  transfers : ℕ → Process → List Event → TransferOutcome → Run
  waiting : Process → Run
  exited : Process → Run
  faulted : Process → Run
  out_of_fuel : Run

-- The process as it starts.
abbrev pub first_process : (ℕ → Bool) → Process
first_process descriptors = record {
  descriptors = descriptors;
  poll_set = no_poll_set;
  server = zero_address;
  posted = [];
}

module _ (w : World) where
  -- The `fopen` of `wait_on_data_state`.
  abbrev pub opens_file : Process → Bool
  opens_file p = elim (w.fopen p.descriptors) [ none ↦ false | some _ ↦ true ]

  -- `wait_on_data_state`, on the socket of `processFile`. `stale_addr` is the address in `recvAddr`,
  -- which nothing has written.
  abbrev pub receive_file : Argv → ℕ → ℕ → Process → List Event → Option TransferOutcome
  receive_file argv stale_addr s p es =
      wait_on_data_state w.endian w.in_cksum (opens_file p) (window_of (w.atoi argv.window_size)) s
        stale_addr es

module _ (w : World) (is_rate : List ℕ → Bool) where
  -- The state loop of `processFile`. Its last two states use a `ReceiveInfo` that has no buffer and
  -- no file.
  unfoldable pub state_loop : ℕ → Argv → ℤ → ℕ → ℕ → ClientState → Process → List Event → Run
  unfolding start_state wait_on_file_ok_state
  state_loop zero argv port_number s stale_addr state p es = out_of_fuel
  state_loop (suc fuel) argv port_number s stale_addr done p es = ended p
  state_loop (suc fuel) argv port_number s stale_addr start p es =
      elim (start_state w argv port_number p) [
        | none ↦ exited p
        | some (state, p') ↦ state_loop fuel argv port_number s stale_addr state p' es
      ]
  state_loop (suc fuel) argv port_number s stale_addr wait_on_file_ok p es =
      elim (wait_on_file_ok_state w argv port_number s p es) [
        | goes state p' es' ↦ state_loop fuel argv port_number s stale_addr state p' es'
        | waits p' ↦ waiting p'
        | exits p' ↦ exited p'
        | faults p' ↦ faulted p'
      ]
  state_loop (suc fuel) argv port_number s stale_addr wait_on_data p es =
      elim (receive_file w argv stale_addr s p es) [ none ↦ ended p | some t ↦ transfers s p es t ]
  state_loop (suc fuel) argv port_number s stale_addr process_transfer p es = faulted p
  state_loop (suc fuel) argv port_number s stale_addr send_eof_ack p es = faulted p

  -- `processFile`: it opens a socket of its own.
  unfoldable pub process_file : ℕ → Argv → ℤ → ℕ → Process → List Event → Run
  unfolding open_socket state_loop
  process_file fuel argv port_number stale_addr p es = elim (open_socket w argv port_number p) [
    | none ↦ exited p
    | some (s, p') ↦ state_loop fuel argv port_number s stale_addr start p' es
  ]

  -- `main`. Both calls of `checkArgs` are on the same arguments.
  unfoldable pub main : ℕ → List (List ℕ) → ℕ → (ℕ → Bool) → List Event → Run
  unfolding check_args open_socket process_file
  main fuel args stale_addr descriptors es = elim (check_args w.atoi is_rate args) [
    | none ↦ exited (first_process descriptors)
    | some port_number ↦
        elim (open_socket w (argv_of args) port_number (first_process descriptors)) [
          | none ↦ exited (first_process descriptors)
          | some (_, p) ↦ process_file fuel (argv_of args) port_number stale_addr p es
        ]
  ]
