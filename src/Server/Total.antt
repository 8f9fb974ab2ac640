-- ===== src/Server/Total.antt =====
-- Workspace/server.c: the loop of `processClient` and its fuel.
use remote_file_copy_udp_pro.Base.{
  ℕ, zero, suc, ◌+◌, ◌*◌, ◌<◌, ◌≢◌, Option, List, length, arith, Endian,
}
use remote_file_copy_udp_pro.Net.{Event}
use remote_file_copy_udp_pro.Pdu.{Received}
use remote_file_copy_udp_pro.Server.Fuel.{rank, Drops, switch-Drops}
use remote_file_copy_udp_pro.Server.Process.{switch, process_client, clean_up}
use remote_file_copy_udp_pro.Server.State.{
  State, start, filename, write_file_ok_ack, send_data, wait_on_ack, wait_on_eof_ack, resend_eof,
  done, Child, Outcome, returns, waits, exits, faults, out_of_fuel,
}

clean_up-total : (c : Child) (es : List Event) → clean_up c es ≢ out_of_fuel
unfolding clean_up
clean_up-total c es = ground arith

module _ (e : Endian) (in_cksum : List ℕ → ℕ) (fopen : List ℕ → Option (List ℕ)) (socket : ℕ)
    (request : Received) where
  -- A run of the loop goes on from what the `switch` has come to.
  goes_on-total :
      (fuel m : ℕ) (o : Outcome)
      → Drops m o
      → m < suc fuel
      → ((state : State) (c : Child) (es : List Event)
          → rank state + 2 * length es < fuel
          → process_client e in_cksum fopen socket request fuel state c es ≢ out_of_fuel)
      → elim o [
        | returns state c es ↦ process_client e in_cksum fopen socket request fuel state c es
        | waits c ↦ waits c
        | exits c ↦ exits c
        | faults c ↦ faults c
        | out_of_fuel ↦ out_of_fuel
      ]
        ≢ out_of_fuel
  goes_on-total fuel m (returns state c es) d lt ih = ih state c es (omega (arith, d))
  goes_on-total fuel m (waits c) d lt ih = ground arith
  goes_on-total fuel m (exits c) d lt ih = ground arith
  goes_on-total fuel m (faults c) d lt ih = ground arith
  goes_on-total fuel m out_of_fuel d lt ih = absurd d

  -- With more rounds than the rank of the state and twice the number of events, the loop of
  -- `processClient` does not run out of fuel, from any state and on any events.
  pub process_client-total :
      (fuel : ℕ) (state : State) (c : Child) (es : List Event)
      → rank state + 2 * length es < fuel
      → process_client e in_cksum fopen socket request fuel state c es ≢ out_of_fuel
  unfolding process_client
  process_client-total zero state c es lt = absurd (omega (arith, lt))
  process_client-total (suc fuel) done c es lt = clean_up-total c es
  process_client-total (suc fuel) start c es lt =
      goes_on-total fuel (6 + 2 * length es) (switch e in_cksum fopen socket request start c es)
        (switch-Drops e in_cksum fopen socket request start c es (ground arith)) lt
        (process_client-total fuel)
  process_client-total (suc fuel) filename c es lt =
      goes_on-total fuel (5 + 2 * length es) (switch e in_cksum fopen socket request filename c es)
        (switch-Drops e in_cksum fopen socket request filename c es (ground arith)) lt
        (process_client-total fuel)
  process_client-total (suc fuel) write_file_ok_ack c es lt =
      goes_on-total fuel (4 + 2 * length es)
        (switch e in_cksum fopen socket request write_file_ok_ack c es)
        (switch-Drops e in_cksum fopen socket request write_file_ok_ack c es (ground arith)) lt
        (process_client-total fuel)
  process_client-total (suc fuel) send_data c es lt =
      goes_on-total fuel (3 + 2 * length es) (switch e in_cksum fopen socket request send_data c es)
        (switch-Drops e in_cksum fopen socket request send_data c es (ground arith)) lt
        (process_client-total fuel)
  process_client-total (suc fuel) wait_on_ack c es lt =
      goes_on-total fuel (2 + 2 * length es)
        (switch e in_cksum fopen socket request wait_on_ack c es)
        (switch-Drops e in_cksum fopen socket request wait_on_ack c es (ground arith)) lt
        (process_client-total fuel)
  process_client-total (suc fuel) wait_on_eof_ack c es lt =
      goes_on-total fuel (1 + 2 * length es)
        (switch e in_cksum fopen socket request wait_on_eof_ack c es)
        (switch-Drops e in_cksum fopen socket request wait_on_eof_ack c es (ground arith)) lt
        (process_client-total fuel)
  process_client-total (suc fuel) resend_eof c es lt =
      goes_on-total fuel (2 + 2 * length es)
        (switch e in_cksum fopen socket request resend_eof c es)
        (switch-Drops e in_cksum fopen socket request resend_eof c es (ground arith)) lt
        (process_client-total fuel)
