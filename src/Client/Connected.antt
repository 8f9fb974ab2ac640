-- ===== src/Client/Connected.antt =====
-- Workspace/rcopy.c: `main`, from its arguments to the transfer.
use remote_file_copy_udp_pro.Base.{
  ℤ, ℕ, zero, suc, ◌+◌, ◌≤◌, ◌<◌, ◌≡◌, Bool, true, false, some, List, length, arith, ◌==◌,
  if◌then◌else◌, Option-cases, inl, inr, subst, u32_mod,
}
use remote_file_copy_udp_pro.Address.{SockAddr}
use remote_file_copy_udp_pro.Client.Defs.{
  ClientState, start, done, wait_on_file_ok, wait_on_data, process_transfer, send_eof_ack, Argv,
  Process, open_descriptor, IsLowest, argv_of, window_of, check_args, check_args-window,
}
use remote_file_copy_udp_pro.Client.Handshake.{
  Handshake, goes, waits, exits, faults, World, start_state, wait_on_file_ok_state, max_retries,
}
use remote_file_copy_udp_pro.Client.Main.{
  Run, ended, transfers, waiting, exited, faulted, out_of_fuel, receive_file, opens_file,
  state_loop, first_process, process_file, main,
}
use remote_file_copy_udp_pro.Client.Sockets.{
  Steady, IsAccepted, Kept, attempts-Kept, open_socket-cases, open-held,
}
use remote_file_copy_udp_pro.Net.{Event}
use remote_file_copy_udp_pro.Poll.Socket.{IsPoll}
use remote_file_copy_udp_pro.Receiver.{TransferOutcome, in_order, new_info, wait_on_data_state}
use remote_file_copy_udp_pro.Receiver.Prefix.{FromFile, IsPrefix, wait_on_data-IsPrefix}

module _ (w : World) (stale_addr : ℕ) (argv : Argv) where
  -- A client that has come to a transfer has an open socket, on which the last request and the
  -- acknowledgement of its answer have been sent. None runs out of fuel, nor faults before a transfer.
  pub IsConnected : Run → Type 0
  IsConnected (ended p) = Unit
  IsConnected (transfers s p es t) =
      IsAccepted w argv s p × (receive_file w argv stale_addr s p es ≡ some t)
  IsConnected (waiting p) = Unit
  IsConnected (exited p) = Unit
  IsConnected (faulted p) = ⊥
  IsConnected out_of_fuel = ⊥

module _ (w : World) (is_rate : List ℕ → Bool) (kernel : IsPoll w.poll) (lowest : IsLowest w.socket)
    (stale_addr : ℕ) where
  module _ (argv : Argv) (port_number : ℤ) (s : ℕ) (positive : 0 < s) where
    abbrev loop : ℕ → ClientState → Process → List Event → Run
    loop fuel = state_loop w is_rate fuel argv port_number s stale_addr

    done-IsConnected :
        (fuel : ℕ) (p : Process) (es : List Event)
        → 0 < fuel
        → IsConnected w stale_addr argv (loop fuel done p es)
    unfolding state_loop IsConnected
    done-IsConnected zero p es enough = absurd (omega (arith, enough))
    done-IsConnected (suc fuel) p es enough = tt

    transfer-IsConnected :
        (fuel : ℕ) (p : Process) (es : List Event)
        → 0 < fuel
        → IsAccepted w argv s p
        → IsConnected w stale_addr argv (loop fuel wait_on_data p es)
    unfolding state_loop IsConnected
    transfer-IsConnected zero p es enough v = absurd (omega (arith, enough))
    transfer-IsConnected (suc fuel) p es enough v =
        elim (Option-cases (receive_file w argv stale_addr s p es)) [
          | inl failed ↦ rw (IsConnected, state_loop, failed) tt
          | inr (t, received) ↦ rw (IsConnected, state_loop, received) (v, received)
        ]

    loop-IsConnected :
        (fuel : ℕ) (p : Process) (es : List Event)
        → length es + 2 ≤ fuel
        → Steady s p
        → IsConnected w stale_addr argv (loop fuel wait_on_file_ok p es)
    unfolding state_loop IsConnected wait_on_file_ok_state
    loop-IsConnected zero p es enough v = absurd (omega (arith, enough))
    loop-IsConnected (suc fuel) p es enough v =
        go (λ p' es' v' less. loop-IsConnected fuel p' es' (omega (arith, less, enough)) v')
          (wait_on_file_ok_state w argv port_number s p es)
          (attempts-Kept w argv port_number kernel lowest (length es) s positive max_retries p es
            (omega arith) v)
      where
        go :
            ((p' : Process) (es' : List Event)
              → Steady s p'
              → length es' < length es
              → IsConnected w stale_addr argv (loop fuel wait_on_file_ok p' es'))
            → (h : Handshake) → Kept w argv port_number (length es) s h
            → IsConnected w stale_addr argv (elim h [
              | goes state p' es' ↦ loop fuel state p' es'
              | waits p' ↦ waiting p'
              | exits p' ↦ exited p'
              | faults p' ↦ faulted p'
            ])
        go next (goes start p' es') kept = elim kept [ ]
        go next (goes done p' es') kept = done-IsConnected fuel p' es' (omega (arith, enough))
        go next (goes wait_on_file_ok p' es') kept = next p' es' kept.0 kept.1
        go next (goes wait_on_data p' es') kept =
            transfer-IsConnected fuel p' es' (omega (arith, enough)) kept
        go next (goes process_transfer p' es') kept = elim kept [ ]
        go next (goes send_eof_ack p' es') kept = elim kept [ ]
        go next (waits p') kept = tt
        go next (exits p') kept = tt
        go next (faults p') kept = elim kept [ ]

    start-IsConnected :
        (fuel : ℕ) (p : Process) (es : List Event)
        → length es + 3 ≤ fuel
        → Steady s p
        → IsConnected w stale_addr argv (loop fuel start p es)
    unfolding state_loop IsConnected start_state
    start-IsConnected zero p es enough v = absurd (omega (arith, enough))
    start-IsConnected (suc fuel) p es enough v = elim (open_socket-cases w argv port_number p) [
      | inl failed ↦ rw (IsConnected, state_loop, start_state, failed) tt
      | inr (t, server, got, eq) ↦
          let q : Process = open_descriptor t (record p { server = server }) in
          rw (state_loop, start_state, eq)
            (loop-IsConnected fuel q es (omega (arith, enough))
              (record { held = open-held s t p v.held; low = v.low }))
    ]

  -- The socket of `processFile` is not 0, as that of `main` is open below it.
  above_main :
      (d : ℕ → Bool) (a s : ℕ)
      → w.socket d ≡ some a
      → w.socket (λ n. if n == a then true else d n) ≡ some s
      → 0 < s
  above_main d a zero first second =
      let unused = lowest.unused (λ n. if n == a then true else d n) 0 second in
      let below = lowest.lowest d a 0 first in absurd (grind (arith, unused, below))
  above_main d a (suc s) first second = omega arith

  process_file-IsConnected :
      (argv : Argv) (port_number : ℤ) (fuel a : ℕ) (server : SockAddr) (d : ℕ → Bool)
      (es : List Event)
      → length es + 3 ≤ fuel
      → w.socket d ≡ some a
      → IsConnected w stale_addr argv (
          process_file w is_rate fuel argv port_number stale_addr
            (open_descriptor a (record (first_process d) { server = server }))
            es)
  unfolding process_file
  process_file-IsConnected argv port_number fuel a server d es enough first =
      let p : Process = open_descriptor a (record (first_process d) { server = server }) in
      elim (open_socket-cases w argv port_number p) [
        | inl failed ↦ rw (process_file, failed) (unfold IsConnected in tt)
        | inr (s, server', got, eq) ↦
            rw (process_file, eq)
              (start-IsConnected argv port_number s (above_main d a s first got) fuel
                (open_descriptor s (record p { server = server' })) es enough
                (record {
                  held =
                      open-held s s (record p { server = server' })
                        (λ j lt. lowest.lowest p.descriptors s j got lt);
                  low = omega arith;
                }))
      ]

  -- On arguments that `checkArgs` lets through, with fuel for three states more than there are
  -- events, and where `poll` and `socket` do what their documents say (an event shows in just the
  -- entries that ask for it; a new descriptor is the lowest unused one): `main` neither runs out of
  -- fuel nor faults before a transfer, and when it comes to one, the transfer is that of
  -- `wait_on_data_state` on a socket that is open, on which the last request and the
  -- acknowledgement of its answer have been sent.
  pub main-IsConnected :
      (fuel : ℕ) (args : List (List ℕ)) (d : ℕ → Bool) (es : List Event) (port_number : ℤ)
      → length es + 3 ≤ fuel
      → check_args w.atoi is_rate args ≡ some port_number
      → IsConnected w stale_addr (argv_of args) (main w is_rate fuel args stale_addr d es)
  unfolding main
  main-IsConnected fuel args d es port_number enough checked =
      elim (open_socket-cases w (argv_of args) port_number (first_process d)) [
        | inl failed ↦ rw (main, checked, failed) (unfold IsConnected in tt)
        | inr (a, server, got, eq) ↦
            rw (main, checked, eq)
              (process_file-IsConnected (argv_of args) port_number fuel a server d es enough got)
      ]

  -- On arguments that `checkArgs` lets through, with fuel for three states more than there are
  -- events, and where `poll` and `socket` do what their documents say (an event shows in just the
  -- entries that ask for it; a new descriptor is the lowest unused one): if the client comes to a
  -- transfer, and every data packet from then on carries the chunk of its number, of the file and
  -- of the receiver's window at that moment, and the file has fewer than 2^32 - 1 chunks, then the
  -- transfer never faults, and the output file is always made of the first chunks of the file in
  -- order.
  pub main-IsPrefix :
      (fuel : ℕ) (args : List (List ℕ)) (d : ℕ → Bool) (es es' : List Event) (port_number : ℤ)
      (s : ℕ) (p : Process) (t : TransferOutcome) (chunk : ℕ → List ℕ) (n : ℕ)
      → length es + 3 ≤ fuel
      → check_args w.atoi is_rate args ≡ some port_number
      → main w is_rate fuel args stale_addr d es ≡ transfers s p es' t
      → n + 1 < u32_mod
      → FromFile w.endian w.in_cksum chunk n in_order
          (new_info (window_of (w.atoi (argv_of args).window_size)) s stale_addr)
          es'
      → IsPrefix w.endian w.in_cksum chunk n t
  unfolding IsConnected wait_on_data_state
  main-IsPrefix fuel args d es es' port_number s p t chunk n enough checked run short genuine =
      let connected : IsConnected w stale_addr (argv_of args) (transfers s p es' t) =
        rw run at (main-IsConnected fuel args d es port_number enough checked) in
      let (_, received) = connected in
      let positive = (check_args-window w.atoi is_rate args port_number checked).0 in
      let window = window_of (w.atoi (argv_of args).window_size) in
      let (t', eq, prefix) =
        wait_on_data-IsPrefix w.endian w.in_cksum chunk n short window s stale_addr es' positive
          genuine in
      go (opens_file w p) received eq prefix
    where
      go :
          (b : Bool) {t' : TransferOutcome}
          → wait_on_data_state w.endian w.in_cksum b
              (window_of (w.atoi (argv_of args).window_size))
              s
              stale_addr
              es'
            ≡ some t
          → wait_on_data_state w.endian w.in_cksum true
              (window_of (w.atoi (argv_of args).window_size))
              s
              stale_addr
              es'
            ≡ some t'
          → IsPrefix w.endian w.in_cksum chunk n t'
          → IsPrefix w.endian w.in_cksum chunk n t
      go true {t'} received eq prefix =
          let same : t' ≡ t = cc (received, eq) in
          subst (IsPrefix w.endian w.in_cksum chunk n) same prefix
      go false received eq prefix = absurd (cc received)
