-- ===== src/Server/Serves.antt =====
-- Workspace/server.c: a run of `processClient` from `send_data_state` to its end.
use remote_file_copy_udp_pro.Base.{
  ℕ, zero, suc, ◌+◌, ◌*◌, ◌≤◌, ◌<◌, ◌≡◌, refl, sym, subst, Option, some, List, [], ◌∷◌, length,
  take, arith, Endian, u32_mod, leb, Bool-cases, inl, inr,
}
use remote_file_copy_udp_pro.Net.{Event, timeout, ready, failure, recv_from}
use remote_file_copy_udp_pro.Pdu.{Received, max_buf}
use remote_file_copy_udp_pro.Server.Closes.{clean_up-open}
use remote_file_copy_udp_pro.Server.Eof.{wait_on_eof_ack_state, resend_eof_state, is_eof_ack}
use remote_file_copy_udp_pro.Server.Fuel.{rank, Drops, switch-Drops}
use remote_file_copy_udp_pro.Server.Log.{AllSent, AllSent-append, OfFile}
use remote_file_copy_udp_pro.Server.Process.{switch, process_client, clean_up}
use remote_file_copy_udp_pro.Server.Replies.{start_sending, OnNext, Answerable}
use remote_file_copy_udp_pro.Server.Run.{Sends, IsServed, send_data-Sends}
use remote_file_copy_udp_pro.Server.State.{
  State, start, filename, write_file_ok_ack, send_data, wait_on_ack, wait_on_eof_ack, resend_eof,
  done, Child, Outcome, returns, waits, exits, faults, out_of_fuel, send,
}
use remote_file_copy_udp_pro.Server.Transfer.{fill}

module _ (e : Endian) (in_cksum : List ℕ → ℕ) (size : ℕ) (file : List ℕ) where
  -- What is claimed of a whole run: it returns behind the clean-up, or still waits, or leaves by
  -- `exit`, and all that it has sent is of the file.
  pub Serves : Outcome → Type 0
  Serves (returns state c es) = (state ≡ done) × AllSent (OfFile e in_cksum size file) c.sent
  Serves (waits c) = AllSent (OfFile e in_cksum size file) c.sent
  Serves (exits c) = AllSent (OfFile e in_cksum size file) c.sent
  Serves (faults c) = ⊥
  Serves out_of_fuel = ⊥

  clean_up-Serves :
      (c : Child) (es : List Event) → IsServed e in_cksum size file done c → Serves (clean_up c es)
  unfolding Serves
  clean_up-Serves c es v =
      let (c', eq, same) = clean_up-open c es v.is_open v.set in
      rw eq (refl, subst (AllSent (OfFile e in_cksum size file)) (sym same) v.log)

  module _ (fopen : List ℕ → Option (List ℕ)) (socket : ℕ) (request : Received) where
    abbrev client : ℕ → State → Child → List Event → Outcome
    client = process_client e in_cksum fopen socket request

    -- From the states behind the transfer.
    behind-Serves :
        (fuel : ℕ) (state : State) (c : Child) (es : List Event)
        → rank state + 2 * length es < fuel
        → IsServed e in_cksum size file state c
        → Serves (client fuel state c es)
    unfolding process_client Serves wait_on_eof_ack_state resend_eof_state
    behind-Serves zero state c es lt v = absurd (omega (arith, lt))
    behind-Serves (suc fuel) done c es lt v = clean_up-Serves c es v
    behind-Serves (suc fuel) wait_on_eof_ack c [] lt v = v.log
    behind-Serves (suc fuel) wait_on_eof_ack c (failure ∷ es) lt v = v.log
    behind-Serves (suc fuel) wait_on_eof_ack c (timeout ∷ es) lt v =
        behind-Serves fuel resend_eof c es (omega (arith, lt))
          (record { log = v.log; kept = v.kept; rest = v.rest; is_open = v.is_open; set = v.set })
    behind-Serves (suc fuel) wait_on_eof_ack c (ready a ∷ es) lt v =
        let c' : Child = record c { info = record c.info { client_addr = a.source } } in
        elim (Bool-cases (is_eof_ack e in_cksum c' (recv_from max_buf a))) [
          | inl acked ↦
              rw (Serves, process_client, acked)
                (behind-Serves fuel done c' es (omega (arith, lt)) (record {
                  log = v.log;
                  kept = tt;
                  rest = v.rest;
                  is_open = v.is_open;
                  set = v.set;
                }))
          | inr other ↦
              rw (Serves, process_client, other)
                (behind-Serves fuel wait_on_eof_ack c' es (omega (arith, lt)) (record {
                  log = v.log;
                  kept = v.kept;
                  rest = v.rest;
                  is_open = v.is_open;
                  set = v.set;
                }))
        ]
    behind-Serves (suc fuel) resend_eof c es lt v = elim (Bool-cases (leb 10 c.eof_resend_count)) [
      | inl last ↦
          rw (Serves, process_client, last)
            (behind-Serves fuel done c es (omega (arith, lt))
              (record { log = v.log; kept = tt; rest = v.rest; is_open = v.is_open; set = v.set }))
      | inr more ↦
          let bytes = take c.eof_len c.eof_packet in
          rw (Serves, process_client, more)
            (behind-Serves fuel wait_on_eof_ack
              (record (send c bytes) {
                info = record c.info { eof_resend_count = c.eof_resend_count + 1 };
              })
              es (omega (arith, lt))
              (record {
                log =
                    AllSent-append (OfFile e in_cksum size file) c.sent
                      (record { target = c.client_addr; bytes = bytes }) v.log v.kept;
                kept = v.kept;
                rest = v.rest;
                is_open = v.is_open;
                set = v.set;
              }))
    ]
    behind-Serves (suc fuel) start c es lt v = absurd v.kept
    behind-Serves (suc fuel) filename c es lt v = absurd v.kept
    behind-Serves (suc fuel) write_file_ok_ack c es lt v = absurd v.kept
    behind-Serves (suc fuel) send_data c es lt v = absurd v.kept
    behind-Serves (suc fuel) wait_on_ack c es lt v = absurd v.kept

    goes_on-Serves :
        (fuel m : ℕ) (o : Outcome)
        → Drops m o
        → m < suc fuel
        → Sends e in_cksum size file o
        → Serves (elim o [
          | returns state c es ↦ client fuel state c es
          | waits c ↦ waits c
          | exits c ↦ exits c
          | faults c ↦ faults c
          | out_of_fuel ↦ out_of_fuel
        ])
    unfolding Sends Serves
    goes_on-Serves fuel m (returns state c es) d lt v =
        behind-Serves fuel state c es (omega (arith, d, lt)) v
    goes_on-Serves fuel m (waits c) d lt v = v
    goes_on-Serves fuel m (exits c) d lt v = v
    goes_on-Serves fuel m (faults c) d lt v = v
    goes_on-Serves fuel m out_of_fuel d lt v = v

    module _ (fits : size ≤ max_buf) (pos : 0 < size) (short : length file + 2 < u32_mod) where
      -- From `SEND_DATA` on, for a file that is open and not yet read, of fewer than 2^32 - 2
      -- bytes, a positive window, a buffer size from 1 to `MAXBUF`, an array `eofPacket` of 7 bytes
      -- at least, and fuel for more than three rounds and two for each event: if all that was sent
      -- before is of the file and every SREJ that arrives names a packet in the window,
      -- `processClient` never faults: it returns behind its clean-up, or still waits for an event,
      -- or leaves by `exit`, and its log of what it has sent holds only acceptances of a name, data
      -- PDUs, each with the chunk of its own number, which is not empty, and EOFs with the number
      -- `k + 1`, where the file has just `k` chunks that are not empty.
      pub process_client-Serves :
          (fuel : ℕ) (c : Child) (es : List Event)
          → 3 + 2 * length es < fuel
          → c.file ≡ some file
          → c.buffer_size ≡ size
          → 0 < c.window_size
          → 7 ≤ length c.eof_packet
          → AllSent (OfFile e in_cksum size file) c.sent
          → OnNext e in_cksum
              (λ p d s. Answerable e in_cksum p d s es)
              1
              (fill e in_cksum (start_sending c) 1)
          → Serves (process_client e in_cksum fopen socket request fuel send_data c es)
      unfolding process_client
      process_client-Serves zero c es lt opened sized room store log ok = absurd (omega (arith, lt))
      process_client-Serves (suc fuel) c es lt opened sized room store log ok =
          goes_on-Serves fuel (3 + 2 * length es)
            (switch e in_cksum fopen socket request send_data c es)
            (switch-Drops e in_cksum fopen socket request send_data c es (ground arith)) lt
            (send_data-Sends e in_cksum size file fits pos short fopen socket request c es opened
              sized room store log ok)
