-- ===== src/System/Session.antt =====
-- Workspace/rcopy.c and Workspace/server.c: a whole session, from the request to the copied file.
use remote_file_copy_udp_pro.Base.{
  ℤ, to_u16, ℕ, suc, ◌+◌, ◌≤◌, ◌<◌, ◌≡◌, refl, sym, ap, subst, ◌∙◌, true, Option, some, List, [],
  ◌∷◌, ◌++◌, length, length-replicate, arith, u32_mod, u16_mod, htons,
}
use remote_file_copy_udp_pro.Address.{SockAddr, af_inet6}
use remote_file_copy_udp_pro.CircularQueue.{CircularQueue}
use remote_file_copy_udp_pro.Client.{
  wait_on_data, Argv, Process, goes, World, request, file_ok_ack, wait_on_file_ok_state, window_of,
}
use remote_file_copy_udp_pro.Client.Agreement.{handshake-agrees}
use remote_file_copy_udp_pro.Client.Opening.{accepted}
use remote_file_copy_udp_pro.Client.Retries.{HasRoom, server, asking}
use remote_file_copy_udp_pro.Client.Sockets.{Steady}
use remote_file_copy_udp_pro.Net.{Event, ready, Arrival}
use remote_file_copy_udp_pro.Pdu.{receive_into, max_buf}
use remote_file_copy_udp_pro.Pdu.Wire.{wire}
use remote_file_copy_udp_pro.Poll.Socket.{IsPoll}
use remote_file_copy_udp_pro.Receiver.{new_info}
use remote_file_copy_udp_pro.Server.{Child, start, send_data, process_client, new_child, c_string}
use remote_file_copy_udp_pro.Server.Forks.{request-served}
use remote_file_copy_udp_pro.System.Defs.{Both, Action, begin, run}
use remote_file_copy_udp_pro.System.Invariant.{AllRoomy, UpTo, accepts}
use remote_file_copy_udp_pro.System.Safety.{WritesPrefix, transfer-WritesPrefix}
use remote_file_copy_udp_pro.Server.Log.{AllSent}
use remote_file_copy_udp_pro.System.Lossless.{Copied, transfer-Copied}
use remote_file_copy_udp_pro.System.Turns.{lossless}

module _ (w : World) (argv : Argv) where
  -- What the child answers to the request for the name.
  abbrev pub acceptance : ℕ → List ℕ → Arrival
  acceptance child_addr before = record {
    bytes = wire w.endian w.in_cksum 0 9 argv.from_filename;
    source = child_addr;
    before = before;
  }

  -- The client's acknowledgement of the acceptance, as it arrives at the child.
  abbrev pub ok_ack : ℕ → ℕ → ℕ → List ℕ → Arrival
  ok_ack s client_addr child_addr before = record {
    bytes = (file_ok_ack w argv s child_addr).message.bytes;
    source = client_addr;
    before = before;
  }

module _ (w : World) (argv : Argv) (port_number : ℤ) (s : ℕ) (host_info : List ℕ)
    (kernel : IsPoll w.poll) (room : HasRoom w.socket s) (positive : 0 < s)
    (found : w.getaddrinfo argv.host_name (record { ai_family = af_inet6; mapped = true })
      ≡ some host_info) where
  -- The address that the client has found.
  abbrev to_server : SockAddr
  to_server = server w argv port_number s host_info kernel room positive found

  module _ (file : List ℕ) (fopen : List ℕ → Option (List ℕ)) (socket fuel : ℕ)
      (client_addr child_addr : ℕ) (p : Process) (window : CircularQueue) (before before' : List ℕ)
      (es es' : List Event) where
    -- The request has taken the child from START to `SEND_DATA`, behind its acceptance, and the
    -- client from `WAIT_ON_FILE_OK` to `WAIT_ON_DATA`, behind its acknowledgement of that.
    pub record Joined (p' : Process) (c : Child) : Type 0 where
      pub served :
          let d = receive_into before (request w argv s to_server).message.bytes client_addr in
          process_client w.endian w.in_cksum fopen socket d
            (3 + fuel)
            start
            (new_child client_addr window)
            (ready (ok_ack w argv s client_addr child_addr before) ∷ es)
          ≡ process_client w.endian w.in_cksum fopen socket d fuel send_data c es
      pub answered :
          wait_on_file_ok_state w argv port_number s p
            (ready (acceptance w argv child_addr before') ∷ es')
          ≡ goes wait_on_data p' es'
      pub sent :
          c.sent
          ≡ record { target = client_addr; bytes = (acceptance w argv child_addr before').bytes }
            ∷ []
      pub posted :
          p'.posted
          ≡ p.posted ++ (request w argv s to_server ∷ file_ok_ack w argv s child_addr ∷ [])
      pub is_open : c.file ≡ some file
      pub buffer : c.buffer_size ≡ htons w.endian (to_u16 (w.atoi argv.buffer_size))
      pub width : c.window_size ≡ htons w.endian (to_u16 (w.atoi argv.window_size))
      pub store : 7 ≤ length c.eof_packet

    module _ (f : ℕ) (steady : Steady s p)
        (opens : w.fopen
            (asking w argv port_number s host_info kernel room positive found p).descriptors
          ≡ some f)
        (few : length argv.from_filename < 100)
        (ends : c_string argv.from_filename ≡ argv.from_filename)
        (is_there : fopen argv.from_filename ≡ some file) (size_before : length before ≡ max_buf)
        (room' : max_buf + 7 ≤ length before') where
      session-Joined : (p' : Process) × (c : Child) × Joined p' c
      unfolding process_client wait_on_file_ok_state
      session-Joined =
          let b = to_u16 (w.atoi argv.buffer_size) in
          let width = to_u16 (w.atoi argv.window_size) in
          let d = receive_into before (request w argv s to_server).message.bytes client_addr in
          let acked = ready (ok_ack w argv s client_addr child_addr before) ∷ es in
          let child =
            accepted w.endian w.in_cksum fopen socket (new_child client_addr window) acked
              argv.from_filename width b file in
          let c : Child = record child { info = record child.info { client_addr = client_addr } } in
          let ((p', answered, posted), settled) =
            handshake-agrees w argv port_number s host_info kernel room positive found w.endian 9 f
              p argv.from_filename child_addr before' es' child client_addr before es steady opens
              (omega (arith, few)) (omega (arith, few, room')) (omega (arith, size_before)) in
          let (_, first) =
            request-served w.endian w.in_cksum fopen socket (λ n. true) [] [] width b client_addr
              argv.from_filename before file (λ n. refl) few size_before ends is_there in
          let store : 7 ≤ length c.eof_packet =
            omega (arith, length-replicate {A = ℕ} (max_buf + 7) 0) in
          let three : 3 + fuel ≡ 2 + suc fuel = omega arith in
          let served =
            ap
              (λ m.
                process_client w.endian w.in_cksum fopen socket d m start
                  (new_child client_addr window) acked)
              three
            ∙ first (suc fuel) window acked
            ∙ rw (process_client, settled) refl in
          (
            p',
            c,
            record {
              served = served;
              answered = answered;
              sent = refl;
              posted = posted;
              is_open = refl;
              buffer = refl;
              width = refl;
              store = store;
            },
          )

      module _ (stale_addr size : ℕ) (fits : size ≤ max_buf) (pos : 0 < size)
          (short : length file + 2 < u32_mod)
          (sized : htons w.endian (to_u16 (w.atoi argv.buffer_size)) ≡ size)
          (wide : 0 < htons w.endian (to_u16 (w.atoi argv.window_size))) where
        -- On hosts of the same byte order with room in their arrays, for a name of fewer than 100
        -- bytes without a NUL, of a file of fewer than 2^32 - 2 bytes that the server can open,
        -- with a window size that is positive and no wider than the client's, and a buffer size
        -- from 1 to `MAXBUF` once the host's `ntohs` has been applied, where the number of the
        -- client's socket is positive and all lower descriptors are open, its poll table is in its
        -- bounds, `poll` and `socket` do what their documents say (an event shows in just the
        -- entries that ask for it; the lowest unused descriptor can be opened), and the client
        -- finds the host and can open its output file: the request that the client sends takes the
        -- child from START to `SEND_DATA`, behind its acceptance of the name and the client's
        -- acknowledgement of that, and that acceptance takes the client from `WAIT_ON_FILE_OK` to
        -- `WAIT_ON_DATA`; and from there on, up to the end of the child's loop, whatever the order
        -- of time-outs and arrivals is, with data packets and EOFs lost, repeated and overtaken at
        -- will and acknowledgements lost, but in order and not repeated, neither of the two faults,
        -- and the client's output file always consists of the first chunks of the child's file in
        -- order.
        pub session-WritesPrefix :
            (actions : List Action)
            → htons w.endian (to_u16 (w.atoi argv.window_size))
              ≤ window_of (w.atoi argv.window_size)
            → AllRoomy actions
            → (p' : Process) × (c : Child) × (st : Both) × (st' : Both) × Joined p' c
              × (begin w.endian w.in_cksum c
                    (new_info (window_of (w.atoi argv.window_size)) s stale_addr)
                  ≡ some st)
              × (run w.endian w.in_cksum actions st ≡ some st')
              × WritesPrefix size file st'.receiver
        unfolding AllSent
        session-WritesPrefix actions narrow roomy =
            let (p', c, v) = session-Joined in
            let (st, st', began, ran, prefix) =
              transfer-WritesPrefix w.endian w.in_cksum size file
                (window_of (w.atoi argv.window_size)) fits pos short c s stale_addr actions
                v.is_open (v.buffer ∙ sized) (omega (arith, wide, v.width))
                (omega (arith, narrow, v.width)) v.store
                (subst (AllSent (UpTo w.endian w.in_cksum size file 0)) (sym v.sent)
                  (accepts argv.from_filename (omega (arith, few)) refl, tt))
                roomy in
            (p', c, st, st', v, began, ran, prefix)

        -- On hosts of the same byte order with room in their arrays, for a name of fewer than 100
        -- bytes without a NUL, of a file of fewer than 2^32 - 2 bytes that the server can open,
        -- with a window size that is positive and a buffer size from 1 to `MAXBUF` once the host's
        -- `ntohs` has been applied, where checksums have 16 bits, the number of the client's socket
        -- is positive and all lower descriptors are open, its poll table is in its bounds, `poll`
        -- and `socket` do what their documents say (an event shows in just the entries that ask for
        -- it; the lowest unused descriptor can be opened), and the client finds the host and can
        -- open its output file: the request that the client sends takes the child from START to
        -- `SEND_DATA`, behind its acceptance of the name and the client's acknowledgement of that,
        -- and that acceptance takes the client from `WAIT_ON_FILE_OK` to `WAIT_ON_DATA`; and from
        -- there on a network on which each datagram of the child arrives, and its answer, before a
        -- second has gone by, takes both in `n` turns, `n` of the file's length at most, and one
        -- for the EOF to an end at which the client has closed an output file that is the whole
        -- file of the child, and the child has taken the acknowledgement of its EOF, if the
        -- checksum of that acknowledgement is the same behind `ntohs`, and else still waits for it.
        pub session-Copied :
            ((bytes : List ℕ) → w.in_cksum bytes < u16_mod)
            → (p' : Process) × (c : Child) × (st : Both) × (n : ℕ) × (st' : Both) × Joined p' c
              × (begin w.endian w.in_cksum c
                    (new_info (window_of (w.atoi argv.window_size)) s stale_addr)
                  ≡ some st)
              × (run w.endian w.in_cksum (lossless n 1 child_addr before') st ≡ some st')
              × Copied w.endian w.in_cksum file (suc n) st'
              × (n ≤ length file)
        session-Copied word =
            let (p', c, v) = session-Joined in
            let (st, n, st', began, ran, copied, le) =
              transfer-Copied w.endian w.in_cksum size file child_addr before' fits pos short room'
                word c (window_of (w.atoi argv.window_size)) s stale_addr v.is_open
                (v.buffer ∙ sized) (omega (arith, wide, v.width)) v.store in
            let ran' =
              subst
                (λ log.
                  run w.endian w.in_cksum (lossless n (length log) child_addr before') st
                  ≡ some st')
                v.sent ran in
            (p', c, st, n, st', v, began, ran', copied, le)
