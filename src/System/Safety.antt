-- ===== src/System/Safety.antt =====
-- Workspace/server.c and Workspace/rcopy.c: runs of both ends.
use remote_file_copy_udp_pro.Base.{
  ℕ, ◌+◌, ◌≤◌, ◌<◌, ◌≡◌, refl, some, List, [], ◌∷◌, length, arith, Endian, u32_mod,
}
use remote_file_copy_udp_pro.CircularQueue.{init}
use remote_file_copy_udp_pro.CircularQueue.Window.{init-Holds}
use remote_file_copy_udp_pro.Pdu.{max_buf}
use remote_file_copy_udp_pro.Receiver.{in_order, new_info}
use remote_file_copy_udp_pro.Receiver.Prefix.{HasPrefix, new_info-Ready}
use remote_file_copy_udp_pro.Server.{Child}
use remote_file_copy_udp_pro.Server.Chunks.{chunk_of, content}
use remote_file_copy_udp_pro.Server.Log.{AllSent}
use remote_file_copy_udp_pro.Server.Replies.{start_sending}
use remote_file_copy_udp_pro.System.Defs.{ReceiverState, receives, closed, Both, Action, run, begin}
use remote_file_copy_udp_pro.System.Invariant.{
  UpTo, AllRoomy, SenderAt, ReceiverOk, ReceiverOk-later, Fine,
}
use remote_file_copy_udp_pro.System.Sender.{next_poll-Sends}
use remote_file_copy_udp_pro.System.Steps.{step-Steps}

-- The file of the receiver, whatever it has come to: chunks of the sender's file, in order.
abbrev pub WritesPrefix : ℕ → List ℕ → ReceiverState → Type 0
WritesPrefix size file (receives state info) = HasPrefix (chunk_of size file) (length file) info
WritesPrefix size file (closed info) = HasPrefix (chunk_of size file) (length file) info

module _ (e : Endian) (in_cksum : List ℕ → ℕ) (size : ℕ) (file : List ℕ) (width : ℕ)
    (fits : size ≤ max_buf) (pos : 0 < size) (short : length file + 2 < u32_mod) where
  -- Every run keeps what holds of both ends.
  pub run-Fine :
      (actions : List Action) (s : Both)
      → AllRoomy actions
      → Fine e in_cksum size file width s
      → (s' : Both) × (run e in_cksum actions s ≡ some s') × Fine e in_cksum size file width s'
  unfolding run
  run-Fine [] s room v = (s, refl, v)
  run-Fine (a ∷ actions) s (here, room) v =
      let (s₁, eq, v₁) = step-Steps e in_cksum size file width fits pos short a s here v in
      let (s', ran, v') = run-Fine actions s₁ room v₁ in (s', rw (run, eq) ran, v')

  ReceiverOk-WritesPrefix :
      (k : ℕ) (r : ReceiverState)
      → k ≤ length file
      → ReceiverOk e in_cksum size file width k r
      → WritesPrefix size file r
  ReceiverOk-WritesPrefix k (receives state info) le (v, window) = record {
    k = v.k;
    within = omega (arith, v.inv.within, le);
    file = v.inv.file;
    next = v.inv.next;
  }
  ReceiverOk-WritesPrefix k (closed info) le p = record {
    k = p.k;
    within = omega (arith, p.within, le);
    file = p.file;
    next = p.next;
  }

  begin-Fine :
      (c : Child) (socket_num server_addr : ℕ)
      → c.file ≡ some file
      → c.buffer_size ≡ size
      → 0 < c.window_size
      → c.window_size ≤ width
      → 7 ≤ length c.eof_packet
      → AllSent (UpTo e in_cksum size file 0) c.sent
      → (s : Both) × (begin e in_cksum c (new_info width socket_num server_addr) ≡ some s)
        × Fine e in_cksum size file width s
  unfolding begin new_info init
  begin-Fine c socket_num server_addr is_open sized room narrow store log =
      let v : SenderAt e in_cksum size file width 1 0 (start_sending c) = record {
        sending = record {
          holds = init-Holds (content e in_cksum size file) c.window c.window_size 1 room;
          reads = is_open;
          sized = sized;
          from_one = omega arith;
        };
        counted = omega arith;
        narrow = narrow;
        store = store;
        log = log;
      } in
      let (lo', k', st, eq, more, ok, near, within, same) =
        next_poll-Sends e in_cksum size file width fits pos short 1 0 (start_sending c) v
          (omega arith) (omega arith) in
      let ready =
        new_info-Ready e in_cksum (chunk_of size file) 0 (omega arith) width socket_num server_addr
          (omega (arith, room, narrow)) in
      let info = new_info width socket_num server_addr in
      rw (begin, eq)
        (
          record { sender = st; receiver = receives in_order info; acks = [] },
          refl,
          record {
            lo = lo';
            k = k';
            sender = ok;
            receiver =
                ReceiverOk-later e in_cksum size file width 0 k' (receives in_order info)
                  (omega arith) (ready, refl);
            acks = omega (arith, same);
            near = near;
            in_file = within;
          },
        )

  -- A child at `SEND_DATA` with an open file of fewer than 2^32 - 2 bytes, not yet read, a buffer
  -- size from 1 to `MAXBUF`, a positive window no wider than the client's and an array `eofPacket`
  -- of 7 bytes at least, that has sent nothing but acceptances and EOFs, and a client at the start
  -- of `process_transfer_state`, run side by side up to the end of the child's loop, with arrays
  -- that have room for what is received: whatever the order of time-outs and arrivals is, with data
  -- packets and EOFs lost, repeated and overtaken at will and acknowledgements lost, but in order
  -- and not repeated, neither of the two faults, and the client's output file always consists of
  -- the first chunks of the child's file in order.
  pub transfer-WritesPrefix :
      (c : Child) (socket_num server_addr : ℕ) (actions : List Action)
      → c.file ≡ some file
      → c.buffer_size ≡ size
      → 0 < c.window_size
      → c.window_size ≤ width
      → 7 ≤ length c.eof_packet
      → AllSent (UpTo e in_cksum size file 0) c.sent
      → AllRoomy actions
      → (s : Both) × (s' : Both) × (begin e in_cksum c (new_info width socket_num server_addr)
          ≡ some s)
        × (run e in_cksum actions s ≡ some s')
        × WritesPrefix size file s'.receiver
  transfer-WritesPrefix c socket_num server_addr actions is_open sized room narrow store log roomy =
      let (s, began, v) = begin-Fine c socket_num server_addr is_open sized room narrow store log in
      let (s', ran, v') = run-Fine actions s roomy v in
      (s, s', began, ran, ReceiverOk-WritesPrefix v'.k s'.receiver v'.in_file v'.receiver)
