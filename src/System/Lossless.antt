-- ===== src/System/Lossless.antt =====
-- Workspace/server.c and Workspace/rcopy.c: whole transfers on a network that loses nothing.
use remote_file_copy_udp_pro.Base.{
  ℕ, zero, suc, ◌+◌, ◌≤◌, ◌<◌, ◌≡◌, refl, sym, ap, subst, ◌∙◌, Bool, true, false, some, List, [],
  ◌∷◌, ◌++◌, length, take, arith, Endian, u32_mod, u16_mod, htons, ◌==◌, if◌then◌else◌, ==_refl,
  append-nil, append_assoc, take-append-drop, length-drop,
}
use remote_file_copy_udp_pro.CircularQueue.{init}
use remote_file_copy_udp_pro.CircularQueue.Window.{init-Holds}
use remote_file_copy_udp_pro.Pdu.{max_buf}
use remote_file_copy_udp_pro.Pdu.Wire.{wire, summed}
use remote_file_copy_udp_pro.Receiver.{in_order, ReceiveInfo, new_info}
use remote_file_copy_udp_pro.Receiver.Invariant.{chunks}
use remote_file_copy_udp_pro.Server.{
  Child, sent, fill, wait_on_eof_ack_state, returns, done, wait_on_eof_ack,
}
use remote_file_copy_udp_pro.Server.Chunks.{chunk_of, rest_of, content}
use remote_file_copy_udp_pro.Server.Handshake.{is_eof_ack-wire}
use remote_file_copy_udp_pro.Server.Replies.{start_sending}
use remote_file_copy_udp_pro.System.Copies.{
  arrival, on_datagram-Wrote, on_datagram-eof, deliver-eq, take_ack-eq, on_ack-Idle,
}
use remote_file_copy_udp_pro.System.Defs.{
  SenderState, polls, closes, over, receives, closed, Both, second, on_second, on_ack, step, run,
  begin, next_poll, next_eof_poll,
}
use remote_file_copy_udp_pro.System.Turns.{
  lossless, Wrote, AtEof, Idle, Goes, sends, ends, next_poll-Goes,
}

-- The first chunks and the rest of the file.
chunks-rest_of :
    (size : ℕ) (file : List ℕ) (k : ℕ) → chunks (chunk_of size file) k ++ rest_of size file k ≡ file
chunks-rest_of size file zero = refl
chunks-rest_of size file (suc k) =
    append_assoc (chunks (chunk_of size file) k) (take size (rest_of size file k)) _
    ∙ ap (λ xs. chunks (chunk_of size file) k ++ xs) (take-append-drop size (rest_of size file k))
    ∙ chunks-rest_of size file k

module _ (e : Endian) (in_cksum : List ℕ → ℕ) where
  -- What `wait_on_eof_ack_state` makes of the checksum of the acknowledgement of an EOF with this
  -- number: the stored one goes through `ntohs`, the computed one does not.
  abbrev pub ack_verifies : ℕ → Bool
  ack_verifies seq =
      htons e (in_cksum (summed e in_cksum seq 35 [])) == in_cksum (summed e in_cksum seq 35 [])

  -- The client has the whole file and has closed it, no acknowledgement is on its way, and the child
  -- has taken that of its EOF, which has the number `seq`, or still waits for one that verifies.
  pub record Copied (file : List ℕ) (seq : ℕ) (s : Both) : Type 0 where
    pub info : ReceiveInfo
    pub child : Child
    pub receiver : s.receiver ≡ closed info
    pub written : info.out_file ≡ file
    pub sender : s.sender ≡ (if ack_verifies seq then over child else closes child)
    pub acks : s.acks ≡ []

  module _ (size : ℕ) (file : List ℕ) (source : ℕ) (before : List ℕ) (fits : size ≤ max_buf)
      (pos : 0 < size) (short : length file + 2 < u32_mod) (room : max_buf + 7 ≤ length before)
      (word : (bytes : List ℕ) → in_cksum bytes < u16_mod) where
    on_ack-eof :
        (k i : ℕ) (c : Child)
        → AtEof e in_cksum size file k i c
        → (c' : Child) × (on_ack e in_cksum
              (arrival e in_cksum size file source before fits short room
                (wire e in_cksum (suc k) 35 []))
              (closes c)
            ≡ some (if ack_verifies (suc k) then over c' else closes c'))
    unfolding on_ack wait_on_eof_ack_state
    on_ack-eof k i c v =
        let c' : Child = record c { info = record c.info { client_addr = source } } in
        let eq =
          is_eof_ack-wire e in_cksum c' (suc k) source before (omega (arith, v.counted, short))
            (word (summed e in_cksum (suc k) 35 [])) (omega (arith, room)) in
        let own : (suc k == c.eof_seq) ≡ true = ap (λ n. suc k == n) v.number ∙ ==_refl (suc k) in
        (c', rw (eq, own) (go c' (ack_verifies (suc k))))
      where
        go :
            (c' : Child) (b : Bool)
            → next_eof_poll e in_cksum (returns (if b then done else wait_on_eof_ack) c' [])
              ≡ some (if b then over c' else closes c')
        go c' true = refl
        go c' false = refl

    -- The EOF and its acknowledgement.
    ends-Copied :
        (k i : ℕ) (c : Child) (info : ReceiveInfo)
        → AtEof e in_cksum size file k i c
        → Wrote e in_cksum size file k info
        → (s : Both) × (run e in_cksum
              (lossless 0 i source before)
              (record { sender = closes c; receiver = receives in_order info; acks = [] })
            ≡ some s)
          × Copied file (suc k) s
    unfolding run
    ends-Copied k i c info v w =
        let (info', x, told, kept, answer) =
          on_datagram-eof e in_cksum size file source before fits short room k info v.counted w in
        let (c', acked) = on_ack-eof k i c v in
        let st = if ack_verifies (suc k) then over c' else closes c' in
        let eq =
          deliver-eq e in_cksum size file source before fits short room i _ (closes c)
            (receives in_order info) (closed info') (x ∷ []) v.logged told in
        let eq' =
          take_ack-eq e in_cksum size file source before fits short room _ (closes c) st
            (closed info') x answer acked in
        (
          record { sender = st; receiver = closed info'; acks = [] },
          rw (run, eq) (rw (run, eq') refl),
          record {
            info = info';
            child = c';
            receiver = refl;
            written =
                kept
                ∙ w.written
                ∙ sym (append-nil (chunks (chunk_of size file) k))
                ∙ ap (λ xs. chunks (chunk_of size file) k ++ xs) (sym v.last)
                ∙ chunks-rest_of size file k;
            sender = refl;
            acks = refl;
          },
        )

    second-eq :
        (c : Child) (seq : ℕ) (info : ReceiveInfo) {st : SenderState}
        → next_poll e in_cksum seq (fill e in_cksum c seq) ≡ some st
        → step e in_cksum second
            (record { sender = polls sent c seq 0; receiver = receives in_order info; acks = [] })
          ≡ some (record { sender = st; receiver = receives in_order info; acks = [] })
    unfolding step on_second
    second-eq c seq info went = rw (step, went) refl

    -- From an idle sender's next state to the end of the file, in as many turns as there are chunks.
    Goes-Copied :
        (fuel k i : ℕ) (st : SenderState) (info : ReceiveInfo)
        → length (rest_of size file k) ≤ fuel
        → Goes e in_cksum size file k i st
        → Wrote e in_cksum size file k info
        → (n : ℕ) × (s : Both) × (run e in_cksum
              (lossless n i source before)
              (record { sender = st; receiver = receives in_order info; acks = [] })
            ≡ some s)
          × Copied file (suc (k + n)) s
          × (n ≤ length (rest_of size file k))
    unfolding run
    Goes-Copied fuel k i st info le (ends c at v) w =
        let (s, ran, copied) = ends-Copied k i c info v w in
        let none : k + 0 ≡ k = omega arith in (0, s, rw at ran, rw none copied, omega arith)
    Goes-Copied zero k i st info le (sends c at v) w = absurd (omega (arith, le, v.more))
    Goes-Copied (suc fuel) k i st info le (sends c at v) w =
        let (info', x, told, w', answer) =
          on_datagram-Wrote e in_cksum size file source before fits short room k info
            (omega (arith, v.counted, v.more)) w in
        let (c', acked, idle) =
          on_ack-Idle e in_cksum size file source before fits short room pos k i (suc (suc k)) 0 c
            v in
        let (st', went, goes) =
          next_poll-Goes e in_cksum size file fits pos short (suc k) (suc i) c' idle in
        let shorter : length (rest_of size file (suc k)) + 1 ≤ length (rest_of size file k) =
          omega (arith, length-drop size (rest_of size file k), pos, v.more) in
        let (n, s, ran, copied, few) =
          Goes-Copied fuel (suc k) (suc i) st' info' (omega (arith, shorter, le)) goes w' in
        let eq =
          deliver-eq e in_cksum size file source before fits short room i _
            (polls sent c (suc (suc k)) 0) (receives in_order info) (receives in_order info')
            (x ∷ []) v.logged told in
        let eq' =
          take_ack-eq e in_cksum size file source before fits short room _
            (polls sent c (suc (suc k)) 0) (polls sent c' (suc (suc k)) 0) (receives in_order info')
            x answer acked in
        let again : k + suc n ≡ suc k + n = omega arith in
        (
          suc n,
          s,
          rw at
              (rw (run, eq) (rw (run, eq') (rw (run, second-eq c' (suc (suc k)) info' went) ran))),
          rw again copied,
          omega (arith, few, shorter),
        )

    -- A child at `SEND_DATA` with an open file of fewer than 2^32 - 2 bytes, not yet read, a buffer
    -- size from 1 to `MAXBUF`, a positive window and an array `eofPacket` of 7 bytes at least, and
    -- a client at the start of `process_transfer_state`, where checksums have 16 bits and the
    -- arrays have room for what is received: on a network on which each datagram of the child
    -- arrives, and its answer, before a second has gone by, both come in as many turns as there are
    -- chunks, `n` of the file's length at most, and one for the EOF to an end at which the client
    -- has closed an output file that is the whole file of the child; the child has then taken the
    -- acknowledgement of its EOF, number `n + 1`, if the checksum of that acknowledgement is the
    -- same behind `ntohs`, and else still waits for it.
    pub transfer-Copied :
        (c : Child) (width socket_num server_addr : ℕ)
        → c.file ≡ some file
        → c.buffer_size ≡ size
        → 0 < c.window_size
        → 7 ≤ length c.eof_packet
        → (s : Both) × (n : ℕ) × (s' : Both) × (begin e in_cksum c
              (new_info width socket_num server_addr)
            ≡ some s)
          × (run e in_cksum (lossless n (length c.sent) source before) s ≡ some s')
          × Copied file (suc n) s'
          × (n ≤ length file)
    unfolding begin new_info init
    transfer-Copied c width socket_num server_addr is_open sized room' store =
        let idle : Idle e in_cksum size file 0 (length c.sent) (start_sending c) = record {
          sending = record {
            holds = init-Holds (content e in_cksum size file) c.window c.window_size 1 room';
            reads = is_open;
            sized = sized;
            from_one = omega arith;
          };
          counted = omega arith;
          store = store;
          logged = refl;
        } in
        let (st, eq, goes) =
          next_poll-Goes e in_cksum size file fits pos short 0 (length c.sent) (start_sending c)
            idle in
        let (n, s', ran, copied, few) =
          Goes-Copied (length file) 0 (length c.sent) st (new_info width socket_num server_addr)
            (omega arith) goes (record { next = refl; calm = omega arith; written = refl }) in
        let zero_n : 0 + n ≡ n = omega arith in
        (
          record {
            sender = st;
            receiver = receives in_order (new_info width socket_num server_addr);
            acks = [];
          },
          n,
          s',
          rw (begin, eq) refl,
          ran,
          subst (λ m. Copied file (suc m) s') zero_n copied,
          few,
        )
