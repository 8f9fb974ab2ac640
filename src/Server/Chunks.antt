-- ===== src/Server/Chunks.antt =====
-- The sender's window over a file: what `fill` sends and keeps.
use remote_file_copy_udp_pro.Base.{
  ℕ, zero, suc, ◌+◌, ◌≤◌, ◌<◌, ◌≡◌, refl, sym, ap, ap₂, subst, ◌∙◌, true, false, some, List, [],
  ◌∷◌, ◌++◌, length, take, drop, arith, length-take, Endian, u32_mod, inc32, ltb, ◌==◌, Bool-cases,
  List-cases, le→ltb_false, ==_iff, inl, inr,
}
use remote_file_copy_udp_pro.CircularQueue.{is_full}
use remote_file_copy_udp_pro.CircularQueue.Window.{Holds, insert-Holds}
use remote_file_copy_udp_pro.Pdu.{max_buf, stack_array, length-stack_array}
use remote_file_copy_udp_pro.Pdu.Wire.{wire, create_pdu-wire}
use remote_file_copy_udp_pro.Server.State.{Child, Next, polls_sent, polls_full, at_eof, send}
use remote_file_copy_udp_pro.Server.Transfer.{fill, read_chunk, send_packet, keep_and_send}

-- The bytes behind the first `k` chunks of `size` bytes each, and the chunk of number `s`.
abbrev pub rest_of : ℕ → List ℕ → ℕ → List ℕ
rest_of size file zero = file
rest_of size file (suc k) = drop size (rest_of size file k)

abbrev pub chunk_of : ℕ → List ℕ → ℕ → List ℕ
chunk_of size file zero = []
chunk_of size file (suc k) = take size (rest_of size file k)

module _ (e : Endian) (in_cksum : List ℕ → ℕ) (size : ℕ) (file : List ℕ) where
  -- The PDU that carries chunk `s` for the first time.
  abbrev pub content : ℕ → List ℕ
  content s = wire e in_cksum s 16 (chunk_of size file s)

  -- The window holds the PDUs from `lo` on to the last one sent, and the file is read as far.
  pub record Sending (lo k : ℕ) (c : Child) : Type 0 where
    pub holds : Holds content c.window lo (suc k)
    pub reads : c.file ≡ some (rest_of size file k)
    pub sized : c.buffer_size ≡ size
    pub from_one : 1 ≤ lo

  module _ (fits : size ≤ max_buf) where
    pub length-chunk_of : (s : ℕ) → length (chunk_of size file s) ≤ max_buf
    length-chunk_of zero = omega arith
    length-chunk_of (suc k) = omega (arith, length-take size (rest_of size file k))

    -- What `CircularQueue_insert` is given for the next chunk goes into the window and out.
    keep_and_send-Sending :
        (lo k : ℕ) (c : Child)
        → k + 2 < u32_mod
        → Sending lo k c
        → c.window.valid_count < c.window.window_size
        → (c' : Child) × (keep_and_send c (suc k) (content (suc k)) (rest_of size file (suc k))
            ≡ polls_sent c' (suc (suc k)))
          × Sending lo (suc k) c'
          × (c'.sent ≡ c.sent ++ (record { target = c.client_addr; bytes = content (suc k) } ∷ []))
    unfolding keep_and_send
    keep_and_send-Sending lo k c short v room =
        let (q', eq, h, same) = insert-Holds content c.window lo (suc k) v.holds room in
        let filled : Child = record c {
          info = record c.info { file = some (rest_of size file (suc k)) };
          window = q';
        } in
        let counted : inc32 (suc k) ≡ suc (suc k) = omega arith in
        (
          send filled (content (suc k)),
          rw (keep_and_send, eq, counted) refl,
          record {
            holds = subst (Holds content q' lo) (omega arith) h;
            reads = refl;
            sized = v.sized;
            from_one = v.from_one;
          },
          refl,
        )

    send_packet-keep :
        (k : ℕ) (c : Child) (rest : List ℕ)
        → send_packet e in_cksum c (suc k) (chunk_of size file (suc k)) rest
          ≡ keep_and_send c (suc k) (content (suc k)) rest
    unfolding send_packet
    send_packet-keep k c rest =
        ap (λ bytes. keep_and_send c (suc k) bytes rest)
          (create_pdu-wire e in_cksum (stack_array (max_buf + 7)) (suc k) 16
            (chunk_of size file (suc k))
            (omega (arith, length-chunk_of (suc k), length-stack_array (max_buf + 7))))

    -- The three ways on from the head of the loop: the window is full, or the file is at its end, or
    -- the next chunk is sent and kept.
    pub data Filled (lo k : ℕ) (c : Child) (next : Next) : Type 0 where
      window_full : next ≡ polls_full c → is_full c.window ≡ true → Filled lo k c next
      file_end : next ≡ at_eof c → rest_of size file k ≡ [] → Filled lo k c next
      chunk_sent :
          (c' : Child)
          → next ≡ polls_sent c' (suc (suc k))
          → Sending lo (suc k) c'
          → 0 < length (rest_of size file k)
          → c'.sent ≡ c.sent ++ (record { target = c.client_addr; bytes = content (suc k) } ∷ [])
          → Filled lo k c next

    read_chunk-Filled :
        (lo k : ℕ) (c : Child)
        → 0 < size
        → k + 2 < u32_mod
        → Sending lo k c
        → is_full c.window ≡ false
        → Filled lo k c (read_chunk e in_cksum c (suc k) size (some (rest_of size file k)))
    unfolding read_chunk
    read_chunk-Filled lo k c pos short v room = elim (List-cases (rest_of size file k)) [
      | inl done ↦ file_end (rw (small, empty done) refl) done
      | inr more ↦
          let (c', eq, v', sent) = keep_and_send-Sending lo k c short v (ground arith) in
          chunk_sent c' (rw (small, full more) (send_packet-keep k c _ ∙ eq)) v' more sent
    ]
      where
        small : ltb max_buf (length (chunk_of size file (suc k))) ≡ false
        small = le→ltb_false max_buf _ (length-chunk_of (suc k))

        empty : rest_of size file k ≡ [] → (length (chunk_of size file (suc k)) == 0) ≡ true
        empty done =
            (==_iff (length (chunk_of size file (suc k))) 0).1
              (omega (arith, length-take size (rest_of size file k), ap length done))

        full : 0 < length (rest_of size file k) → (length (chunk_of size file (suc k)) == 0) ≡ false
        full more = ground (arith, length-take size (rest_of size file k))

    -- With a buffer size from 1 to `MAXBUF`, and below 2^32 packets, the head of the sender's loop
    -- does one of these: it finds the window full, or the whole file read, or it sends the next
    -- chunk under the next number, keeps it in the window and goes on to read behind it.
    pub fill-Filled :
        (lo k : ℕ) (c : Child)
        → 0 < size
        → k + 2 < u32_mod
        → Sending lo k c
        → Filled lo k c (fill e in_cksum c (suc k))
    unfolding fill
    fill-Filled lo k c pos short v = elim (Bool-cases (is_full c.window)) [
      | inl full ↦ window_full (rw full refl) full
      | inr room ↦ rw room (
          subst (Filled lo k c) (sym (ap₂ (read_chunk e in_cksum c (suc k)) v.sized v.reads))
            (read_chunk-Filled lo k c pos short v room))
    ]
