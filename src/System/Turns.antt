-- ===== src/System/Turns.antt =====
-- Workspace/server.c and Workspace/rcopy.c: the turns of a transfer on a network that loses nothing.
use remote_file_copy_udp_pro.Base.{
  ℕ, zero, suc, ◌+◌, ◌≤◌, ◌<◌, ◌≡◌, refl, sym, ap, ◌∙◌, some, List, [], ◌∷◌, ◌++◌, length,
  get_elem?, length-append, arith, Endian, u32_mod,
}
use remote_file_copy_udp_pro.Net.{Sent}
use remote_file_copy_udp_pro.Pdu.{max_buf, create_pdu, datagram, stack_array, length-stack_array}
use remote_file_copy_udp_pro.Pdu.Wire.{wire, create_pdu-wire}
use remote_file_copy_udp_pro.Receiver.{ReceiveInfo}
use remote_file_copy_udp_pro.Receiver.Invariant.{chunks}
use remote_file_copy_udp_pro.Server.{Child, Next, sent, fill, send_eof}
use remote_file_copy_udp_pro.Server.Chunks.{
  chunk_of, rest_of, content, Sending, Filled, window_full, file_end, chunk_sent, fill-Filled,
}
use remote_file_copy_udp_pro.Server.Sizes.{KeepsNext, fill-size}
use remote_file_copy_udp_pro.System.Defs.{
  SenderState, polls, closes, Action, second, take_ack, deliver, next_poll,
}

-- The datagrams of the sender's log from the number `i` on arrive one after the other, each before a
-- second has gone by, and so do the acknowledgements: `n` data packets and an EOF.
abbrev pub lossless : ℕ → ℕ → ℕ → List ℕ → List Action
lossless zero i source before = deliver i source before ∷ take_ack source before ∷ []
lossless (suc n) i source before =
    deliver i source before ∷ take_ack source before ∷ second ∷ lossless n (suc i) source before

-- The last of a list.
get_elem?-last : (xs : List Sent) (x : Sent) → get_elem? (xs ++ (x ∷ [])) (length xs) ≡ some x
get_elem?-last [] x = refl
get_elem?-last (y ∷ xs) x = get_elem?-last xs x

module _ (e : Endian) (in_cksum : List ℕ → ℕ) (size : ℕ) (file : List ℕ) where
  -- The receiver has written `k` chunks, and nothing is in its buffer.
  pub record Wrote (k : ℕ) (info : ReceiveInfo) : Type 0 where
    pub next : info.expected ≡ suc k
    pub calm : info.highest < suc k
    pub written : info.out_file ≡ chunks (chunk_of size file) k

  -- A datagram with these bytes is the number `i` of a log, and the last one.
  pub record IsLast (i : ℕ) (bytes : List ℕ) (log : List Sent) : Type 0 where
    pub datagram_sent : Sent
    pub at : get_elem? log i ≡ some datagram_sent
    pub same : datagram_sent.bytes ≡ bytes
    pub counted : length log ≡ suc i

  append-IsLast :
      (log log' : List Sent) (target i : ℕ) (bytes : List ℕ)
      → length log ≡ i
      → log' ≡ log ++ (record { target = target; bytes = bytes } ∷ [])
      → IsLast i bytes log'
  append-IsLast log log' target i bytes len more =
      let x : Sent = record { target = target; bytes = bytes } in
      record {
        datagram_sent = x;
        at =
            ap (λ xs. get_elem? xs i) more
            ∙ ap (get_elem? (log ++ (x ∷ []))) (sym len)
            ∙ get_elem?-last log x;
        same = refl;
        counted = ap length more ∙ length-append log (x ∷ []) ∙ omega (arith, len);
      }

  -- The sender behind `k` chunks, all acknowledged, with `i` datagrams in its log.
  pub record Idle (k i : ℕ) (c : Child) : Type 0 where
    pub sending : Sending e in_cksum size file (suc k) k c
    pub counted : k + length (rest_of size file k) ≤ length file
    pub store : 7 ≤ length c.eof_packet
    pub logged : length c.sent ≡ i

  -- The chunk `k + 1` is on its way.
  pub record InFlight (k i : ℕ) (c : Child) : Type 0 where
    pub sending : Sending e in_cksum size file (suc k) (suc k) c
    pub more : 0 < length (rest_of size file k)
    pub counted : k + length (rest_of size file k) ≤ length file
    pub store : 7 ≤ length c.eof_packet
    pub logged : IsLast i (content e in_cksum size file (suc k)) c.sent

  -- The EOF behind the last chunk is on its way.
  pub record AtEof (k i : ℕ) (c : Child) : Type 0 where
    pub last : rest_of size file k ≡ []
    pub counted : k ≤ length file
    pub number : c.eof_seq ≡ suc k
    pub logged : IsLast i (wire e in_cksum (suc k) 10 []) c.sent

  -- What an idle sender does next.
  pub data Goes (k i : ℕ) (st : SenderState) : Type 0 where
    sends : (c : Child) → st ≡ polls sent c (suc (suc k)) 0 → InFlight k i c → Goes k i st
    ends : (c : Child) → st ≡ closes c → AtEof k i c → Goes k i st

  module _ (fits : size ≤ max_buf) (pos : 0 < size) (short : length file + 2 < u32_mod) where
    send_eof-AtEof :
        (k i : ℕ) (c : Child)
        → Idle k i c
        → rest_of size file k ≡ []
        → AtEof k i (send_eof e in_cksum c (suc k))
    unfolding send_eof
    send_eof-AtEof k i c v last =
        let eof = create_pdu e in_cksum (stack_array 7) (suc k) 10 [] in
        let wired : datagram eof ≡ wire e in_cksum (suc k) 10 [] =
          create_pdu-wire e in_cksum (stack_array 7) (suc k) 10 []
            (omega (arith, length-stack_array 7)) in
        record {
          last = last;
          counted = omega (arith, v.counted);
          number = refl;
          logged =
              append-IsLast c.sent _ c.client_addr i (wire e in_cksum (suc k) 10 []) v.logged
                (ap (λ b. c.sent ++ (record { target = c.client_addr; bytes = b } ∷ [])) wired);
        }

    -- An idle sender with a window sends the next chunk, or the EOF behind the last one.
    pub next_poll-Goes :
        (k i : ℕ) (c : Child)
        → Idle k i c
        → (st : SenderState) × (next_poll e in_cksum (suc k) (fill e in_cksum c (suc k)) ≡ some st)
          × Goes k i st
    next_poll-Goes k i c v =
        go (fill e in_cksum c (suc k))
          (fill-Filled e in_cksum size file fits (suc k) k c pos (omega (arith, v.counted, short))
            v.sending)
          (fill-size e in_cksum c (suc k))
      where
        go :
            (next : Next)
            → Filled e in_cksum size file fits (suc k) k c next
            → KeepsNext c next
            → (st : SenderState) × (next_poll e in_cksum (suc k) next ≡ some st) × Goes k i st
        go next (window_full eq at) kept =
            let h = v.sending.holds in absurd (ground (arith, h.size, h.nonempty, at))
        go next (file_end eq last) kept =
            let c' = send_eof e in_cksum c (suc k) in
            (closes c', rw eq refl, ends c' refl (send_eof-AtEof k i c v last))
        go next (chunk_sent c' eq s more log) kept =
            let (same, array, _, _) = rw eq at kept in
            (
              polls sent c' (suc (suc k)) 0,
              rw eq refl,
              sends c' refl (record {
                sending = s;
                more = more;
                counted = v.counted;
                store = omega (arith, v.store, ap length array);
                logged =
                    append-IsLast c.sent c'.sent c.client_addr i
                      (content e in_cksum size file (suc k)) v.logged log;
              }),
            )
