-- ===== src/System/Receiver.antt =====
-- Workspace/rcopy.c: what one datagram changes of the receiver, and what the receiver answers.
use remote_file_copy_udp_pro.Base.{
  ℕ, ◌+◌, ◌≤◌, ◌<◌, ◌≡◌, refl, ap, ◌∙◌, ◌⊎◌, inl, inr, Bool, true, false, Option, none, some, List,
  [], ◌∷◌, ◌++◌, length, arith, ◌>>=◌, ltb, leb, ◌==◌, if◌then◌else◌, Bool-cases, Option-cases,
  Endian, u32_mod,
}
use remote_file_copy_udp_pro.Pdu.Wire.{wire, create_pdu-wire}
use remote_file_copy_udp_pro.Pdu.{
  flag_of, datagram, create_pdu, stack_array, length-stack_array, Received, seq_num, payload_of,
  rr_pdu, srej_pdu,
}
use remote_file_copy_udp_pro.Receiver.{
  TransferState, in_order, out_of_order, flush, ReceiveInfo, buffer_packet, slot, flush_buffer,
  raise_highest, in_order_expected, in_order_ahead, on_in_order, out_of_order_expected,
  out_of_order_ahead, on_out_of_order, after_flush, on_flush, on_data, flush_rounds, send_srej,
  on_eof, on_packet, is_data, send_eof_ack_state,
}
use remote_file_copy_udp_pro.System.Moves.{
  Moves, Flushes, flush_rounds-Flushes, Buffers, buffer_packet-Buffers,
}

module _ (e : Endian) (in_cksum : List ℕ → ℕ) where
  -- What is sent: nothing, an RR for the packet that is expected, or an SREJ for it where a later one
  -- has come.
  abbrev pub Replies : ReceiveInfo → ReceiveInfo → Type 0
  Replies info info' =
      (info'.sent ≡ info.sent)
      ⊎ ((target : ℕ) × (bytes : List ℕ) × (info'.sent
            ≡ info.sent ++ (record { target = target; bytes = bytes } ∷ []))
          × ((bytes ≡ rr_pdu e in_cksum info'.expected)
              ⊎ ((bytes ≡ srej_pdu e in_cksum info'.expected) × (info'.expected ≤ info'.highest))))

  abbrev pub Told : ReceiveInfo → Option (TransferState × ReceiveInfo) → Type 0
  Told info none = Unit
  Told info (some (state, info')) = Moves info info' × Replies info info'

  module _ (info : ReceiveInfo) (d : Received) (small : info.expected + 1 < u32_mod) where
    in_order_expected-Told : Told info (in_order_expected e in_cksum info d)
    unfolding in_order_expected
    in_order_expected-Told = elim (Option-cases (payload_of d)) [
      | inl fault ↦ rw fault tt
      | inr (payload, taken) ↦
          rw taken ((refl, omega (arith, small)), inr (info.server_addr, _, refl, inl refl))
    ]

    out_of_order_expected-Told : Told info (out_of_order_expected e in_cksum info d)
    unfolding out_of_order_expected
    out_of_order_expected-Told = elim (Option-cases (payload_of d)) [
      | inl fault ↦ rw fault tt
      | inr (payload, taken) ↦
          rw taken ((refl, omega (arith, small)), inr (info.server_addr, _, refl, inl refl))
    ]

    in_order_ahead-Told : info.expected < seq_num d → Told info (in_order_ahead e in_cksum info d)
    unfolding in_order_ahead
    in_order_ahead-Told ahead = elim (Option-cases (payload_of d)) [
      | inl fault ↦ rw fault tt
      | inr (payload, taken) ↦ rw taken (
          go (buffer_packet info (seq_num d) payload)
            (buffer_packet-Buffers info (seq_num d) payload))
    ]
      where
        go :
            (o : Option ReceiveInfo)
            → Buffers info o
            → Told info (
                o >>= λ info'. some (
                  out_of_order,
                  send_srej e in_cksum
                      (raise_highest info' (seq_num d))
                      (raise_highest info' (seq_num d)).expected,
                ))
        go none kept = tt
        go (some info') (window, next, sent) = (
          (window, omega (arith, next)),
          inr (
            info'.server_addr,
            srej_pdu e in_cksum info'.expected,
            ap
                (λ xs.
                  xs
                  ++ (record {
                    target = info'.server_addr;
                    bytes = srej_pdu e in_cksum info'.expected;
                  }
                      ∷ []))
                sent,
            inr (refl, ground (arith, next, ahead)),
          ),
        )

    out_of_order_ahead-Told : Told info (out_of_order_ahead e in_cksum info d)
    unfolding out_of_order_ahead
    out_of_order_ahead-Told = elim (Option-cases (payload_of d)) [
      | inl fault ↦ rw fault tt
      | inr (payload, taken) ↦ rw taken (
          go (buffer_packet info (seq_num d) payload)
            (buffer_packet-Buffers info (seq_num d) payload))
    ]
      where
        go :
            (o : Option ReceiveInfo)
            → Buffers info o
            → Told info (o >>= λ info'. some (out_of_order, raise_highest info' (seq_num d)))
        go none kept = tt
        go (some info') (window, next, sent) = ((window, omega (arith, next)), inl sent)

    on_in_order-Told : Told info (on_in_order e in_cksum info d)
    unfolding on_in_order
    on_in_order-Told = elim (Bool-cases (seq_num d == info.expected)) [
      | inl here ↦ rw here in_order_expected-Told
      | inr other ↦ elim (Bool-cases (ltb info.expected (seq_num d))) [
        | inl ahead ↦ rw (other, ahead) (in_order_ahead-Told (ground arith))
        | inr old ↦ rw (other, old) ((refl, omega arith), inl refl)
      ]
    ]

    on_out_of_order-Told : Told info (on_out_of_order e in_cksum info d)
    unfolding on_out_of_order
    on_out_of_order-Told = elim (Bool-cases (seq_num d == info.expected)) [
      | inl here ↦ rw here out_of_order_expected-Told
      | inr other ↦ elim (Bool-cases (ltb info.expected (seq_num d))) [
        | inl ahead ↦ rw (other, ahead) out_of_order_ahead-Told
        | inr old ↦ rw (other, old) ((refl, omega arith), inl refl)
      ]
    ]

  -- Behind the flush.
  after_flush-Told : (info : ReceiveInfo) → Told info (after_flush e in_cksum info)
  unfolding after_flush
  after_flush-Told info = elim (Bool-cases (leb info.expected info.highest)) [
    | inl more ↦ elim (Option-cases (slot info info.expected)) [
      | inl fault ↦ rw (more, fault) tt
      | inr (entry, found) ↦ elim (Bool-cases entry.valid) [
        | inl used ↦ rw (more, found, used) ((refl, omega arith), inl refl)
        | inr unused ↦
            rw (more, found, unused)
              ((refl, omega arith), inr (info.server_addr, _, refl, inr (refl, ground arith)))
      ]
    ]
    | inr none_left ↦ rw none_left ((refl, omega arith), inr (info.server_addr, _, refl, inl refl))
  ]

  on_flush-Told :
      (info : ReceiveInfo) → info.highest + 1 < u32_mod → Told info (on_flush e in_cksum info)
  unfolding on_flush flush_buffer
  on_flush-Told info short =
      go (flush_rounds (length info.buffer) info)
        (flush_rounds-Flushes (length info.buffer) info short)
    where
      chained :
          (info' : ReceiveInfo) (r : Option (TransferState × ReceiveInfo))
          → Moves info info'
          → info'.sent ≡ info.sent
          → Told info' r
          → Told info r
      chained info' none moves sent told = tt
      chained info' (some (state, info'')) moves sent (moves', inl same) =
          ((moves'.0 ∙ moves.0, omega (arith, moves.1, moves'.1)), inl (same ∙ sent))
      chained info' (some (state, info'')) moves sent (moves', inr (target, bytes, more, what)) = (
        (moves'.0 ∙ moves.0, omega (arith, moves.1, moves'.1)),
        inr (
          target,
          bytes,
          more ∙ ap (λ xs. xs ++ (record { target = target; bytes = bytes } ∷ [])) sent,
          what,
        ),
      )

      go :
          (o : Option ReceiveInfo)
          → Flushes info o
          → Told info (o >>= λ info'. after_flush e in_cksum info')
      go none flushed = tt
      go (some info') (moves, sent, high) =
          chained info' (after_flush e in_cksum info') moves sent (after_flush-Told info')

  -- A data packet, in whatever state.
  pub on_data-Told :
      (state : TransferState) (info : ReceiveInfo) (d : Received)
      → info.expected + 1 < u32_mod
      → info.highest + 1 < u32_mod
      → Told info (on_data e in_cksum state info d)
  unfolding on_data
  on_data-Told in_order info d small short = on_in_order-Told info d small
  on_data-Told out_of_order info d small short = on_out_of_order-Told info d small
  on_data-Told flush info d small short = on_flush-Told info short

  -- The acknowledgement of an EOF.
  abbrev pub AnswersEof : ℕ → ReceiveInfo → ReceiveInfo → Type 0
  AnswersEof s info info' =
      (target : ℕ) × (info'.sent
        ≡ info.sent ++ (record { target = target; bytes = wire e in_cksum s 35 [] } ∷ []))

  abbrev pub PacketTold : ℕ → ReceiveInfo → Option (Bool × TransferState × ReceiveInfo) → Type 0
  PacketTold s info none = Unit
  PacketTold s info (some (is_done, state, info')) =
      Moves info info' × (if is_done then AnswersEof s info info' else Replies info info')

  on_eof-Told :
      (state : TransferState) (info : ReceiveInfo) (d : Received)
      → info.highest + 1 < u32_mod
      → PacketTold
          (seq_num d)
          info
          (on_eof e in_cksum info d >>= λ info'. some (true, state, info'))
  unfolding on_eof flush_buffer send_eof_ack_state
  on_eof-Told state info d short =
      let marked : ReceiveInfo = record info { eof_seq = seq_num d } in
      go (flush_rounds (length info.buffer) marked)
        (flush_rounds-Flushes (length info.buffer) marked short)
    where
      go :
          (o : Option ReceiveInfo)
          → Flushes (record info { eof_seq = seq_num d }) o
          → PacketTold (seq_num d) info (
              (o >>= λ info'. some (send_eof_ack_state e in_cksum info' (seq_num d))) >>= λ info'.
              some (true, state, info'))
      go none flushed = tt
      go (some info') (moves, sent, high) = (
        moves,
        (
          info'.server_addr,
          ap
                (λ xs.
                  xs
                  ++ (record {
                    target = info'.server_addr;
                    bytes = datagram (create_pdu e in_cksum (stack_array 7) (seq_num d) 35 []);
                  }
                      ∷ []))
                sent
              ∙ ap
                  (λ bytes.
                    info.sent ++ (record { target = info'.server_addr; bytes = bytes } ∷ []))
                  (create_pdu-wire e in_cksum (stack_array 7) (seq_num d) 35 []
                    (omega (arith, length-stack_array 7))),
        ),
      )

  -- One datagram.
  pub on_packet-Told :
      (state : TransferState) (info : ReceiveInfo) (d : Received)
      → info.expected + 1 < u32_mod
      → info.highest + 1 < u32_mod
      → PacketTold (seq_num d) info (on_packet e in_cksum state info d)
  unfolding on_packet
  on_packet-Told state info d small short = elim (Bool-cases (flag_of d == 10)) [
    | inl eof ↦ rw eof (on_eof-Told state info d short)
    | inr other ↦ elim (Bool-cases (is_data (flag_of d))) [
      | inl carries ↦
          rw (other, carries)
            (go (on_data e in_cksum state info d) (on_data-Told state info d small short))
      | inr ignored ↦ rw (other, ignored) ((refl, omega arith), inl refl)
    ]
  ]
    where
      go :
          (r : Option (TransferState × ReceiveInfo))
          → Told info r
          → PacketTold (seq_num d) info (r >>= λ r. some (false, r.0, r.1))
      go none told = tt
      go (some (state', info')) told = told
