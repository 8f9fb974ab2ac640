-- ===== src/Receiver/Progress.antt =====
-- Workspace/rcopy.c: the cases of the `switch` on a data packet and the receiver's invariant.
use native.Mathlib.Decide.{ℕ_discrete}
use remote_file_copy_udp_pro.Base.{
  ℕ, suc, ◌+◌, ◌%◌, ◌≤◌, ◌<◌, ◌≡◌, refl, sym, ap, subst, true, false, Option, some, List, arith,
  Bool-cases, inl, inr, ltb, leb, ◌==◌, ==_iff, u32_mod, Endian, get_elem?,
}
use remote_file_copy_udp_pro.Pdu.{Received, seq_num}
use remote_file_copy_udp_pro.Receiver.Flush.{Flushed, flush_buffer-Inv}
use remote_file_copy_udp_pro.Receiver.Invariant.{Inv, slot_found}
use remote_file_copy_udp_pro.Receiver.State.{
  TransferState, in_order, out_of_order, flush, PacketEntry, ReceiveInfo,
}
use remote_file_copy_udp_pro.Receiver.Step.{
  Ready, Genuine, relabel-Inv, raise_low-Inv, take_expected-Inv,
}
use remote_file_copy_udp_pro.Receiver.Store.{buffer_packet-Inv}
use remote_file_copy_udp_pro.Receiver.Transfer.{
  raise_highest, take_expected, send_rr, send_srej, in_order_expected, in_order_ahead, on_in_order,
  out_of_order_expected, out_of_order_ahead, on_out_of_order, after_flush, on_flush, on_data,
}

module _ (e : Endian) (in_cksum : List ℕ → ℕ) (chunk : ℕ → List ℕ) (n : ℕ)
    (short : n + 1 < u32_mod) where
  -- What a step has come to, with the invariant there.
  abbrev pub Stepped : (r : Option (TransferState × ReceiveInfo)) → Type 0
  Stepped r = (s : TransferState) × (i : ReceiveInfo) × (r ≡ some (s, i)) × Ready chunk n s i

  in_order_expected-Ready :
      (info : ReceiveInfo) (d : Received)
      → Ready chunk n in_order info
      → Genuine chunk n info d
      → seq_num d ≡ info.expected
      → Stepped (in_order_expected e in_cksum info d)
  unfolding in_order_expected
  in_order_expected-Ready info d r g here =
      let info' : ReceiveInfo = record (take_expected info (chunk info.expected)) {
        highest = info.expected;
      } in
      let v =
        take_expected-Inv chunk n r.k info.expected info short r.inv (omega (arith, r.calm))
          (omega (arith, g.in_file, here)) (omega (arith, g.in_file, here)) in
      let next : info'.expected ≡ info.expected + 1 = omega (arith, g.in_file, here) in
      (
        in_order,
        send_rr e in_cksum info' info'.expected,
        rw (g.payload, here) refl,
        record {
          k = suc r.k;
          inv =
              relabel-Inv chunk n (suc r.k) (suc info'.expected) info' info.server_addr info.eof_seq
                _
                (raise_low-Inv chunk n (suc r.k) _ _ info' v
                  λ i x e c u. absurd (omega (arith, c.above, c.below, next)));
          calm = omega (arith, next);
        },
      )

  in_order_ahead-Ready :
      (info : ReceiveInfo) (d : Received)
      → Ready chunk n in_order info
      → Genuine chunk n info d
      → info.expected < seq_num d
      → Stepped (in_order_ahead e in_cksum info d)
  unfolding in_order_ahead
  in_order_ahead-Ready info d r g ahead =
      let (info', eq, v, same) =
        buffer_packet-Inv chunk n r.k (suc info.expected) info r.inv (seq_num d) ahead g.in_window
          g.in_file g.small in
      let raised = raise_highest info' (seq_num d) in
      (
        out_of_order,
        send_srej e in_cksum raised raised.expected,
        rw (g.payload, eq) refl,
        record {
          k = r.k;
          inv =
              relabel-Inv chunk n r.k (suc raised.expected) raised raised.server_addr raised.eof_seq
                _ (subst (λ t. Inv chunk n r.k (suc t) raised) (sym same) v);
          calm = tt;
        },
      )

  out_of_order_ahead-Ready :
      (info : ReceiveInfo) (d : Received)
      → Ready chunk n out_of_order info
      → Genuine chunk n info d
      → info.expected < seq_num d
      → Stepped (out_of_order_ahead e in_cksum info d)
  unfolding out_of_order_ahead
  out_of_order_ahead-Ready info d r g ahead =
      let (info', eq, v, same) =
        buffer_packet-Inv chunk n r.k (suc info.expected) info r.inv (seq_num d) ahead g.in_window
          g.in_file g.small in
      let raised = raise_highest info' (seq_num d) in
      (
        out_of_order,
        raised,
        rw (g.payload, eq) refl,
        record {
          k = r.k;
          inv = subst (λ t. Inv chunk n r.k (suc t) raised) (sym same) v;
          calm = tt;
        },
      )

  out_of_order_expected-Ready :
      (info : ReceiveInfo) (d : Received)
      → Ready chunk n out_of_order info
      → Genuine chunk n info d
      → seq_num d ≡ info.expected
      → Stepped (out_of_order_expected e in_cksum info d)
  unfolding out_of_order_expected
  out_of_order_expected-Ready info d r g here =
      let info' = take_expected info (chunk info.expected) in
      let v =
        take_expected-Inv chunk n r.k info.highest info short r.inv (omega arith) r.inv.high
          (omega (arith, g.in_file, here)) in
      (
        flush,
        send_rr e in_cksum info' info'.expected,
        rw (g.payload, here) refl,
        record {
          k = suc r.k;
          inv =
              relabel-Inv chunk n (suc r.k) info'.expected info' info.server_addr info.eof_seq _ v;
          calm = tt;
        },
      )

  -- What stands behind the flush loop.
  after_flush-Ready :
      (k : ℕ) (info : ReceiveInfo)
      → Inv chunk n k info.expected info
      → Flushed chunk n short info
      → Stepped (after_flush e in_cksum info)
  unfolding after_flush
  after_flush-Ready k info v stop = elim (Bool-cases (leb info.expected info.highest)) [
    | inl more ↦
        let (x, found) = slot_found chunk n k info.expected info v info.expected in
        let free : x.valid ≡ false = ground (arith, stop) in
        (
          out_of_order,
          send_srej e in_cksum info info.expected,
          ground (arith, v.nonempty),
          record {
            k = k;
            inv = relabel-Inv chunk n k (suc info.expected) info info.server_addr info.eof_seq _ (
                raise_low-Inv chunk n k _ _ info v
                  λ i y eq c used. apart i y eq used c.seq c.at_index c.above x found free);
            calm = tt;
          },
        )
    | inr none_left ↦ (
      in_order,
      send_rr e in_cksum info info.expected,
      rw none_left refl,
      record {
        k = k;
        inv = relabel-Inv chunk n k (suc info.expected) info info.server_addr info.eof_seq _ (
            raise_low-Inv chunk n k _ _ info v
              λ i y eq c used. absurd (ground (arith, c.above, c.below)));
        calm = ground arith;
      },
    )
  ]
    where
      apart :
          (i : ℕ) (y : PacketEntry)
          → get_elem? info.buffer i ≡ some y
          → y.valid ≡ true
          → (t : ℕ) → t % info.window_size ≡ i
          → info.expected ≤ t
          → (x : PacketEntry) → get_elem? info.buffer (info.expected % info.window_size) ≡ some x
          → x.valid ≡ false
          → suc info.expected ≤ t
      apart i y eq used t at le x found free = elim (ℕ_discrete info.expected t) [
        | yes same ↦ absurd (
            ground (
              arith,
              ap (λ m. get_elem? info.buffer (m % info.window_size)) same,
              ap (get_elem? info.buffer) at,
            ))
        | no ne ↦ omega arith
      ]

  on_flush-Ready :
      (info : ReceiveInfo) → Ready chunk n flush info → Stepped (on_flush e in_cksum info)
  unfolding on_flush
  on_flush-Ready info r =
      let (k', info', eq, v, stop) = flush_buffer-Inv chunk n short r.k info r.inv in
      rw eq (after_flush-Ready k' info' v stop)

  on_in_order-Ready :
      (info : ReceiveInfo) (d : Received)
      → Ready chunk n in_order info
      → Genuine chunk n info d
      → Stepped (on_in_order e in_cksum info d)
  unfolding on_in_order
  on_in_order-Ready info d r g = elim (Bool-cases (seq_num d == info.expected)) [
    | inl here ↦
        rw here (in_order_expected-Ready info d r g ((==_iff (seq_num d) info.expected).0 here))
    | inr other ↦ elim (Bool-cases (ltb info.expected (seq_num d))) [
      | inl ahead ↦ rw (other, ahead) (in_order_ahead-Ready info d r g (ground arith))
      | inr old ↦ (in_order, info, rw (other, old) refl, r)
    ]
  ]

  on_out_of_order-Ready :
      (info : ReceiveInfo) (d : Received)
      → Ready chunk n out_of_order info
      → Genuine chunk n info d
      → Stepped (on_out_of_order e in_cksum info d)
  unfolding on_out_of_order
  on_out_of_order-Ready info d r g = elim (Bool-cases (seq_num d == info.expected)) [
    | inl here ↦
        rw here (out_of_order_expected-Ready info d r g ((==_iff (seq_num d) info.expected).0 here))
    | inr other ↦ elim (Bool-cases (ltb info.expected (seq_num d))) [
      | inl ahead ↦ rw (other, ahead) (out_of_order_ahead-Ready info d r g (ground arith))
      | inr old ↦ (out_of_order, info, rw (other, old) refl, r)
    ]
  ]

  -- On a receiver whose invariant holds, a data packet of the file and of the window, in whatever
  -- of the three states it arrives, causes no fault and leads to a state whose invariant holds
  -- again, if the file has fewer than 2^32 - 1 chunks.
  pub on_data-Ready :
      (state : TransferState) (info : ReceiveInfo) (d : Received)
      → Ready chunk n state info
      → Genuine chunk n info d
      → Stepped (on_data e in_cksum state info d)
  unfolding on_data
  on_data-Ready in_order info d r g = on_in_order-Ready info d r g
  on_data-Ready out_of_order info d r g = on_out_of_order-Ready info d r g
  on_data-Ready flush info d r g = on_flush-Ready info r
