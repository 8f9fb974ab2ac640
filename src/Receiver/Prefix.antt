-- ===== src/Receiver/Prefix.antt =====
-- Workspace/rcopy.c: the file that `process_transfer_state` writes, against the sender's.
use remote_file_copy_udp_pro.Base.{
  ℕ, suc, ◌+◌, ◌≤◌, ◌<◌, ◌≡◌, refl, ap, ◌∙◌, Bool, true, false, none, some, List, [], ◌∷◌, arith,
  Bool-cases, inl, inr, Endian, u32_mod, if◌then◌else◌, length-replicate, get_elem?-replicate_eq,
  length, ◌==◌,
}
use remote_file_copy_udp_pro.Net.{Event, timeout, ready, failure, recv_from}
use remote_file_copy_udp_pro.Pdu.{Received, seq_num, flag_of, max_buf}
use remote_file_copy_udp_pro.Receiver.Flush.{flush_buffer-Inv}
use remote_file_copy_udp_pro.Receiver.Invariant.{chunks, Inv}
use remote_file_copy_udp_pro.Receiver.Progress.{on_data-Ready}
use remote_file_copy_udp_pro.Receiver.State.{
  TransferState, in_order, out_of_order, flush, PacketEntry, ReceiveInfo,
}
use remote_file_copy_udp_pro.Receiver.Step.{Ready, Genuine, relabel-Inv, raise_low-Inv}
use remote_file_copy_udp_pro.Receiver.Transfer.{
  TransferOutcome, finished, waits, exits, faults, is_data, on_eof, on_packet,
  process_transfer_state, wait_on_data_state, new_info, zero_packet, send_eof_ack_state,
}

-- The output file holds the first chunks, and the next one is expected.
pub record HasPrefix (chunk : ℕ → List ℕ) (n : ℕ) (info : ReceiveInfo) : Type 0 where
  pub k : ℕ
  pub within : k ≤ n
  pub file : info.out_file ≡ chunks chunk k
  pub next : info.expected ≡ suc k

module _ (e : Endian) (in_cksum : List ℕ → ℕ) (chunk : ℕ → List ℕ) (n : ℕ) where
  -- Every data packet of the run carries the chunk of its number, within the window of that moment.
  unfoldable pub FromFile : TransferState → ReceiveInfo → List Event → Type 0
  FromFile state info [] = Unit
  FromFile state info (timeout ∷ es) = FromFile state info es
  FromFile state info (failure ∷ es) = Unit
  FromFile state info (ready a ∷ es) =
      let d = recv_from (max_buf + 7) a in
      let info' : ReceiveInfo = record info { server_addr = d.source } in
      (is_data (flag_of d) ≡ true → Genuine chunk n info' d)
      × (elim (on_packet e in_cksum state info' d) [
        | none ↦ Unit
        | some (is_done, state', info'') ↦ FromFile state' info'' es
      ])

  -- What is claimed of the outcome.
  pub IsPrefix : TransferOutcome → Type 0
  IsPrefix (finished info) = HasPrefix chunk n info
  IsPrefix (waits state info) = HasPrefix chunk n info
  IsPrefix (exits info) = HasPrefix chunk n info
  IsPrefix (faults info) = ⊥

  pub Ready-HasPrefix :
      {state : TransferState} {info : ReceiveInfo}
      → Ready chunk n state info
      → HasPrefix chunk n info
  Ready-HasPrefix r = record {
    k = r.k;
    within = r.inv.within;
    file = r.inv.file;
    next = r.inv.next;
  }

  -- In every state no used slot is below the next chunk.
  Ready-Inv :
      (state : TransferState) (info : ReceiveInfo) (r : Ready chunk n state info)
      → Inv chunk n r.k info.expected info
  Ready-Inv in_order info r =
      raise_low-Inv chunk n r.k _ _ info r.inv λ i x eq c used. omega (arith, c.above)
  Ready-Inv out_of_order info r =
      raise_low-Inv chunk n r.k _ _ info r.inv λ i x eq c used. omega (arith, c.above)
  Ready-Inv flush info r = r.inv

  -- The address of a datagram is not part of the invariant.
  pub Ready-relabel :
      (state : TransferState) (info : ReceiveInfo) (addr : ℕ)
      → Ready chunk n state info
      → Ready chunk n state (record info { server_addr = addr })
  Ready-relabel in_order info addr r = record {
    k = r.k;
    inv = relabel-Inv chunk n r.k _ info addr info.eof_seq info.sent r.inv;
    calm = r.calm;
  }
  Ready-relabel out_of_order info addr r = record {
    k = r.k;
    inv = relabel-Inv chunk n r.k _ info addr info.eof_seq info.sent r.inv;
    calm = tt;
  }
  Ready-relabel flush info addr r = record {
    k = r.k;
    inv = relabel-Inv chunk n r.k _ info addr info.eof_seq info.sent r.inv;
    calm = tt;
  }

  module _ (short : n + 1 < u32_mod) where
    -- An EOF flushes the buffer, and the file keeps a prefix.
    on_eof-HasPrefix :
        (state : TransferState) (info : ReceiveInfo) (d : Received)
        → Ready chunk n state info
        → (info' : ReceiveInfo) × (on_eof e in_cksum info d ≡ some info') × HasPrefix chunk n info'
    unfolding on_eof
    on_eof-HasPrefix state info d r =
        let marked : ReceiveInfo = record info { eof_seq = seq_num d } in
        let v =
          relabel-Inv chunk n r.k _ info info.server_addr (seq_num d) info.sent
            (Ready-Inv state info r) in
        let (k', info', eq, v', stop) = flush_buffer-Inv chunk n short r.k marked v in
        (
          send_eof_ack_state e in_cksum info' (seq_num d),
          rw eq refl,
          unfold send_eof_ack_state in
              record { k = k'; within = v'.within; file = v'.file; next = v'.next },
        )

    -- One datagram: the end with a prefix written, or the next state with the invariant.
    pub on_packet-Ready :
        (state : TransferState) (info : ReceiveInfo) (d : Received)
        → Ready chunk n state info
        → (is_data (flag_of d) ≡ true → Genuine chunk n info d)
        → (is_done : Bool) × (state' : TransferState) × (info' : ReceiveInfo) × (on_packet e
              in_cksum state info d
            ≡ some (is_done, state', info'))
          × (if is_done then HasPrefix chunk n info' else Ready chunk n state' info')
    unfolding on_packet
    on_packet-Ready state info d r g = elim (Bool-cases (flag_of d == 10)) [
      | inl eof ↦
          let (info', eq, p) = on_eof-HasPrefix state info d r in
          (true, state, info', rw (eof, eq) refl, p)
      | inr other ↦ elim (Bool-cases (is_data (flag_of d))) [
        | inl carries ↦
            let (state', info', eq, next) =
              on_data-Ready e in_cksum chunk n short state info d r (g carries) in
            (false, state', info', rw (other, carries, eq) refl, next)
        | inr ignored ↦ (false, state, info, rw (other, ignored) refl, r)
      ]
    ]

    -- The packets of a run come from the file, so from a ready state the run keeps to a prefix.
    pub process_transfer-IsPrefix :
        (state : TransferState) (info : ReceiveInfo) (es : List Event)
        → Ready chunk n state info
        → FromFile state info es
        → IsPrefix (process_transfer_state e in_cksum state info es)
    unfolding process_transfer_state FromFile IsPrefix
    process_transfer-IsPrefix state info [] r f = Ready-HasPrefix r
    process_transfer-IsPrefix state info (timeout ∷ es) r f =
        process_transfer-IsPrefix state info es r f
    process_transfer-IsPrefix state info (failure ∷ es) r f = Ready-HasPrefix r
    process_transfer-IsPrefix state info (ready a ∷ es) r f =
        let d = recv_from (max_buf + 7) a in
        let at : ReceiveInfo = record info { server_addr = d.source } in
        let (is_done, state', info', eq, next) =
          on_packet-Ready state at d (Ready-relabel state info d.source r) f.0 in
        rw (eq, IsPrefix, process_transfer_state)
          (go (λ s i. process_transfer-IsPrefix s i es) is_done state' info' next (rw eq at f.1))
      where
        go :
            ((s : TransferState) (i : ReceiveInfo)
              → Ready chunk n s i
              → FromFile s i es
              → IsPrefix (process_transfer_state e in_cksum s i es))
            → (is_done : Bool) (state' : TransferState) (info' : ReceiveInfo)
            → (if is_done then HasPrefix chunk n info' else Ready chunk n state' info')
            → FromFile state' info' es
            → IsPrefix (
                if is_done
                then finished info'
                else process_transfer_state e in_cksum state' info' es)
        go ih true state' info' p rest = p
        go ih false state' info' r' rest = ih state' info' r' rest

    -- What `wait_on_data_state` starts with.
    pub new_info-Inv :
        (window_size socket_num server_addr : ℕ)
        → 0 < window_size
        → Inv chunk n 0 2 (new_info window_size socket_num server_addr)
    unfolding new_info
    new_info-Inv window_size socket_num server_addr pos = record {
      nonempty = pos;
      sized = length-replicate window_size zero_packet;
      arrays = λ i x e.
          ap (λ (y : PacketEntry). length y.packet)
            (get_elem?-replicate_eq window_size i zero_packet e)
          ∙ length-replicate {A = ℕ} max_buf 0;
      next = refl;
      within = omega arith;
      high = omega arith;
      file = refl;
      slots = λ i x e used. cc (get_elem?-replicate_eq window_size i zero_packet e);
    }

    pub new_info-Ready :
        (window_size socket_num server_addr : ℕ)
        → 0 < window_size
        → Ready chunk n in_order (new_info window_size socket_num server_addr)
    unfolding new_info
    new_info-Ready window_size socket_num server_addr pos = record {
      k = 0;
      inv = new_info-Inv window_size socket_num server_addr pos;
      calm = omega arith;
    }

    -- If every data packet that arrives carries the chunk of its number, a number of the file and
    -- of the receiver's window at that moment, the window size is positive and the file has fewer
    -- than 2^32 - 1 chunks, then the client never faults, and whenever it is done, waits or exits,
    -- its output file consists of the first chunks of the file in order, and it expects the next.
    pub wait_on_data-IsPrefix :
        (window_size socket_num server_addr : ℕ) (es : List Event)
        → 0 < window_size
        → FromFile in_order (new_info window_size socket_num server_addr) es
        → (t : TransferOutcome) × (wait_on_data_state e in_cksum true window_size socket_num
              server_addr es
            ≡ some t)
          × IsPrefix t
    unfolding wait_on_data_state
    wait_on_data-IsPrefix window_size socket_num server_addr es pos f = (
      process_transfer_state e in_cksum in_order (new_info window_size socket_num server_addr) es,
      refl,
      process_transfer-IsPrefix in_order (new_info window_size socket_num server_addr) es
          (new_info-Ready window_size socket_num server_addr pos) f,
    )
