-- ===== src/Receiver/Truncated.antt =====
-- Workspace/rcopy.c: an EOF that overtakes missing packets.
use remote_file_copy_udp_pro.Base.{
  ℕ, suc, ◌%◌, ◌≡◌, refl, sym, true, false, some, List, [], ◌∷◌, ◌++◌, arith, Bool-cases, inl, inr,
  Endian, length, get_elem?, zero,
}
use remote_file_copy_udp_pro.Pdu.{Received, seq_num, flag_of, stack_array, length-stack_array}
use remote_file_copy_udp_pro.CircularQueue.Window.{mod-ne}
use remote_file_copy_udp_pro.Pdu.Wire.{wire, create_pdu-wire}
use remote_file_copy_udp_pro.Receiver.Buffer.{flush_rounds, flush_buffer}
use remote_file_copy_udp_pro.Receiver.Invariant.{chunks, Inv, slot_found}
use remote_file_copy_udp_pro.Receiver.State.{TransferState, PacketEntry, ReceiveInfo}
use remote_file_copy_udp_pro.Receiver.Step.{relabel-Inv}
use remote_file_copy_udp_pro.Receiver.Transfer.{on_packet, send_eof_ack_state}

module _ (chunk : ℕ → List ℕ) (n k : ℕ) (info : ReceiveInfo)
    (v : Inv chunk n k (suc info.expected) info) where
  -- The next packet is not in the buffer, so its slot is free, and nothing can be flushed.
  next_slot_free :
      (x : PacketEntry)
      → get_elem? info.buffer (info.expected % info.window_size) ≡ some x
      → x.valid ≡ false
  next_slot_free x found = elim (Bool-cases x.valid) [
    | inl used ↦
        let c = v.slots _ x found used in
        absurd (
          mod-ne info.window_size info.expected c.seq c.above (omega (arith, c.near, c.above))
            (sym c.at_index))
    | inr free ↦ free
  ]

  flush_rounds-none : (fuel : ℕ) → flush_rounds fuel info ≡ some info
  unfolding flush_rounds
  flush_rounds-none zero = refl
  flush_rounds-none (suc fuel) =
      let (x, found) = slot_found chunk n k _ info v info.expected in
      ground (arith, v.nonempty, next_slot_free x found)

-- While the receiver's invariant holds and the packet that it expects is neither written nor
-- buffered, an EOF of any number ends the transfer: nothing more is written, so the file is the
-- first `k` of its `n` chunks, and the EOF is acknowledged.
pub on_eof-truncates :
    (e : Endian) (in_cksum : List ℕ → ℕ) (chunk : ℕ → List ℕ) (n k : ℕ) (state : TransferState)
    (info : ReceiveInfo) (d : Received)
    → Inv chunk n k (suc info.expected) info
    → flag_of d ≡ 10
    → (info' : ReceiveInfo) × (on_packet e in_cksum state info d ≡ some (true, state, info'))
      × (info'.out_file ≡ chunks chunk k)
      × (info'.sent
          ≡ info.sent
            ++ (record { target = info.server_addr; bytes = wire e in_cksum (seq_num d) 35 [] }
                ∷ []))
unfolding on_packet flush_buffer
on_eof-truncates e in_cksum chunk n k state info d v eof =
    let marked : ReceiveInfo = record info { eof_seq = seq_num d } in
    let v' = relabel-Inv chunk n k _ info info.server_addr (seq_num d) info.sent v in
    let none_flushed = flush_rounds-none chunk n k marked v' (length info.buffer) in
    (
      send_eof_ack_state e in_cksum marked (seq_num d),
      rw (eof, none_flushed) refl,
      unfold send_eof_ack_state in v.file,
      rw
          (create_pdu-wire e in_cksum (stack_array 7) (seq_num d) 35 []
            (omega (arith, length-stack_array 7)))
          refl,
    )
