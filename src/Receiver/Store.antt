-- ===== src/Receiver/Store.antt =====
-- Workspace/functions.c: `buffer_packet` and the receiver's invariant.
use remote_file_copy_udp_pro.Base.{
  ℕ, ◌+◌, ◌%◌, ◌≤◌, ◌<◌, ◌≡◌, refl, ◌∙◌, true, some, List, length, get_elem?, memcpy, arith,
  length-set, length-memcpy, memcpy_front, take-append, Bool-cases, inl, inr,
}
use remote_file_copy_udp_pro.Pdu.{max_buf}
use remote_file_copy_udp_pro.Receiver.Buffer.{put_slot, buffer_packet}
use remote_file_copy_udp_pro.Receiver.Invariant.{Inv, slot_found, arrays-set, slots-set}
use remote_file_copy_udp_pro.Receiver.State.{PacketEntry, ReceiveInfo}
use remote_file_copy_udp_pro.Receiver.Transfer.{raise_highest}

module _ (chunk : ℕ → List ℕ) (n k low : ℕ) (info : ReceiveInfo) (v : Inv chunk n k low info)
    (seq : ℕ) where
  raised_above : info.highest ≤ (raise_highest info seq).highest
  raised_above = ground arith

  raised_seq : seq ≤ (raise_highest info seq).highest
  raised_seq = ground arith

  -- Raising `highest` to a number of the file keeps the invariant.
  raise_highest-Inv : seq ≤ n → Inv chunk n k low (raise_highest info seq)
  raise_highest-Inv in_file = record {
    nonempty = v.nonempty;
    sized = v.sized;
    arrays = v.arrays;
    next = v.next;
    within = v.within;
    high = ground (arith, v.high);
    file = v.file;
    slots = λ i x e used.
        let c = v.slots i x e used in
        record {
          seq = c.seq;
          at_index = c.at_index;
          above = c.above;
          below = omega (arith, c.below, raised_above);
          near = c.near;
          content = c.content;
        };
  }

  abbrev stored : PacketEntry → PacketEntry
  stored x = record {
    packet = memcpy x.packet 0 (chunk seq);
    packet_len = length (chunk seq);
    valid = true;
  }

  -- So does storing the chunk of that number, if it lies in the window.
  stored-Inv :
      (x : PacketEntry)
      → get_elem? info.buffer (seq % info.window_size) ≡ some x
      → low ≤ seq
      → seq < info.expected + info.window_size
      → seq ≤ n
      → length (chunk seq) ≤ max_buf
      → Inv chunk n k low (raise_highest (put_slot info seq (stored x)) seq)
  stored-Inv x found above near in_file small =
      let j = seq % info.window_size in
      let array = v.arrays j x found in
      record {
        nonempty = v.nonempty;
        sized = length-set info.buffer j (stored x) ∙ v.sized;
        arrays =
            arrays-set chunk n k low info v j (stored x) (omega (arith, v.nonempty))
              (length-memcpy x.packet 0 (chunk seq) ∙ array);
        next = v.next;
        within = v.within;
        high = ground (arith, v.high);
        file = v.file;
        slots =
            slots-set chunk n k low info v j (stored x) _ _ _ (omega (arith, v.nonempty))
              (λ u. record {
                seq = seq;
                at_index = refl;
                above = above;
                below = raised_seq;
                near = near;
                content =
                    rw (memcpy_front x.packet (chunk seq) (omega arith))
                      (take-append (chunk seq) _ (length (chunk seq)) refl);
              })
              λ i y other e u.
                let c = v.slots i y e u in
                record {
                  seq = c.seq;
                  at_index = c.at_index;
                  above = c.above;
                  below = omega (arith, c.below, raised_above);
                  near = c.near;
                  content = c.content;
                };
      }

  -- On a receiver whose invariant holds, `buffer_packet` of a packet of the file and the window,
  -- not below the invariant's lower bound and with the chunk of its number, does not fault, and
  -- with the raising of `highest` behind it keeps the invariant and the expected number.
  pub buffer_packet-Inv :
      low ≤ seq
      → seq < info.expected + info.window_size
      → seq ≤ n
      → length (chunk seq) ≤ max_buf
      → (info' : ReceiveInfo) × (buffer_packet info seq (chunk seq) ≡ some info')
        × Inv chunk n k low (raise_highest info' seq)
        × (info'.expected ≡ info.expected)
  unfolding buffer_packet
  buffer_packet-Inv above near in_file small =
      let (x, found) = slot_found chunk n k low info v seq in
      elim (Bool-cases x.valid) [
        | inl used ↦ (info, ground (arith, v.nonempty), raise_highest-Inv in_file, refl)
        | inr free ↦ (
          put_slot info seq (stored x),
          ground (arith, v.nonempty),
          stored-Inv x found above near in_file small,
          refl,
        )
      ]
