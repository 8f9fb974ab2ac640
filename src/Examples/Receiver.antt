-- ===== src/Examples/Receiver.antt =====
-- Examples for the receiver: a window of two packets, and a file of three bytes in chunks of two.
use remote_file_copy_udp_pro.Base.{
  ℕ, suc, ◌≡◌, refl, true, false, Option, none, some, List, [], ◌∷◌, ◌++◌, arith, little, length,
  replicate, memcpy, zero, ap, sym, ◌∙◌, length-replicate, take, get_elem?,
}
use remote_file_copy_udp_pro.Examples.Data.{internet_sum, small_file, small_array, arrives}
use remote_file_copy_udp_pro.Net.{Event, ready}
use remote_file_copy_udp_pro.Pdu.{Received, receive_into, seq_num, flag_of, payload_of, max_buf}
use remote_file_copy_udp_pro.Pdu.Wire.{wire}
use remote_file_copy_udp_pro.Receiver.{
  ReceiveInfo, PacketEntry, in_order, new_info, on_packet, on_data, flush_buffer, TransferOutcome,
  wait_on_data_state,
}
use remote_file_copy_udp_pro.Receiver.Flush.{flush_buffer-Inv, Flushed}
use remote_file_copy_udp_pro.Receiver.Invariant.{chunks, Inv, Buffered}
use remote_file_copy_udp_pro.Receiver.Prefix.{
  wait_on_data-IsPrefix, IsPrefix, FromFile, new_info-Inv, new_info-Ready,
}
use remote_file_copy_udp_pro.Receiver.Progress.{on_data-Ready, Stepped}
use remote_file_copy_udp_pro.Receiver.Step.{Ready}
use remote_file_copy_udp_pro.Receiver.Truncated.{on_eof-truncates}
use remote_file_copy_udp_pro.Server.Chunks.{chunk_of}

abbrev pub chunk : ℕ → List ℕ
chunk = chunk_of 2 small_file

-- A client whose file is empty, with the first packet in the buffer.
abbrev holding_1 : ReceiveInfo
holding_1 = record {
  buffer =
      record { packet = replicate max_buf 0; packet_len = 0; valid = false }
      ∷ record { packet = 10 ∷ 20 ∷ replicate 1398 0; packet_len = 2; valid = true }
      ∷ [];
  window_size = 2;
  expected = 1;
  highest = 1;
  out_file = [];
  socket_num = 4;
  server_addr = 7;
  eof_seq = 0;
  sent = [];
}

-- The packet 2 of the file, and an EOF.
abbrev packet_2 : Received
packet_2 = receive_into small_array (0 ∷ 0 ∷ 0 ∷ 2 ∷ 0 ∷ 0 ∷ 16 ∷ 30 ∷ []) 7

abbrev eof_3 : Received
eof_3 = receive_into small_array (0 ∷ 0 ∷ 0 ∷ 3 ∷ 0 ∷ 0 ∷ 10 ∷ []) 7

fresh-Inv : Inv chunk 2 0 2 (new_info 2 4 7)
fresh-Inv = new_info-Inv little internet_sum chunk 2 (omega arith) 2 4 7 (omega arith)

fresh-Ready : Ready chunk 2 in_order (new_info 2 4 7)
fresh-Ready = new_info-Ready little internet_sum chunk 2 (omega arith) 2 4 7 (omega arith)

-- The fields of a slot that is there.
abbrev entry_of : Option PacketEntry → PacketEntry
entry_of none = record { packet = []; packet_len = 0; valid = false }
entry_of (some x) = x

holding_1-arrays :
    (i : ℕ) (x : PacketEntry) → get_elem? holding_1.buffer i ≡ some x → length x.packet ≡ max_buf
holding_1-arrays zero x e =
    ap (λ o. length (entry_of o).packet) (sym e) ∙ length-replicate {A = ℕ} max_buf 0
holding_1-arrays (suc zero) x e =
    ap (λ o. length (entry_of o).packet) (sym e) ∙ omega (arith, length-replicate {A = ℕ} 1398 0)
holding_1-arrays (suc (suc i)) x e = absurd (ground arith)

holding_1-slots :
    (i : ℕ) (x : PacketEntry)
    → get_elem? holding_1.buffer i ≡ some x
    → x.valid ≡ true
    → Buffered chunk 2 1 1 1 i x
holding_1-slots zero x e used = absurd (ground (arith, ap (λ o. (entry_of o).valid) e))
holding_1-slots (suc zero) x e used = record {
  seq = 1;
  at_index = refl;
  above = omega arith;
  below = omega arith;
  near = omega arith;
  content = ap (λ o. take (entry_of o).packet_len (entry_of o).packet) (sym e);
}
holding_1-slots (suc (suc i)) x e used = absurd (ground arith)

holding_1-Inv : Inv chunk 2 0 1 holding_1
holding_1-Inv = record {
  nonempty = omega arith;
  sized = refl;
  arrays = holding_1-arrays;
  next = refl;
  within = omega arith;
  high = omega arith;
  file = refl;
  slots = holding_1-slots;
}

flush_buffer-Inv_example :
    (k' : ℕ) × (info' : ReceiveInfo) × (flush_buffer holding_1 ≡ some info')
    × Inv chunk 2 k' info'.expected info'
    × Flushed chunk 2 (omega arith) info'
flush_buffer-Inv_example = flush_buffer-Inv chunk 2 (omega arith) 0 holding_1 holding_1-Inv

on_data-Ready_example :
    Stepped little internet_sum chunk 2
      (omega arith)
      (on_data little internet_sum in_order (new_info 2 4 7) packet_2)
unfolding new_info memcpy seq_num flag_of payload_of
on_data-Ready_example =
    on_data-Ready little internet_sum chunk 2 (omega arith) in_order (new_info 2 4 7) packet_2
      fresh-Ready
      (record {
        payload = refl;
        in_file = omega arith;
        small = omega arith;
        in_window = omega arith;
      })

on_eof-truncates_example :
    (info' : ReceiveInfo) × (on_packet little internet_sum in_order (new_info 2 4 7) eof_3
      ≡ some (true, in_order, info'))
    × (info'.out_file ≡ chunks chunk 0)
    × (info'.sent
        ≡ (new_info 2 4 7).sent
          ++ (record {
            target = (new_info 2 4 7).server_addr;
            bytes = wire little internet_sum (seq_num eof_3) 35 [];
          }
              ∷ []))
unfolding new_info memcpy flag_of
on_eof-truncates_example =
    on_eof-truncates little internet_sum chunk 2 0 in_order (new_info 2 4 7) eof_3 fresh-Inv refl

-- The packet 2 comes first, then the packet 1, then the packet 2 again, and the EOF.
abbrev pub arrivals : List Event
arrivals =
    ready (arrives (0 ∷ 0 ∷ 0 ∷ 2 ∷ 0 ∷ 0 ∷ 16 ∷ 30 ∷ []))
    ∷ ready (arrives (0 ∷ 0 ∷ 0 ∷ 1 ∷ 0 ∷ 0 ∷ 17 ∷ 10 ∷ 20 ∷ []))
    ∷ ready (arrives (0 ∷ 0 ∷ 0 ∷ 2 ∷ 0 ∷ 0 ∷ 18 ∷ 30 ∷ []))
    ∷ ready (arrives (0 ∷ 0 ∷ 0 ∷ 3 ∷ 0 ∷ 0 ∷ 10 ∷ []))
    ∷ []

pub arrivals-FromFile : FromFile little internet_sum chunk 2 in_order (new_info 2 4 7) arrivals
unfolding FromFile new_info memcpy seq_num flag_of payload_of on_packet
arrivals-FromFile = (
  (λ h. record {
    payload = refl;
    in_file = omega arith;
    small = omega arith;
    in_window = omega arith;
  }),
  (
    (λ h. record {
      payload = refl;
      in_file = omega arith;
      small = omega arith;
      in_window = omega arith;
    }),
    (
      (λ h. record {
        payload = refl;
        in_file = omega arith;
        small = omega arith;
        in_window = omega arith;
      }),
      ((λ h. absurd (ground arith)), tt),
    ),
  ),
)

wait_on_data-IsPrefix_example :
    (t : TransferOutcome) × (wait_on_data_state little internet_sum true 2 4 7 arrivals ≡ some t)
    × IsPrefix little internet_sum chunk 2 t
wait_on_data-IsPrefix_example =
    wait_on_data-IsPrefix little internet_sum chunk 2 (omega arith) 2 4 7 arrivals (omega arith)
      arrivals-FromFile
