-- ===== src/Receiver/Buffer.antt =====
-- Workspace/functions.c: `buffer_packet`; Workspace/rcopy.c: the loop that flushes the buffer.
use remote_file_copy_udp_pro.Base.{
  ℕ, zero, suc, ◌%◌, true, false, Option, none, some, ◌>>=◌, List, ◌++◌, length, take, get_elem?,
  set, memcpy, inc32, ltb, ◌==◌, if◌then◌else◌,
}
use remote_file_copy_udp_pro.Pdu.{max_buf}
use remote_file_copy_udp_pro.Receiver.State.{PacketEntry, ReceiveInfo}

-- `info->buffer[seq % info->windowSize]`: a window of size 0 traps.
abbrev pub slot : ReceiveInfo → ℕ → Option PacketEntry
slot info seq =
    if info.window_size == 0 then none else get_elem? info.buffer (seq % info.window_size)

abbrev pub put_slot : ReceiveInfo → ℕ → PacketEntry → ReceiveInfo
put_slot info seq entry = record info { buffer = set info.buffer (seq % info.window_size) entry }

-- `buffer_packet`. The list `bytes` is the `len` bytes at `data`; more than `MAXBUF` of them overrun
-- the entry.
unfoldable pub buffer_packet : ReceiveInfo → ℕ → List ℕ → Option ReceiveInfo
buffer_packet info seq bytes = do
  entry ← slot info seq
  if entry.valid
      then some info
      else if ltb max_buf (length bytes)
      then none
      else some (
          put_slot info seq (record {
            packet = memcpy entry.packet 0 bytes;
            packet_len = length bytes;
            valid = true;
          }))

-- One round of the flush loop: the buffered packet is written, and its slot is free again.
abbrev pub flush_one : ReceiveInfo → PacketEntry → ReceiveInfo
flush_one info entry = record (put_slot info info.expected (record entry { valid = false })) {
  out_file = info.out_file ++ take entry.packet_len entry.packet;
  expected = inc32 info.expected;
}

-- At most `fuel` rounds of the loop `while (expected <= highest && buffer[…].valid)`.
unfoldable pub flush_rounds : ℕ → ReceiveInfo → Option ReceiveInfo
flush_rounds zero info = some info
flush_rounds (suc fuel) info =
    if ltb info.highest info.expected
    then some info
    else slot info info.expected >>= λ entry.
        let rest = flush_rounds fuel (flush_one info entry) in
        if entry.valid then rest else some info

-- The loop, with as many rounds as there are slots.
unfoldable pub flush_buffer : ReceiveInfo → Option ReceiveInfo
unfolding flush_rounds
flush_buffer info = flush_rounds (length info.buffer) info
