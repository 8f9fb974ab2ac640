-- ===== src/Receiver/Step.antt =====
-- Workspace/rcopy.c: the invariant of each state of `process_transfer_state`, and its parts.
use remote_file_copy_udp_pro.Base.{
  ℕ, suc, ◌+◌, ◌≤◌, ◌<◌, ◌≡◌, ap, ap₂, true, some, List, ◌++◌, length, get_elem?, arith, u32_mod,
}
use remote_file_copy_udp_pro.Pdu.{Received, seq_num, payload_of, max_buf}
use remote_file_copy_udp_pro.Net.{Sent}
use remote_file_copy_udp_pro.Receiver.Invariant.{Buffered, Inv}
use remote_file_copy_udp_pro.Receiver.State.{
  TransferState, in_order, out_of_order, flush, PacketEntry, ReceiveInfo,
}
use remote_file_copy_udp_pro.Receiver.Transfer.{take_expected}

-- The first number that a used slot can have: in the state `FLUSH` the next chunk may be buffered.
abbrev pub low_of : TransferState → ℕ → ℕ
low_of in_order expected = suc expected
low_of out_of_order expected = suc expected
low_of flush expected = expected

abbrev pub IsCalm : TransferState → ReceiveInfo → Type 0
IsCalm in_order info = info.highest < info.expected
IsCalm out_of_order info = Unit
IsCalm flush info = Unit

module _ (chunk : ℕ → List ℕ) (n : ℕ) where
  -- The invariant of a state, with the number `k` of the chunks that are written.
  pub record Ready (state : TransferState) (info : ReceiveInfo) : Type 0 where
    pub k : ℕ
    pub inv : Inv chunk n k (low_of state info.expected) info
    pub calm : IsCalm state info

  -- A data packet of the file: its payload is the chunk of its number, which is of the window.
  pub record Genuine (info : ReceiveInfo) (d : Received) : Type 0 where
    pub payload : payload_of d ≡ some (chunk (seq_num d))
    pub in_file : seq_num d ≤ n
    pub small : length (chunk (seq_num d)) ≤ max_buf
    pub in_window : seq_num d < info.expected + info.window_size

  -- Addresses and messages are not part of the invariant.
  pub relabel-Inv :
      (k low : ℕ) (info : ReceiveInfo) (addr eof : ℕ) (sent : List Sent)
      → Inv chunk n k low info
      → Inv chunk n k low (record info { server_addr = addr; eof_seq = eof; sent = sent })
  relabel-Inv k low info addr eof sent v = record {
    nonempty = v.nonempty;
    sized = v.sized;
    arrays = v.arrays;
    next = v.next;
    within = v.within;
    high = v.high;
    file = v.file;
    slots = λ i x e used.
        let c = v.slots i x e used in
        record {
          seq = c.seq;
          at_index = c.at_index;
          above = c.above;
          below = c.below;
          near = c.near;
          content = c.content;
        };
  }

  -- A higher lower bound, where no used slot is below it.
  pub raise_low-Inv :
      (k low low' : ℕ) (info : ReceiveInfo)
      → Inv chunk n k low info
      → ((i : ℕ) (x : PacketEntry)
          → get_elem? info.buffer i ≡ some x
          → (c : Buffered chunk info.window_size info.expected low info.highest i x)
          → x.valid ≡ true
          → low' ≤ c.seq)
      → Inv chunk n k low' info
  raise_low-Inv k low low' info v up = record {
    nonempty = v.nonempty;
    sized = v.sized;
    arrays = v.arrays;
    next = v.next;
    within = v.within;
    high = v.high;
    file = v.file;
    slots = λ i x e used.
        let c = v.slots i x e used in
        record {
          seq = c.seq;
          at_index = c.at_index;
          above = up i x e c used;
          below = c.below;
          near = c.near;
          content = c.content;
        };
  }

  -- The next chunk, taken from the packet itself.
  pub take_expected-Inv :
      (k high : ℕ) (info : ReceiveInfo)
      → n + 1 < u32_mod
      → Inv chunk n k (suc info.expected) info
      → info.highest ≤ high
      → high ≤ n
      → info.expected ≤ n
      → let info' = record (take_expected info (chunk info.expected)) { highest = high } in
        Inv chunk n (suc k) info'.expected info'
  take_expected-Inv k high info short v up in_file here = record {
    nonempty = v.nonempty;
    sized = v.sized;
    arrays = v.arrays;
    next = omega (arith, v.next);
    within = omega (arith, v.next);
    high = in_file;
    file = ap₂ ◌++◌ v.file (ap chunk v.next);
    slots = λ i x e used.
        let c = v.slots i x e used in
        record {
          seq = c.seq;
          at_index = c.at_index;
          above = omega (arith, c.above);
          below = omega (arith, c.below);
          near = omega (arith, c.near);
          content = c.content;
        };
  }
