-- ===== src/System/Moves.antt =====
-- Workspace/rcopy.c and Workspace/functions.c: what the flush loop and `buffer_packet` change.
use remote_file_copy_udp_pro.Base.{
  ℕ, zero, suc, ◌+◌, ◌≤◌, ◌<◌, ◌≡◌, refl, inl, inr, Option, none, some, List, length, arith, ltb,
  Bool-cases, Option-cases, u32_mod,
}
use remote_file_copy_udp_pro.Pdu.{max_buf}
use remote_file_copy_udp_pro.Receiver.{
  ReceiveInfo, PacketEntry, buffer_packet, slot, flush_one, flush_rounds,
}

-- The window stays, and the number that is expected does not fall.
abbrev pub Moves : ReceiveInfo → ReceiveInfo → Type 0
Moves info info' = (info'.window_size ≡ info.window_size) × (info.expected ≤ info'.expected)

-- What the flush loop leaves.
abbrev pub Flushes : ReceiveInfo → Option ReceiveInfo → Type 0
Flushes info none = Unit
Flushes info (some info') =
    Moves info info' × (info'.sent ≡ info.sent) × (info'.highest ≡ info.highest)

Flushes-one :
    (info : ReceiveInfo) (entry : PacketEntry) (o : Option ReceiveInfo)
    → info.expected ≤ info.highest
    → info.highest + 1 < u32_mod
    → Flushes (flush_one info entry) o
    → Flushes info o
Flushes-one info entry none up short f = tt
Flushes-one info entry (some info') up short f =
    let next : (flush_one info entry).expected ≡ info.expected + 1 = omega (arith, up, short) in
    ((f.0.0, omega (arith, f.0.1, next)), f.1, f.2)

pub flush_rounds-Flushes :
    (fuel : ℕ) (info : ReceiveInfo)
    → info.highest + 1 < u32_mod
    → Flushes info (flush_rounds fuel info)
unfolding flush_rounds
flush_rounds-Flushes zero info short = ((refl, omega arith), refl, refl)
flush_rounds-Flushes (suc fuel) info short = elim (Bool-cases (ltb info.highest info.expected)) [
  | inl end ↦ rw end ((refl, omega arith), refl, refl)
  | inr more ↦ elim (Option-cases (slot info info.expected)) [
    | inl fault ↦ rw (more, fault) tt
    | inr (entry, found) ↦ elim (Bool-cases entry.valid) [
      | inl used ↦
          rw (more, found, used)
            (Flushes-one info entry (flush_rounds fuel (flush_one info entry)) (ground arith) short
              (flush_rounds-Flushes fuel (flush_one info entry) short))
      | inr unused ↦ rw (more, found, unused) ((refl, omega arith), refl, refl)
    ]
  ]
]

-- What `buffer_packet` leaves.
abbrev pub Buffers : ReceiveInfo → Option ReceiveInfo → Type 0
Buffers info none = Unit
Buffers info (some info') =
    (info'.window_size ≡ info.window_size)
    × (info'.expected ≡ info.expected)
    × (info'.sent ≡ info.sent)

pub buffer_packet-Buffers :
    (info : ReceiveInfo) (seq : ℕ) (bytes : List ℕ) → Buffers info (buffer_packet info seq bytes)
unfolding buffer_packet
buffer_packet-Buffers info seq bytes = elim (Option-cases (slot info seq)) [
  | inl fault ↦ rw fault tt
  | inr (entry, found) ↦ elim (Bool-cases entry.valid) [
    | inl used ↦ rw (found, used) (refl, refl, refl)
    | inr unused ↦ elim (Bool-cases (ltb max_buf (length bytes))) [
      | inl long ↦ rw (found, unused, long) tt
      | inr fits ↦ rw (found, unused, fits) (refl, refl, refl)
    ]
  ]
]
