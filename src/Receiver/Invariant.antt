-- ===== src/Receiver/Invariant.antt =====
-- What holds of the receiver between two packets, for a file of `n` chunks: the file holds a prefix of
-- them, and each used slot of the buffer a chunk of the window.
use native.Mathlib.Decide.{ℕ_discrete}
use remote_file_copy_udp_pro.Base.{
  ℕ, zero, suc, ◌+◌, ◌%◌, ◌≤◌, ◌<◌, ◌≡◌, ◌≢◌, sym, ap, subst, ◌∙◌, true, some, List, [], ◌++◌,
  length, take, get_elem?, set, arith, get_elem?-set_self, get_elem?-set_ne, get_elem?-lt,
}
use remote_file_copy_udp_pro.Pdu.{max_buf}
use remote_file_copy_udp_pro.Receiver.State.{PacketEntry, ReceiveInfo}

module _ (chunk : ℕ → List ℕ) where
  -- The chunks 1 to `k`, one behind the other.
  abbrev pub chunks : ℕ → List ℕ
  chunks zero = []
  chunks (suc k) = chunks k ++ chunk (suc k)

  -- A used slot: the chunk `seq`, not below `low` nor above `high`, within a window of `expected`.
  pub record Buffered (window_size expected low high i : ℕ) (x : PacketEntry) : Type 0 where
    pub seq : ℕ
    pub at_index : seq % window_size ≡ i
    pub above : low ≤ seq
    pub below : seq ≤ high
    pub near : seq < expected + window_size
    pub content : take x.packet_len x.packet ≡ chunk seq

  -- The chunks 1 to `k` of `n` are written, and those in the buffer are from `low` on.
  pub record Inv (n k low : ℕ) (info : ReceiveInfo) : Type 0 where
    pub nonempty : 0 < info.window_size
    pub sized : length info.buffer ≡ info.window_size
    pub arrays :
        (i : ℕ) (x : PacketEntry) → get_elem? info.buffer i ≡ some x → length x.packet ≡ max_buf
    pub next : info.expected ≡ suc k
    pub within : k ≤ n
    pub high : info.highest ≤ n
    pub file : info.out_file ≡ chunks k
    pub slots :
        (i : ℕ) (x : PacketEntry)
        → get_elem? info.buffer i ≡ some x
        → x.valid ≡ true
        → Buffered info.window_size info.expected low info.highest i x

  module _ (n k low : ℕ) (info : ReceiveInfo) (v : Inv n k low info) where
    pub slot_found :
        (s : ℕ) → (x : PacketEntry) × (get_elem? info.buffer (s % info.window_size) ≡ some x)
    slot_found s =
        get_elem?-lt info.buffer (s % info.window_size) (omega (arith, v.nonempty, v.sized))

    -- A write to a slot of an array of the right size keeps the sizes.
    pub arrays-set :
        (j : ℕ) (y : PacketEntry)
        → j < info.window_size
        → length y.packet ≡ max_buf
        → (i : ℕ) (x : PacketEntry) → get_elem? (set info.buffer j y) i ≡ some x
        → length x.packet ≡ max_buf
    arrays-set j y lt fits i x e = elim (ℕ_discrete j i) [
      | yes same ↦ ground (
        arith,
        get_elem?-set_self info.buffer j y (omega (arith, v.sized)),
        ap (get_elem? (set info.buffer j y)) same,
      )
      | no other ↦ v.arrays i x (sym (get_elem?-set_ne info.buffer j i y other) ∙ e)
    ]

    -- The slots behind a write: the written one, or one of another index as it was.
    pub slots-set :
        (j : ℕ) (y : PacketEntry) (expected low' high : ℕ)
        → j < info.window_size
        → (y.valid ≡ true → Buffered info.window_size expected low' high j y)
        → ((i : ℕ) (x : PacketEntry)
            → j ≢ i
            → get_elem? info.buffer i ≡ some x
            → x.valid ≡ true
            → Buffered info.window_size expected low' high i x)
        → (i : ℕ) (x : PacketEntry) → get_elem? (set info.buffer j y) i ≡ some x
        → x.valid ≡ true
        → Buffered info.window_size expected low' high i x
    slots-set j y expected low' high lt new old i x e used = elim (ℕ_discrete j i) [
      | yes same ↦
          let here : get_elem? (set info.buffer j y) j ≡ some y =
            get_elem?-set_self info.buffer j y (omega (arith, v.sized)) in
          let eq : y ≡ x = ground (arith, here, ap (get_elem? (set info.buffer j y)) same) in
          subst (λ m. Buffered info.window_size expected low' high m x) same
            (subst (Buffered info.window_size expected low' high j) eq
              (new (ap (λ (z : PacketEntry). z.valid) eq ∙ used)))
      | no other ↦ old i x other (sym (get_elem?-set_ne info.buffer j i y other) ∙ e) used
    ]
