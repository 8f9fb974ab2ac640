-- ===== src/Receiver/Flush.antt =====
-- Workspace/rcopy.c: the flush loop and the receiver's invariant.
use native.Mathlib.Decide.{ℕ_discrete}
use remote_file_copy_udp_pro.Base.{
  ℕ, zero, suc, ◌+◌, ◌%◌, ◌≤◌, ◌<◌, ◌≡◌, ◌≢◌, refl, sym, ap, ap₂, subst, ◌∙◌, true, false, some,
  List, ◌++◌, length, get_elem?, arith, length-set, Bool-cases, inc32, u32_mod, inl, inr, ltb, ◌⊎◌,
  count_if, count_if-set, count_if-pos, count_if-le,
}
use remote_file_copy_udp_pro.CircularQueue.Window.{mod-ne}
use remote_file_copy_udp_pro.Receiver.Buffer.{flush_one, flush_rounds, flush_buffer}
use remote_file_copy_udp_pro.Receiver.Invariant.{Inv, slot_found, arrays-set, slots-set}
use remote_file_copy_udp_pro.Receiver.State.{PacketEntry, ReceiveInfo}

module _ (chunk : ℕ → List ℕ) (n : ℕ) (short : n + 1 < u32_mod) where
  -- Two numbers of one window with one slot are the same.
  same_slot : (w a b : ℕ) → a ≤ b → b < a + w → a % w ≡ b % w → a ≡ b
  same_slot w a b le near e = elim (ℕ_discrete a b) [
    | yes eq ↦ eq
    | no ne ↦ absurd (mod-ne w a b (omega arith) (omega arith) e)
  ]

  -- A flushed packet is the next chunk.
  flush_one-Inv :
      (k : ℕ) (info : ReceiveInfo) (x : PacketEntry)
      → Inv chunk n k info.expected info
      → get_elem? info.buffer (info.expected % info.window_size) ≡ some x
      → x.valid ≡ true
      → Inv chunk n (suc k) (flush_one info x).expected (flush_one info x)
  flush_one-Inv k info x v found used =
      let j = info.expected % info.window_size in
      let b = v.slots j x found used in
      let s : info.expected ≡ b.seq =
        same_slot info.window_size info.expected b.seq b.above b.near (sym b.at_index) in
      let freed : PacketEntry = record x { valid = false } in
      record {
        nonempty = v.nonempty;
        sized = length-set info.buffer j freed ∙ v.sized;
        arrays =
            arrays-set chunk n k info.expected info v j freed (omega (arith, v.nonempty))
              (v.arrays j x found);
        next = omega (arith, v.next, s, b.below, v.high);
        within = omega (arith, v.next, s, b.below, v.high);
        high = v.high;
        file = ap₂ ◌++◌ v.file (b.content ∙ ap chunk (omega (arith, v.next, s)));
        slots =
            slots-set chunk n k info.expected info v j freed _ _ _ (omega (arith, v.nonempty))
              (λ u. cc)
              λ i y other e u.
                let c = v.slots i y e u in
                record {
                  seq = c.seq;
                  at_index = c.at_index;
                  above =
                      next_above c.seq c.above
                        (λ eq. other (ap (λ t. t % info.window_size) eq ∙ c.at_index));
                  below = c.below;
                  near = omega (arith, c.near, v.next, v.within);
                  content = c.content;
                };
      }
    where
      next_above : (t : ℕ) → info.expected ≤ t → info.expected ≢ t → inc32 info.expected ≤ t
      next_above t le ne = omega (arith, v.next, v.within)

  -- The flush loop keeps the invariant, and does not fault.
  flush_rounds-Inv :
      (fuel k : ℕ) (info : ReceiveInfo)
      → Inv chunk n k info.expected info
      → (k' : ℕ) × (info' : ReceiveInfo) × (flush_rounds fuel info ≡ some info')
        × Inv chunk n k' info'.expected info'
  unfolding flush_rounds
  flush_rounds-Inv zero k info v = (k, info, refl, v)
  flush_rounds-Inv (suc fuel) k info v = elim (Bool-cases (ltb info.highest info.expected)) [
    | inl past ↦ (k, info, rw past refl, v)
    | inr more ↦
        let (x, found) = slot_found chunk n k info.expected info v info.expected in
        elim (Bool-cases x.valid) [
          | inl used ↦
              let (k', info', e, v') =
                flush_rounds-Inv fuel (suc k) (flush_one info x)
                  (flush_one-Inv k info x v found used) in
              (k', info', ground (arith, v.nonempty), v')
          | inr free ↦ (k, info, ground (arith, v.nonempty), v)
        ]
  ]

  -- The slot of the packet that is expected is not used, or that packet is past the highest.
  abbrev pub Flushed : ReceiveInfo → Type 0
  Flushed info =
      (info.highest < info.expected)
      ⊎ ((x : PacketEntry) × (get_elem? info.buffer (info.expected % info.window_size) ≡ some x)
          × (x.valid ≡ false))

  -- As many rounds as slots are used end the loop by its own test.
  flush_rounds-Flushed :
      (fuel k : ℕ) (info info' : ReceiveInfo)
      → Inv chunk n k info.expected info
      → count_if (λ (x : PacketEntry). x.valid) info.buffer ≤ fuel
      → flush_rounds fuel info ≡ some info'
      → Flushed info'
  unfolding flush_rounds
  flush_rounds-Flushed zero k info info' v enough e =
      let (x, found) = slot_found chunk n k info.expected info v info.expected in
      let same : info ≡ info' = ground arith in
      subst Flushed same (elim (Bool-cases x.valid) [
        | inl used ↦
            absurd (
              omega (arith, count_if-pos (λ (y : PacketEntry). y.valid) info.buffer _ x found used))
        | inr free ↦ inr (x, found, free)
      ])
  flush_rounds-Flushed (suc fuel) k info info' v enough e =
      elim (Bool-cases (ltb info.highest info.expected)) [
        | inl past ↦
            let same : info ≡ info' = ground arith in subst Flushed same (inl (ground arith))
        | inr more ↦
            let (x, found) = slot_found chunk n k info.expected info v info.expected in
            elim (Bool-cases x.valid) [
              | inl used ↦
                  flush_rounds-Flushed fuel (suc k) (flush_one info x) info'
                    (flush_one-Inv k info x v found used)
                    (ground (
                      arith,
                      count_if-set (λ (y : PacketEntry). y.valid) info.buffer
                          (info.expected % info.window_size) x (record x { valid = false }) found,
                    ))
                    (ground (arith, v.nonempty))
              | inr free ↦
                  let same : info ≡ info' = ground (arith, v.nonempty) in
                  subst Flushed same (inr (x, found, free))
            ]
      ]

  -- On a receiver whose invariant holds for a file of fewer than 2^32 - 1 chunks, the flush loop
  -- does not fault, keeps the invariant, and within as many rounds as the buffer has slots ends by
  -- its own test: the next packet is beyond the highest one, or is not in its slot.
  pub flush_buffer-Inv :
      (k : ℕ) (info : ReceiveInfo)
      → Inv chunk n k info.expected info
      → (k' : ℕ) × (info' : ReceiveInfo) × (flush_buffer info ≡ some info')
        × Inv chunk n k' info'.expected info'
        × Flushed info'
  unfolding flush_buffer
  flush_buffer-Inv k info v =
      let (k', info', e, v') = flush_rounds-Inv (length info.buffer) k info v in
      (
        k',
        info',
        e,
        v',
        flush_rounds-Flushed (length info.buffer) k info info' v
            (count_if-le (λ (x : PacketEntry). x.valid) info.buffer) e,
      )
