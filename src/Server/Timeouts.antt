-- ===== src/Server/Timeouts.antt =====
-- Workspace/server.c: what a time-out on a full window sends again.
use remote_file_copy_udp_pro.Base.{
  ℕ, suc, ◌+◌, ◌≤◌, ◌<◌, ◌≡◌, refl, ap, true, some, List, [], ◌∷◌, arith, Endian, u32_mod,
  Bool-cases, inl, inr, get_elem?, of_be32-be32, count_if, length,
}
use remote_file_copy_udp_pro.CircularQueue.{QueueEntry, is_full}
use remote_file_copy_udp_pro.CircularQueue.Window.{slot_in_window, slot_packet}
use remote_file_copy_udp_pro.Net.{Sent}
use remote_file_copy_udp_pro.Pdu.{max_buf}
use remote_file_copy_udp_pro.Pdu.Wire.{wire}
use remote_file_copy_udp_pro.Server.Acks.{entry_payload-content, sends_chunk}
use remote_file_copy_udp_pro.Server.Chunks.{chunk_of, content, Sending}
use remote_file_copy_udp_pro.Server.Send.{first_valid, resend_entry, resend_first}
use remote_file_copy_udp_pro.Server.State.{Child, send}

-- Where some slot is used, the loop finds one.
first_valid-found :
    (xs : List QueueEntry)
    → 0 < count_if (λ (x : QueueEntry). x.valid) xs
    → (x : QueueEntry) × (i : ℕ) × (first_valid xs ≡ some x)
      × (get_elem? xs i ≡ some x)
      × (x.valid ≡ true)
unfolding first_valid
first_valid-found [] pos = absurd (omega arith)
first_valid-found (x ∷ xs) pos = elim (Bool-cases x.valid) [
  | inl used ↦ (x, 0, rw used refl, refl, used)
  | inr free ↦
      let (y, i, eq, found, used) = first_valid-found xs (ground arith) in
      (y, suc i, rw free eq, found, used)
]

module _ (e : Endian) (in_cksum : List ℕ → ℕ) (size : ℕ) (file : List ℕ)
    (fits : size ≤ max_buf) where
  resend_entry-content :
      (s : ℕ) (c : Child) (x : QueueEntry)
      → s < u32_mod
      → x.packet ≡ some (content e in_cksum size file s)
      → x.packet_len ≡ length (content e in_cksum size file s)
      → resend_entry e in_cksum c x ≡ some (send c (wire e in_cksum s 18 (chunk_of size file s)))
  unfolding resend_entry
  resend_entry-content s c x short stored measured =
      rw
        (
          entry_payload-content e in_cksum size file fits s x stored measured,
          stored,
          of_be32-be32 s short,
        )
        (ap some (sends_chunk e in_cksum size file fits c s 18))

  -- A full window has some packet of its own in the first slot that is in use, and whatever the log
  -- of the child is, that one is sent again, under its own number and flag 18.
  pub resend_first-same :
      (lo k : ℕ) (c : Child)
      → k + 1 < u32_mod
      → Sending e in_cksum size file lo k c
      → is_full c.window ≡ true
      → (s : ℕ) × (lo ≤ s)
        × (s ≤ k)
        × ((log : List Sent)
            → resend_first e in_cksum (record c { sent = log })
              ≡ some (send (record c { sent = log }) (wire e in_cksum s 18 (chunk_of size file s))))
  unfolding resend_first
  resend_first-same lo k c short v at_limit =
      let h = v.holds in
      let (x, i, eq, found, used) =
        first_valid-found c.window.entries (ground (arith, h.valid.counted, h.nonempty)) in
      let (above, below, _) =
        slot_in_window (content e in_cksum size file) c.window lo (suc k) h i x found used in
      let (stored, measured) =
        slot_packet (content e in_cksum size file) c.window lo (suc k) h i x found used in
      (
        x.sequence_num,
        above,
        omega (arith, below),
        λ log.
            rw (resend_first, eq)
              (resend_entry-content x.sequence_num (record c { sent = log }) x
                (omega (arith, below)) stored measured),
      )

  -- For a sender with a buffer size of `MAXBUF` at most and below 2^32 packets, a time-out on a
  -- full window sends the chunk of some packet of the window again, under its own number and flag
  -- 18.
  pub resend_first-Sending :
      (lo k : ℕ) (c : Child)
      → k + 1 < u32_mod
      → Sending e in_cksum size file lo k c
      → is_full c.window ≡ true
      → (s : ℕ) × (lo ≤ s)
        × (s ≤ k)
        × (resend_first e in_cksum c ≡ some (send c (wire e in_cksum s 18 (chunk_of size file s))))
  resend_first-Sending lo k c short v at_limit =
      let (s, above, below, again) = resend_first-same lo k c short v at_limit in
      (s, above, below, again c.sent)
