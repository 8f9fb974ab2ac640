-- ===== src/Server/Acks.antt =====
-- What the sender does on an RR, an SREJ and a time-out.
use Prim.Native.Nat.{max}
use native.Mathlib.Decide.{dec_lt}
use remote_file_copy_udp_pro.Base.{
  ℕ, zero, suc, ◌+◌, ◌-◌, ◌≤◌, ◌≡◌, refl, sym, ap, subst, ◌∙◌, some, List, length, drop, arith,
  Endian, inl, inr, min, le→ltb_false, take-all,
}
use remote_file_copy_udp_pro.CircularQueue.{CircularQueue, QueueEntry}
use remote_file_copy_udp_pro.CircularQueue.View.{held, get-held}
use remote_file_copy_udp_pro.CircularQueue.Window.{Holds, remove-Holds, remove_absent}
use remote_file_copy_udp_pro.Net.{Arrival, recv_from}
use remote_file_copy_udp_pro.Pdu.{max_buf, stack_array, length-stack_array, seq_num, flag_of}
use remote_file_copy_udp_pro.Pdu.Wire.{wire, create_pdu-wire, length-wire, store16-pair, summed}
use remote_file_copy_udp_pro.Server.Chunks.{chunk_of, content, Sending, length-chunk_of}
use remote_file_copy_udp_pro.Server.Send.{
  remove_from, entry_payload, send_pdu, answer_srej, receive_ack,
}
use remote_file_copy_udp_pro.Server.State.{Child, send}

-- The loop over the numbers below an RR leaves the window from that number on.
module _ (content : ℕ → List ℕ) where
  remove_from-empty :
      (n first hi : ℕ) (q : CircularQueue) → Holds content q hi hi → remove_from n first q ≡ some q
  unfolding remove_from
  remove_from-empty zero first hi q h = refl
  remove_from-empty (suc n) first hi q h =
      rw
        (remove_absent content q hi hi h first
          (elim (dec_lt first hi) [ yes lt ↦ inl lt | no ge ↦ inr (omega arith) ]))
        (remove_from-empty n (first + 1) hi q h)

  pub remove_from-Holds :
      (n first lo hi : ℕ) (q : CircularQueue)
      → first ≤ lo
      → Holds content q lo hi
      → (q' : CircularQueue) × (remove_from n first q ≡ some q')
        × Holds content q' (max lo (min (first + n) hi)) hi
        × (q'.window_size ≡ q.window_size)
  unfolding remove_from
  remove_from-Holds zero first lo hi q le h =
      (q, refl, subst (λ t. Holds content q t hi) (omega (arith, h.order)) h, refl)
  remove_from-Holds (suc n) first lo hi q le h = elim (dec_lt first lo) [
    | yes below ↦
        let (q', eq, h', same) = remove_from-Holds n (first + 1) lo hi q (omega arith) h in
        (
          q',
          rw (remove_absent content q lo hi h first (inl below)) eq,
          subst (λ t. Holds content q' t hi) (omega arith) h',
          same,
        )
    | no not_below ↦
        let here : first ≡ lo = omega arith in
        elim (dec_lt lo hi) [
          | yes more ↦
              let (q₁, eq₁, h₁, same₁) = remove-Holds content q lo hi h more in
              let (q', eq, h', same) =
                remove_from-Holds n (first + 1) (lo + 1) hi q₁ (omega arith) h₁ in
              (
                q',
                rw (here, eq₁) (ap (λ t. remove_from n (t + 1) q₁) (sym here) ∙ eq),
                subst (λ t. Holds content q' t hi) (omega arith) h',
                same ∙ same₁,
              )
          | no none_left ↦
              let end : lo ≡ hi = omega (arith, h.order) in
              (
                q,
                remove_from-empty (suc n) first hi q (subst (λ t. Holds content q t hi) end h),
                subst (λ t. Holds content q t hi) (omega arith) h,
                refl,
              )
        ]
  ]

module _ (e : Endian) (in_cksum : List ℕ → ℕ) (size : ℕ) (file : List ℕ)
    (fits : size ≤ max_buf) where
  -- For a sender with a buffer size of `MAXBUF` at most, an RR for `ack` drops the packets below
  -- `ack` from the window, and nothing else: it never faults, whatever number it carries, and sends
  -- nothing.
  pub receive_rr-Sending :
      (lo k : ℕ) (c : Child) (a : Arrival)
      → Sending e in_cksum size file lo k c
      → flag_of (recv_from 7 a) ≡ 5
      → (c' : Child) × (receive_ack e in_cksum c a ≡ some c')
        × Sending e in_cksum size file (max lo (min (seq_num (recv_from 7 a)) (suc k))) k c'
        × (c'.sent ≡ c.sent)
  unfolding receive_ack
  receive_rr-Sending lo k c a v flag =
      let ack = seq_num (recv_from 7 a) in
      let (q', eq, h, same) =
        remove_from-Holds (content e in_cksum size file) (ack - 1) 1 lo (suc k) c.window v.from_one
          v.holds in
      (
        record c { info = record c.info { client_addr = a.source }; window = q' },
        rw (flag, eq) refl,
        record {
          holds =
              subst (λ t. Holds (content e in_cksum size file) q' t (suc k))
                (omega (arith, v.from_one)) h;
          reads = v.reads;
          sized = v.sized;
          from_one = omega (arith, v.from_one);
        },
        refl,
      )

  -- The payload of a kept PDU is the chunk that it was made of.
  pub entry_payload-content :
      (s : ℕ) (x : QueueEntry)
      → x.packet ≡ some (content e in_cksum size file s)
      → x.packet_len ≡ length (content e in_cksum size file s)
      → entry_payload x ≡ some (chunk_of size file s)
  unfolding entry_payload
  entry_payload-content s x stored measured =
      let chunk = chunk_of size file s in
      let (a, b, two) = store16-pair e in_cksum (in_cksum (summed e in_cksum s 16 chunk)) in
      let len : x.packet_len ≡ 7 + length chunk = measured ∙ length-wire e in_cksum s 16 chunk in
      let behind : drop 7 (content e in_cksum size file s) ≡ chunk = rw two refl in
      let rest : x.packet_len - 7 ≡ length chunk = omega (arith, len) in
      rw
        (
          stored,
          le→ltb_false x.packet_len 7 (omega (arith, len)),
          rest,
          le→ltb_false max_buf (length chunk) (length-chunk_of e in_cksum size file fits s),
          behind,
          take-all chunk (length chunk) (omega arith),
        )
        refl

  -- A PDU of a chunk, sent to the client.
  pub sends_chunk :
      (c : Child) (s flag : ℕ)
      → send_pdu e in_cksum c s flag (chunk_of size file s)
        ≡ send c (wire e in_cksum s flag (chunk_of size file s))
  sends_chunk c s flag = ap (send c) (
      create_pdu-wire e in_cksum (stack_array (max_buf + 7)) s flag (chunk_of size file s) (
        omega
          (arith, length-chunk_of e in_cksum size file fits s, length-stack_array (max_buf + 7))))

  -- For a sender with a buffer size of `MAXBUF` at most, an SREJ for a packet of the window is
  -- answered by that packet's chunk, under its number and flag 17.
  pub answer_srej-Sending :
      (lo k s : ℕ) (c : Child)
      → Sending e in_cksum size file lo k c
      → lo ≤ s
      → s ≤ k
      → answer_srej e in_cksum c s ≡ some (send c (wire e in_cksum s 17 (chunk_of size file s)))
  unfolding answer_srej
  answer_srej-Sending lo k s c v above below =
      let here : held c.window s ≡ some (content e in_cksum size file s) =
        ground (arith, v.holds.maps s) in
      let (x, found, stored, measured, number) =
        get-held c.window s v.holds.valid v.holds.nonempty here in
      rw (found, entry_payload-content s x stored measured) (ap some (sends_chunk c s 17))
