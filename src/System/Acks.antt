-- ===== src/System/Acks.antt =====
-- Workspace/server.c: the steps of the sender on an acknowledgement.
use remote_file_copy_udp_pro.Base.{
  ℕ, suc, ◌+◌, ◌≤◌, ◌<◌, ◌≡◌, refl, sym, ap, subst, ◌∙◌, inl, inr, Option, some, List, [], ◌∷◌,
  length, Bool-cases, take-all, arith, Endian, u32_mod, min,
}
use Prim.Native.Nat.{max}
use remote_file_copy_udp_pro.Net.{Arrival, recv_from, ready}
use remote_file_copy_udp_pro.Pdu.{receive_into, seq_num, flag_of, max_buf}
use remote_file_copy_udp_pro.Pdu.RoundTrip.{receive-wire}
use remote_file_copy_udp_pro.Pdu.Wire.{wire, length-wire}
use remote_file_copy_udp_pro.Server.{
  Child, sent, full, send, receive_ack, wait_on_eof_ack_state, is_eof_ack,
}
use remote_file_copy_udp_pro.Server.Acks.{receive_rr-Sending, answer_srej-Sending}
use remote_file_copy_udp_pro.Server.Chunks.{chunk_of, Sending}
use remote_file_copy_udp_pro.Server.Log.{AllSent, AllSent-append}
use remote_file_copy_udp_pro.Server.Sizes.{receive_ack-size}
use remote_file_copy_udp_pro.System.Defs.{SenderState, polls, closes, over, on_ack, next_eof_poll}
use remote_file_copy_udp_pro.System.Invariant.{IsAck, UpTo, carries, SenderAt, SenderOk, KeepsEof}
use remote_file_copy_udp_pro.System.Sender.{next_poll-Sends}

-- An acknowledgement as the sender's array of seven bytes has it.
pub ack-read :
    (e : Endian) (in_cksum : List ℕ → ℕ) (m flag source : ℕ) (before : List ℕ)
    → m < u32_mod
    → 7 ≤ length before
    → let d =
        recv_from 7
          (record { bytes = wire e in_cksum m flag []; source = source; before = before }) in
      (seq_num d ≡ m) × (flag_of d ≡ flag)
ack-read e in_cksum m flag source before small room =
    let (number, same, _) = receive-wire e in_cksum before m flag [] source small room in
    let whole =
      take-all (wire e in_cksum m flag []) 7 (omega (arith, length-wire e in_cksum m flag [])) in
    (
      ap (λ bytes. seq_num (receive_into before bytes source)) whole ∙ number,
      ap (λ bytes. flag_of (receive_into before bytes source)) whole ∙ same,
    )

module _ (e : Endian) (in_cksum : List ℕ → ℕ) (size : ℕ) (file : List ℕ) (width : ℕ)
    (fits : size ≤ max_buf) (pos : 0 < size) (short : length file + 2 < u32_mod) where
  -- An acknowledgement in its place.
  abbrev Acked : ℕ → ℕ → ℕ → Option Child → Type 0
  Acked lo k m o =
      (lo' : ℕ) × (c' : Child) × (o ≡ some c')
      × SenderAt e in_cksum size file width lo' k c'
      × (lo ≤ lo')
      × (lo' ≤ m)

  module _ (lo k m source : ℕ) (before : List ℕ) (c : Child)
      (v : SenderAt e in_cksum size file width lo k c) (above : lo ≤ m) (room : 7 ≤ length before)
      (within : k ≤ length file) where
    abbrev ack : List ℕ → Arrival
    ack bytes = record { bytes = bytes; source = source; before = before }

    rr-Acked : m ≤ suc k → Acked lo k m (receive_ack e in_cksum c (ack (wire e in_cksum m 5 [])))
    rr-Acked below =
        let a = ack (wire e in_cksum m 5 []) in
        let (number, flag) =
          ack-read e in_cksum m 5 source before (omega (arith, below, within, short)) room in
        let (c', eq, s, same) =
          receive_rr-Sending e in_cksum size file fits lo k c a v.sending flag in
        let here : max lo (min (seq_num (recv_from 7 a)) (suc k)) ≡ m =
          omega (arith, number, above, below) in
        let (kept, array, _, _) = rw eq at (receive_ack-size e in_cksum c a) in
        (
          m,
          c',
          eq,
          record {
            sending = subst (λ t. Sending e in_cksum size file t k c') here s;
            counted = v.counted;
            narrow = omega (arith, kept, v.narrow);
            store = omega (arith, v.store, ap length array);
            log = subst (AllSent (UpTo e in_cksum size file k)) (sym same) v.log;
          },
          above,
          omega arith,
        )

    abbrev readdressed : Child
    readdressed = record c { info = record c.info { client_addr = source } }

    readdressed-Sending : Sending e in_cksum size file lo k readdressed
    readdressed-Sending = record {
      holds = v.sending.holds;
      reads = v.sending.reads;
      sized = v.sending.sized;
      from_one = v.sending.from_one;
    }

    srej-Acked : m ≤ k → Acked lo k m (receive_ack e in_cksum c (ack (wire e in_cksum m 6 [])))
    unfolding receive_ack
    srej-Acked below =
        let (number, flag) =
          ack-read e in_cksum m 6 source before (omega (arith, below, within, short)) room in
        let s = seq_num (recv_from 7 (ack (wire e in_cksum m 6 []))) in
        let reply = wire e in_cksum s 17 (chunk_of size file s) in
        let answer =
          answer_srej-Sending e in_cksum size file fits lo k s readdressed readdressed-Sending
            (omega (arith, number, above)) (omega (arith, number, below)) in
        (
          lo,
          send readdressed reply,
          rw flag answer,
          record {
            sending = record {
              holds = v.sending.holds;
              reads = v.sending.reads;
              sized = v.sending.sized;
              from_one = v.sending.from_one;
            };
            counted = v.counted;
            narrow = v.narrow;
            store = v.store;
            log =
                AllSent-append (UpTo e in_cksum size file k) c.sent
                  (record { target = source; bytes = reply }) v.log
                  (carries s 17 refl (omega (arith, number, below)) refl);
          },
          omega arith,
          above,
        )

    eof_ack-Acked :
        (s : ℕ)
        → s < u32_mod
        → Acked lo k m (receive_ack e in_cksum c (ack (wire e in_cksum s 35 [])))
    unfolding receive_ack
    eof_ack-Acked s small =
        let (number, flag) = ack-read e in_cksum s 35 source before small room in
        (
          lo,
          readdressed,
          rw flag refl,
          record {
            sending = readdressed-Sending;
            counted = v.counted;
            narrow = v.narrow;
            store = v.store;
            log = v.log;
          },
          omega arith,
          above,
        )

    ack-Acked :
        (bytes : List ℕ)
        → IsAck e in_cksum k m bytes
        → m ≤ suc k
        → Acked lo k m (receive_ack e in_cksum c (ack bytes))
    ack-Acked bytes (inl rr) below = rw rr (rr-Acked below)
    ack-Acked bytes (inr (inl (srej, sent_before))) below = rw srej (srej-Acked sent_before)
    ack-Acked bytes (inr (inr (s, eof, small))) below = rw eof (eof_ack-Acked s small)

  -- What a step of the sender on an acknowledgement comes to.
  abbrev pub SendsOn : ℕ → ℕ → ℕ → Option SenderState → Type 0
  SendsOn lo k m o =
      (lo' : ℕ) × (k' : ℕ) × (st : SenderState) × (o ≡ some st)
      × (k ≤ k')
      × SenderOk e in_cksum size file width lo' k' st
      × (k' < lo' + width)
      × (k' ≤ length file)
      × (lo' ≤ m)

  -- A datagram behind the EOF.
  eof_ack-SendsOn :
      (lo k : ℕ) (c : Child) (a : Arrival)
      → AllSent (UpTo e in_cksum size file k) c.sent
      → KeepsEof e in_cksum size file c
      → (st : SenderState) × (next_eof_poll e in_cksum
            (wait_on_eof_ack_state e in_cksum c (ready a ∷ []))
          ≡ some st)
        × SenderOk e in_cksum size file width lo k st
  unfolding wait_on_eof_ack_state
  eof_ack-SendsOn lo k c a log eof =
      let c' : Child = record c { info = record c.info { client_addr = a.source } } in
      elim (Bool-cases (is_eof_ack e in_cksum c' (recv_from max_buf a))) [
        | inl acked ↦ (over c', rw acked refl, log)
        | inr other ↦ (closes c', rw other refl, (log, eof))
      ]

  pub on_ack-SendsOn :
      (lo k m source : ℕ) (bytes before : List ℕ) (st : SenderState)
      → SenderOk e in_cksum size file width lo k st
      → IsAck e in_cksum k m bytes
      → lo ≤ m
      → m ≤ suc k
      → 7 ≤ length before
      → k < lo + width
      → k ≤ length file
      → SendsOn lo k m
          (on_ack e in_cksum (record { bytes = bytes; source = source; before = before }) st)
  unfolding on_ack
  on_ack-SendsOn lo k m source bytes before (over c) v is above below room near within =
      (lo, k, over c, refl, omega arith, v, near, within, above)
  on_ack-SendsOn lo k m source bytes before (closes c) (log, eof) is above below room near within =
      let a : Arrival = record { bytes = bytes; source = source; before = before } in
      let (st, eq, ok) = eof_ack-SendsOn lo k c a log eof in
      (lo, k, st, eq, omega arith, ok, near, within, above)
  on_ack-SendsOn lo k m source bytes before (polls sent c seq count) (at, v, here) is above below
        room near within =
      let (lo', c', eq, v', up, down) =
        ack-Acked lo k m source before c v above room within bytes is below in
      rw (on_ack, eq)
        (
          lo',
          k,
          polls sent c' seq count,
          refl,
          omega arith,
          (at, v', tt),
          omega (arith, near, up),
          within,
          down,
        )
  on_ack-SendsOn lo k m source bytes before (polls full c seq count) (at, v, here) is above below
        room near within =
      let (lo', c', eq, v', up, down) =
        ack-Acked lo k m source before c v above room within bytes is below in
      let (lo'', k', st, eq', more, ok, near', within', same) =
        next_poll-Sends e in_cksum size file width fits pos short lo' k c' v'
          (omega (arith, near, up)) within in
      rw (on_ack, eq, at) (lo'', k', st, eq', more, ok, near', within', omega (arith, same, down))
