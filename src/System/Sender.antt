-- ===== src/System/Sender.antt =====
-- Workspace/server.c: the steps of the sender without an acknowledgement.
use remote_file_copy_udp_pro.Base.{
  ℕ, suc, ◌+◌, ◌≤◌, ◌<◌, ◌≡◌, refl, sym, subst, Bool, true, false, Option, some, List, [], length,
  length-drop, arith, Endian, u32_mod, leb, if◌then◌else◌, take, ap, Bool-cases, inl, inr,
}
use remote_file_copy_udp_pro.CircularQueue.{is_full}
use remote_file_copy_udp_pro.Pdu.{max_buf, create_pdu, datagram, stack_array, length-stack_array}
use remote_file_copy_udp_pro.Pdu.Wire.{wire, create_pdu-wire}
use remote_file_copy_udp_pro.Server.{
  Child, Next, sent, full, fill, send_eof, send, resend_eof_state,
}
use remote_file_copy_udp_pro.Server.Chunks.{
  chunk_of, rest_of, Filled, window_full, file_end, chunk_sent, fill-Filled,
}
use remote_file_copy_udp_pro.Server.EofKept.{send_eof_kept}
use remote_file_copy_udp_pro.Server.Log.{AllSent, AllSent-append}
use remote_file_copy_udp_pro.Server.Sizes.{KeepsNext, fill-size}
use remote_file_copy_udp_pro.Server.Timeouts.{resend_first-Sending}
use remote_file_copy_udp_pro.System.Defs.{
  SenderState, polls, closes, over, next_poll, on_second, next_eof_poll,
}
use remote_file_copy_udp_pro.System.Invariant.{
  UpTo, carries, ends_file, AllSent-later, SenderAt, SenderOk, KeepsEof,
}

module _ (e : Endian) (in_cksum : List ℕ → ℕ) (size : ℕ) (file : List ℕ) (width : ℕ)
    (fits : size ≤ max_buf) (pos : 0 < size) (short : length file + 2 < u32_mod) where
  -- What a step of the sender comes to.
  abbrev pub Sends : ℕ → ℕ → Option SenderState → Type 0
  Sends lo k o =
      (lo' : ℕ) × (k' : ℕ) × (st : SenderState) × (o ≡ some st)
      × (k ≤ k')
      × SenderOk e in_cksum size file width lo' k' st
      × (k' < lo' + width)
      × (k' ≤ length file)
      × (lo' ≡ lo)

  send_eof-UpTo :
      (k : ℕ) (c : Child)
      → suc k < u32_mod
      → AllSent (UpTo e in_cksum size file k) c.sent
      → AllSent (UpTo e in_cksum size file k) (send_eof e in_cksum c (suc k)).sent
  unfolding send_eof
  send_eof-UpTo k c small log =
      let eof = create_pdu e in_cksum (stack_array 7) (suc k) 10 [] in
      AllSent-append (UpTo e in_cksum size file k) c.sent
        (record { target = c.client_addr; bytes = datagram eof }) log
        (ends_file (suc k) small (
          create_pdu-wire e in_cksum (stack_array 7) (suc k) 10 []
            (omega (arith, length-stack_array 7))))

  -- From the head of the loop to the next poll.
  pub next_poll-Sends :
      (lo k : ℕ) (c : Child)
      → SenderAt e in_cksum size file width lo k c
      → k < lo + width
      → k ≤ length file
      → Sends lo k (next_poll e in_cksum (suc k) (fill e in_cksum c (suc k)))
  next_poll-Sends lo k c v near within =
      go (fill e in_cksum c (suc k))
        (fill-Filled e in_cksum size file fits lo k c pos (omega (arith, within, short)) v.sending)
        (fill-size e in_cksum c (suc k))
    where
      go :
          (next : Next)
          → Filled e in_cksum size file fits lo k c next
          → KeepsNext c next
          → Sends lo k (next_poll e in_cksum (suc k) next)
      go next (window_full eq at) kept =
          rw eq
            (lo, k, polls full c (suc k) 0, refl, omega arith, (refl, v, at), near, within, refl)
      go next (file_end eq end) kept = rw eq (
        lo,
        k,
        closes (send_eof e in_cksum c (suc k)),
        refl,
        omega arith,
        (
          send_eof-UpTo k c (omega (arith, within, short)) v.log,
          (suc k, omega (arith, within, short), send_eof_kept e in_cksum (suc k) c v.store),
        ),
        near,
        within,
        refl,
      )
      go next (chunk_sent c' eq s more log) kept =
          let (same, array, _, _) = rw eq at kept in
          let v' : SenderAt e in_cksum size file width lo (suc k) c' = record {
            sending = s;
            counted = omega (arith, v.counted, more, length-drop size (rest_of size file k), pos);
            narrow = omega (arith, same, v.narrow);
            store = omega (arith, v.store, ap length array);
            log = subst (AllSent (UpTo e in_cksum size file (suc k))) (sym log) (
                AllSent-append (UpTo e in_cksum size file (suc k)) c.sent _
                  (AllSent-later e in_cksum size file k (suc k) c.sent (omega arith) v.log)
                  (carries (suc k) 16 refl (omega arith) refl));
          } in
          rw eq (
            lo,
            suc k,
            polls sent c' (suc (suc k)) 0,
            refl,
            omega arith,
            (refl, v', tt),
            omega (arith, s.holds.fits, s.holds.order, same, v.narrow),
            omega (arith, v'.counted),
            refl,
          )

  -- A time-out behind the EOF.
  resend_eof-Sends :
      (lo k : ℕ) (c : Child)
      → AllSent (UpTo e in_cksum size file k) c.sent
      → KeepsEof e in_cksum size file c
      → (st : SenderState) × (next_eof_poll e in_cksum (resend_eof_state c []) ≡ some st)
        × SenderOk e in_cksum size file width lo k st
  unfolding resend_eof_state
  resend_eof-Sends lo k c log (s, small, eof) = elim (Bool-cases (leb 10 c.eof_resend_count)) [
    | inl last ↦ (over c, rw last refl, log)
    | inr more ↦
        let bytes = take c.eof_len c.eof_packet in
        let c' : Child = record (send c bytes) {
          info = record c.info { eof_resend_count = c.eof_resend_count + 1 };
        } in
        (
          closes c',
          rw more refl,
          (
            AllSent-append (UpTo e in_cksum size file k) c.sent
                (record { target = c.client_addr; bytes = bytes }) log (ends_file s small eof),
            (s, small, eof),
          ),
        )
  ]

  -- A time-out.
  pub on_second-Sends :
      (lo k : ℕ) (st : SenderState)
      → SenderOk e in_cksum size file width lo k st
      → k < lo + width
      → k ≤ length file
      → Sends lo k (on_second e in_cksum st)
  unfolding on_second
  on_second-Sends lo k (over c) v near within =
      (lo, k, over c, refl, omega arith, v, near, within, refl)
  on_second-Sends lo k (closes c) (log, eof) near within =
      let (st, eq, ok) = resend_eof-Sends lo k c log eof in
      (lo, k, st, eq, omega arith, ok, near, within, refl)
  on_second-Sends lo k (polls sent c seq count) (at, v, here) near within =
      subst (λ t. Sends lo k (next_poll e in_cksum t (fill e in_cksum c t))) (sym at)
        (next_poll-Sends lo k c v near within)
  on_second-Sends lo k (polls full c seq count) (at, v, here) near within =
      let (s, above, below, eq) =
        resend_first-Sending e in_cksum size file fits lo k c (omega (arith, within, short))
          v.sending here in
      let again = wire e in_cksum s 18 (chunk_of size file s) in
      let v' : SenderAt e in_cksum size file width lo k (send c again) = record {
        sending = record {
          holds = v.sending.holds;
          reads = v.sending.reads;
          sized = v.sending.sized;
          from_one = v.sending.from_one;
        };
        counted = v.counted;
        narrow = v.narrow;
        store = v.store;
        log =
            AllSent-append (UpTo e in_cksum size file k) c.sent
              (record { target = c.client_addr; bytes = again }) v.log
              (carries s 18 refl below refl);
      } in
      rw (on_second, eq) (go (send c again) (leb 10 (count + 1)) v' here)
    where
      go :
          (c' : Child) (last : Bool)
          → SenderAt e in_cksum size file width lo k c'
          → is_full c'.window ≡ true
          → Sends lo k (some (if last then over c' else polls full c' seq (count + 1)))
      go c' true v' here' = (lo, k, over c', refl, omega arith, v'.log, near, within, refl)
      go c' false v' here' = (
        lo,
        k,
        polls full c' seq (count + 1),
        refl,
        omega arith,
        (at, v', here'),
        near,
        within,
        refl,
      )
