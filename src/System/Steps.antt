-- ===== src/System/Steps.antt =====
-- Workspace/server.c and Workspace/rcopy.c: one step of both ends.
use remote_file_copy_udp_pro.Base.{
  without, ℕ, zero, suc, ◌+◌, ◌≤◌, ◌<◌, ◌≡◌, refl, subst, inl, inr, Option, none, some, List, [],
  ◌∷◌, ◌++◌, length, get_elem?, arith, Endian, u32_mod, Option-cases,
}
use remote_file_copy_udp_pro.Net.{Sent}
use remote_file_copy_udp_pro.Pdu.{max_buf}
use remote_file_copy_udp_pro.Server.Log.{AllSent}
use remote_file_copy_udp_pro.System.Defs.{
  SenderState, polls, closes, over, child_of, ReceiverState, receives, closed, Both, Action, second,
  take_ack, lose_ack, deliver, step,
}
use remote_file_copy_udp_pro.System.Deliver.{on_datagram-Receives}
use remote_file_copy_udp_pro.System.Invariant.{
  AcksOk-order, AcksOk-lower, AcksOk-later, AcksOk-without, UpTo, IsRoomy, SenderOk, ReceiverOk,
  ReceiverOk-later, Fine, expected_of,
}
use remote_file_copy_udp_pro.System.Sender.{on_second-Sends}
use remote_file_copy_udp_pro.System.Acks.{on_ack-SendsOn}

module _ (e : Endian) (in_cksum : List ℕ → ℕ) (size : ℕ) (file : List ℕ) (width : ℕ)
    (fits : size ≤ max_buf) (pos : 0 < size) (short : length file + 2 < u32_mod) where
  abbrev pub Good : Both → Type 0
  Good s = Fine e in_cksum size file width s

  -- What an action comes to.
  abbrev pub Steps : Option Both → Type 0
  Steps o = (s' : Both) × (o ≡ some s') × Good s'

  second-Steps : (s : Both) → Good s → Steps (step e in_cksum second s)
  unfolding step
  second-Steps s v =
      let (lo', k', st, eq, more, ok, near, within, same) =
        on_second-Sends e in_cksum size file width fits pos short v.lo v.k s.sender v.sender v.near
          v.in_file in
      rw (step, eq)
        (
          record s { sender = st },
          refl,
          record {
            lo = lo';
            k = k';
            sender = ok;
            receiver =
                ReceiverOk-later e in_cksum size file width v.k k' s.receiver more v.receiver;
            acks =
                AcksOk-lower e in_cksum v.lo lo' (expected_of s.receiver) k' s.acks
                  (omega (arith, same))
                  (AcksOk-later e in_cksum v.lo (expected_of s.receiver) v.k k' s.acks more v.acks);
            near = near;
            in_file = within;
          },
        )

  -- The packet that is expected has been sent, or is the next one.
  expected-le :
      (k : ℕ) (r : ReceiverState)
      → ReceiverOk e in_cksum size file width k r
      → expected_of r ≤ suc k
  expected-le k (receives state info) (v, window) = omega (arith, v.inv.next, v.inv.within)
  expected-le k (closed info) p = omega (arith, p.next, p.within)

  take_ack-Steps :
      (source : ℕ) (before : List ℕ) (s : Both) (acks : List Sent)
      → s.acks ≡ acks
      → 7 ≤ length before
      → Good s
      → Steps (step e in_cksum (take_ack source before) s)
  unfolding step
  take_ack-Steps source before s [] none_there room v = rw (step, none_there) (s, refl, v)
  take_ack-Steps source before s (x ∷ rest) there room v =
      let (m, above, is, ok) = rw there at v.acks in
      let below : m ≤ suc v.k = omega (
        arith,
        AcksOk-order e in_cksum m (expected_of s.receiver) v.k rest ok,
        expected-le v.k s.receiver v.receiver,
      ) in
      let (lo', k', st, eq, more, sender, near, within, under) =
        on_ack-SendsOn e in_cksum size file width fits pos short v.lo v.k m source x.bytes before
          s.sender v.sender is above below room v.near v.in_file in
      rw (step, there, eq)
        (
          record s { sender = st; acks = rest },
          refl,
          record {
            lo = lo';
            k = k';
            sender = sender;
            receiver =
                ReceiverOk-later e in_cksum size file width v.k k' s.receiver more v.receiver;
            acks =
                AcksOk-lower e in_cksum m lo' (expected_of s.receiver) k' rest under
                  (AcksOk-later e in_cksum m (expected_of s.receiver) v.k k' rest more ok);
            near = near;
            in_file = within;
          },
        )

  lose_ack-Steps : (i : ℕ) (s : Both) → Good s → Steps (step e in_cksum (lose_ack i) s)
  unfolding step
  lose_ack-Steps i s v = (
    record s { acks = without i s.acks },
    refl,
    record {
      lo = v.lo;
      k = v.k;
      sender = v.sender;
      receiver = v.receiver;
      acks = AcksOk-without e in_cksum v.lo (expected_of s.receiver) v.k i s.acks v.acks;
      near = v.near;
      in_file = v.in_file;
    },
  )

  log-UpTo :
      (lo k : ℕ) (st : SenderState)
      → SenderOk e in_cksum size file width lo k st
      → AllSent (UpTo e in_cksum size file k) (child_of st).sent
  log-UpTo lo k (polls poll c seq count) (at, v, here) = v.log
  log-UpTo lo k (closes c) (log, eof) = log
  log-UpTo lo k (over c) log = log

  AllSent-get :
      (P : List ℕ → Type 0) (log : List Sent) (i : ℕ) (x : Sent)
      → AllSent P log
      → get_elem? log i ≡ some x
      → P x.bytes
  unfolding AllSent
  AllSent-get P [] i x all found = absurd (cc found)
  AllSent-get P (y ∷ log) zero x all found = subst (λ o. Got P o) found all.0
    where
      Got : (List ℕ → Type 0) → Option Sent → Type 0
      Got P none = Unit
      Got P (some x) = P x.bytes
  AllSent-get P (y ∷ log) (suc i) x all found = AllSent-get P log i x all.1 found

  deliver-Steps :
      (i source : ℕ) (before : List ℕ) (s : Both)
      → max_buf + 7 ≤ length before
      → Good s
      → Steps (step e in_cksum (deliver i source before) s)
  unfolding step
  deliver-Steps i source before s room v =
      elim (Option-cases (get_elem? (child_of s.sender).sent i)) [
        | inl nothing ↦ rw (step, nothing) (s, refl, v)
        | inr (x, found) ↦
            let up =
              AllSent-get (UpTo e in_cksum size file v.k) (child_of s.sender).sent i x
                (log-UpTo v.lo v.k s.sender v.sender) found in
            let (r', out, eq, ok, rises, joins) =
              on_datagram-Receives e in_cksum size file width fits short v.lo v.k source x.bytes
                before s.receiver v.receiver up room v.in_file v.near
                (AcksOk-order e in_cksum v.lo (expected_of s.receiver) v.k s.acks v.acks) in
            rw (step, found, eq)
              (
                record s { receiver = r'; acks = s.acks ++ out },
                refl,
                record {
                  lo = v.lo;
                  k = v.k;
                  sender = v.sender;
                  receiver = ok;
                  acks = joins v.lo s.acks v.acks;
                  near = v.near;
                  in_file = v.in_file;
                },
              )
      ]

  pub step-Steps : (a : Action) (s : Both) → IsRoomy a → Good s → Steps (step e in_cksum a s)
  step-Steps second s room v = second-Steps s v
  step-Steps (take_ack source before) s room v = take_ack-Steps source before s s.acks refl room v
  step-Steps (lose_ack i) s room v = lose_ack-Steps i s v
  step-Steps (deliver i source before) s room v = deliver-Steps i source before s room v
