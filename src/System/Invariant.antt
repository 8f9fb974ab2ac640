-- ===== src/System/Invariant.antt =====
-- Workspace/server.c and Workspace/rcopy.c: what holds of both ends and of the network between them.
use remote_file_copy_udp_pro.Base.{
  without, ℕ, zero, suc, ◌^◌, ◌+◌, ◌≤◌, ◌<◌, ◌≡◌, ◌⊎◌, inl, inr, true, List, [], ◌∷◌, ◌++◌, length,
  take, arith, Endian,
}
use remote_file_copy_udp_pro.CircularQueue.{is_full}
use remote_file_copy_udp_pro.Net.{Sent}
use remote_file_copy_udp_pro.Pdu.{max_buf}
use remote_file_copy_udp_pro.Pdu.Wire.{wire}
use remote_file_copy_udp_pro.Receiver.{TransferState, ReceiveInfo, is_data}
use remote_file_copy_udp_pro.Receiver.Prefix.{HasPrefix}
use remote_file_copy_udp_pro.Receiver.Step.{Ready}
use remote_file_copy_udp_pro.Server.{Child, Poll, sent, full}
use remote_file_copy_udp_pro.Server.Chunks.{chunk_of, rest_of, Sending}
use remote_file_copy_udp_pro.Server.Log.{AllSent}
use remote_file_copy_udp_pro.System.Defs.{
  SenderState, polls, closes, over, ReceiverState, receives, closed, Both, Action, second, take_ack,
  lose_ack, deliver,
}

-- The poll on a full window.
abbrev pub IsAt : Poll → Child → Type 0
IsAt sent c = Unit
IsAt full c = is_full c.window ≡ true

-- The packet that the receiver expects.
abbrev pub expected_of : ReceiverState → ℕ
expected_of (receives state info) = info.expected
expected_of (closed info) = info.expected

-- The arrays that a `recvfrom` is given have room for its datagram.
abbrev pub IsRoomy : Action → Type 0
IsRoomy second = Unit
IsRoomy (take_ack source before) = 7 ≤ length before
IsRoomy (lose_ack i) = Unit
IsRoomy (deliver i source before) = max_buf + 7 ≤ length before

abbrev pub AllRoomy : List Action → Type 0
AllRoomy [] = Unit
AllRoomy (a ∷ actions) = IsRoomy a × AllRoomy actions

module _ (e : Endian) (in_cksum : List ℕ → ℕ) where
  -- An acknowledgement with the number `m`: an RR, an SREJ for a packet that has been sent, or that of
  -- an EOF, whose own number does not matter.
  abbrev pub IsAck : ℕ → ℕ → List ℕ → Type 0
  IsAck k m bytes =
      (bytes ≡ wire e in_cksum m 5 [])
      ⊎ ((bytes ≡ wire e in_cksum m 6 []) × (m ≤ k))
      ⊎ ((s : ℕ) × (bytes ≡ wire e in_cksum s 35 []) × (s < 2 ^ 32))

  -- The numbers of the acknowledgements do not fall, from `lo` to `top`.
  abbrev pub AcksOk : ℕ → ℕ → ℕ → List Sent → Type 0
  AcksOk lo top k [] = lo ≤ top
  AcksOk lo top k (x ∷ rest) = (m : ℕ) × (lo ≤ m) × IsAck k m x.bytes × AcksOk m top k rest

  pub AcksOk-order : (lo top k : ℕ) (acks : List Sent) → AcksOk lo top k acks → lo ≤ top
  AcksOk-order lo top k [] ok = ok
  AcksOk-order lo top k (x ∷ rest) (m, le, is, ok) = omega (arith, le, AcksOk-order m top k rest ok)

  pub AcksOk-lower :
      (lo lo' top k : ℕ) (acks : List Sent)
      → lo' ≤ lo
      → AcksOk lo top k acks
      → AcksOk lo' top k acks
  AcksOk-lower lo lo' top k [] le ok = omega (arith, le, ok)
  AcksOk-lower lo lo' top k (x ∷ rest) le (m, above, is, ok) = (m, omega (arith, le, above), is, ok)

  IsAck-later : (k k' m : ℕ) (bytes : List ℕ) → k ≤ k' → IsAck k m bytes → IsAck k' m bytes
  IsAck-later k k' m bytes le (inl rr) = inl rr
  IsAck-later k k' m bytes le (inr (inl (srej, below))) = inr (inl (srej, omega (arith, le, below)))
  IsAck-later k k' m bytes le (inr (inr eof)) = inr (inr eof)

  pub AcksOk-later :
      (lo top k k' : ℕ) (acks : List Sent) → k ≤ k' → AcksOk lo top k acks → AcksOk lo top k' acks
  AcksOk-later lo top k k' [] le ok = ok
  AcksOk-later lo top k k' (x ∷ rest) le (m, above, is, ok) =
      (m, above, IsAck-later k k' m x.bytes le is, AcksOk-later m top k k' rest le ok)

  pub AcksOk-without :
      (lo top k i : ℕ) (acks : List Sent) → AcksOk lo top k acks → AcksOk lo top k (without i acks)
  AcksOk-without lo top k i [] ok = ok
  AcksOk-without lo top k zero (x ∷ rest) (m, above, is, ok) = AcksOk-lower m lo top k rest above ok
  AcksOk-without lo top k (suc i) (x ∷ rest) (m, above, is, ok) =
      (m, above, is, AcksOk-without m top k i rest ok)

  pub AcksOk-raise :
      (lo top top' k : ℕ) (acks : List Sent)
      → top ≤ top'
      → AcksOk lo top k acks
      → AcksOk lo top' k acks
  AcksOk-raise lo top top' k [] le ok = omega (arith, le, ok)
  AcksOk-raise lo top top' k (x ∷ rest) le (m, above, is, ok) =
      (m, above, is, AcksOk-raise m top top' k rest le ok)

  pub AcksOk-append :
      (lo top k : ℕ) (acks : List Sent) (x : Sent)
      → AcksOk lo top k acks
      → IsAck k top x.bytes
      → AcksOk lo top k (acks ++ (x ∷ []))
  AcksOk-append lo top k [] x ok is = (top, ok, is, omega arith)
  AcksOk-append lo top k (y ∷ rest) x (m, above, is', ok) is =
      (m, above, is', AcksOk-append m top k rest x ok is)

  module _ (size : ℕ) (file : List ℕ) where
    -- What may be on its way to the receiver: the acceptance of a name, the data up to the chunk `k`,
    -- and EOFs.
    pub data UpTo (k : ℕ) (bytes : List ℕ) : Type 0 where
      accepts :
          (name : List ℕ) → length name ≤ max_buf → bytes ≡ wire e in_cksum 0 9 name → UpTo k bytes
      carries :
          (s flag : ℕ)
          → is_data flag ≡ true
          → s ≤ k
          → bytes ≡ wire e in_cksum s flag (chunk_of size file s)
          → UpTo k bytes
      ends_file : (s : ℕ) → s < 2 ^ 32 → bytes ≡ wire e in_cksum s 10 [] → UpTo k bytes

    UpTo-later : (k k' : ℕ) (bytes : List ℕ) → k ≤ k' → UpTo k bytes → UpTo k' bytes
    UpTo-later k k' bytes le (accepts name short eq) = accepts name short eq
    UpTo-later k k' bytes le (carries s flag is below eq) =
        carries s flag is (omega (arith, le, below)) eq
    UpTo-later k k' bytes le (ends_file s small eq) = ends_file s small eq

    pub AllSent-later :
        (k k' : ℕ) (log : List Sent) → k ≤ k' → AllSent (UpTo k) log → AllSent (UpTo k') log
    unfolding AllSent
    AllSent-later k k' [] le all = tt
    AllSent-later k k' (x ∷ log) le all =
        (UpTo-later k k' x.bytes le all.0, AllSent-later k k' log le all.1)

    -- The EOF that `resend_eof_state` sends again.
    abbrev pub KeepsEof : Child → Type 0
    KeepsEof c = (s : ℕ) × (s < 2 ^ 32) × (take c.eof_len c.eof_packet ≡ wire e in_cksum s 10 [])

    -- The sender behind `k` chunks, with a window from `lo` on that is no wider than the receiver's.
    pub record SenderAt (width lo k : ℕ) (c : Child) : Type 0 where
      pub sending : Sending e in_cksum size file lo k c
      pub counted : k + length (rest_of size file k) ≤ length file
      pub narrow : c.window.window_size ≤ width
      pub store : 7 ≤ length c.eof_packet
      pub log : AllSent (UpTo k) c.sent

    abbrev pub SenderOk : ℕ → ℕ → ℕ → SenderState → Type 0
    SenderOk width lo k (polls poll c seq count) =
        (seq ≡ suc k) × SenderAt width lo k c × IsAt poll c
    SenderOk width lo k (closes c) = AllSent (UpTo k) c.sent × KeepsEof c
    SenderOk width lo k (over c) = AllSent (UpTo k) c.sent

    abbrev pub ReceiverOk : ℕ → ℕ → ReceiverState → Type 0
    ReceiverOk width k (receives state info) =
        Ready (chunk_of size file) k state info × (info.window_size ≡ width)
    ReceiverOk width k (closed info) = HasPrefix (chunk_of size file) k info

    -- Both ends: `k` chunks have been sent, and the numbers below `lo` are acknowledged.
    pub record Fine (width : ℕ) (s : Both) : Type 0 where
      pub lo : ℕ
      pub k : ℕ
      pub sender : SenderOk width lo k s.sender
      pub receiver : ReceiverOk width k s.receiver
      pub acks : AcksOk lo (expected_of s.receiver) k s.acks
      pub near : k < lo + width
      pub in_file : k ≤ length file

    pub Ready-later :
        (k k' : ℕ) (state : TransferState) (info : ReceiveInfo)
        → k ≤ k'
        → Ready (chunk_of size file) k state info
        → Ready (chunk_of size file) k' state info
    Ready-later k k' state info le r = record {
      k = r.k;
      inv = record {
        nonempty = r.inv.nonempty;
        sized = r.inv.sized;
        arrays = r.inv.arrays;
        next = r.inv.next;
        within = omega (arith, le, r.inv.within);
        high = omega (arith, le, r.inv.high);
        file = r.inv.file;
        slots = r.inv.slots;
      };
      calm = r.calm;
    }

    pub ReceiverOk-later :
        (width k k' : ℕ) (r : ReceiverState) → k ≤ k' → ReceiverOk width k r → ReceiverOk width k' r
    ReceiverOk-later width k k' (receives state info) le (r, same) =
        (Ready-later k k' state info le r, same)
    ReceiverOk-later width k k' (closed info) le p = record {
      k = p.k;
      within = omega (arith, le, p.within);
      file = p.file;
      next = p.next;
    }
