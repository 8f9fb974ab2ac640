-- ===== src/System/Deliver.antt =====
-- Workspace/rcopy.c: a datagram of the sender that arrives at the receiver.
use remote_file_copy_udp_pro.Base.{
  ℕ, ◌+◌, ◌≤◌, ◌<◌, ◌≡◌, refl, sym, ap, subst, ◌∙◌, inl, inr, Bool, true, false, Option, none, some,
  List, [], ◌∷◌, ◌++◌, append-nil, length, drop, take-all, arith, Endian, u32_mod, if◌then◌else◌,
}
use remote_file_copy_udp_pro.Net.{Sent, recv_from}
use remote_file_copy_udp_pro.Pdu.{
  Received, receive_into, seq_num, flag_of, payload_of, max_buf, stack_array, length-stack_array,
  rr_pdu, srej_pdu,
}
use remote_file_copy_udp_pro.Pdu.RoundTrip.{receive-wire}
use remote_file_copy_udp_pro.Pdu.Wire.{wire, length-wire, create_pdu-wire, control-create_pdu}
use remote_file_copy_udp_pro.Receiver.{TransferState, ReceiveInfo, is_data, on_packet}
use remote_file_copy_udp_pro.Receiver.Prefix.{HasPrefix, Ready-relabel, on_packet-Ready}
use remote_file_copy_udp_pro.Receiver.Step.{Ready}
use remote_file_copy_udp_pro.Server.Chunks.{chunk_of, length-chunk_of}
use remote_file_copy_udp_pro.System.Defs.{ReceiverState, receives, closed, on_datagram}
use remote_file_copy_udp_pro.System.Invariant.{
  IsAck, AcksOk, AcksOk-raise, AcksOk-append, UpTo, accepts, carries, ends_file, ReceiverOk,
  expected_of,
}
use remote_file_copy_udp_pro.System.Receiver.{Replies, AnswersEof, on_packet-Told}

-- What stands behind a list.
drop-all : (xs : List Sent) → drop (length xs) xs ≡ []
drop-all [] = refl
drop-all (x ∷ xs) = drop-all xs

pub drop-append : (xs ys : List Sent) → drop (length xs) (xs ++ ys) ≡ ys
drop-append [] ys = refl
drop-append (x ∷ xs) ys = drop-append xs ys

module _ (e : Endian) (in_cksum : List ℕ → ℕ) (size : ℕ) (file : List ℕ) (width : ℕ)
    (fits : size ≤ max_buf) (short : length file + 2 < u32_mod) where
  -- What is read of a datagram of the sender.
  abbrev IsRead : ℕ → Received → Type 0
  IsRead k d =
      (seq_num d < u32_mod)
      × (is_data (flag_of d) ≡ true
          → (payload_of d ≡ some (chunk_of size file (seq_num d))) × (seq_num d ≤ k))

  -- A PDU as the receiver has it.
  pub pdu-read :
      (s flag source : ℕ) (payload before : List ℕ)
      → s < u32_mod
      → length payload ≤ max_buf
      → max_buf + 7 ≤ length before
      → let d =
          recv_from
            (max_buf + 7)
            (record { bytes = wire e in_cksum s flag payload; source = source; before = before }) in
        (seq_num d ≡ s) × (flag_of d ≡ flag) × (payload_of d ≡ some payload)
  pdu-read s flag source payload before small long room =
      let whole =
        take-all (wire e in_cksum s flag payload) (max_buf + 7)
          (omega (arith, long, length-wire e in_cksum s flag payload)) in
      subst
        (λ bytes.
          let d = receive_into before bytes source in
          (seq_num d ≡ s) × (flag_of d ≡ flag) × (payload_of d ≡ some payload))
        (sym whole)
        (receive-wire e in_cksum before s flag payload source small (omega (arith, long, room)))

  UpTo-IsRead :
      (k source : ℕ) (bytes before : List ℕ)
      → UpTo e in_cksum size file k bytes
      → k ≤ length file
      → max_buf + 7 ≤ length before
      → IsRead k
          (recv_from (max_buf + 7) (record { bytes = bytes; source = source; before = before }))
  UpTo-IsRead k source bytes before (accepts name long eq) within room =
      let (number, flag, _) = pdu-read 0 9 source name before (omega arith) long room in
      rw eq (omega (arith, number), λ h. absurd (ground (arith, rw flag at h)))
  UpTo-IsRead k source bytes before (ends_file s small eq) within room =
      let (number, flag, _) = pdu-read s 10 source [] before small (omega arith) room in
      rw eq (omega (arith, number, small), λ h. absurd (ground (arith, rw flag at h)))
  UpTo-IsRead k source bytes before (carries s flag is below eq) within room =
      let (number, same, payload) =
        pdu-read s flag source (chunk_of size file s) before (omega (arith, below, within, short))
          (length-chunk_of e in_cksum size file fits s) room in
      rw eq (
        omega (arith, number, below, within, short),
        λ h. (
          payload ∙ ap (λ t. some (chunk_of size file t)) (sym number),
          omega (arith, number, below),
        ),
      )

  -- The two control PDUs on the wire.
  pub rr-wire : (s : ℕ) → rr_pdu e in_cksum s ≡ wire e in_cksum s 5 []
  rr-wire s =
      let array = stack_array 7 in
      (control-create_pdu e in_cksum array s (omega (arith, length-stack_array 7))).0
      ∙ create_pdu-wire e in_cksum array s 5 [] (omega (arith, length-stack_array 7))

  srej-wire : (s : ℕ) → srej_pdu e in_cksum s ≡ wire e in_cksum s 6 []
  srej-wire s =
      let array = stack_array 7 in
      (control-create_pdu e in_cksum array s (omega (arith, length-stack_array 7))).1
      ∙ create_pdu-wire e in_cksum array s 6 [] (omega (arith, length-stack_array 7))

  -- The acknowledgements with those that the receiver has just sent.
  abbrev Joins : ℕ → ℕ → ℕ → List Sent → Type 0
  Joins k top top' out =
      (lo : ℕ) (acks : List Sent)
      → AcksOk e in_cksum lo top k acks
      → AcksOk e in_cksum lo top' k (acks ++ out)

  one-Joins :
      (k top top' : ℕ) (x : Sent)
      → top ≤ top'
      → IsAck e in_cksum k top' x.bytes
      → Joins k top top' (x ∷ [])
  one-Joins k top top' x le is lo acks ok =
      AcksOk-append e in_cksum lo top' k acks x (AcksOk-raise e in_cksum lo top top' k acks le ok)
        is

  none-Joins : (k top top' : ℕ) → top ≤ top' → Joins k top top' []
  none-Joins k top top' le lo acks ok =
      subst (AcksOk e in_cksum lo top' k) (sym (append-nil acks))
        (AcksOk-raise e in_cksum lo top top' k acks le ok)

  Replies-Joins :
      (k : ℕ) (info info' : ReceiveInfo)
      → info.expected ≤ info'.expected
      → info'.highest ≤ k
      → Replies e in_cksum info info'
      → Joins k info.expected info'.expected (drop (length info.sent) info'.sent)
  Replies-Joins k info info' up high (inl same) =
      rw (same, drop-all info.sent) (none-Joins k info.expected info'.expected up)
  Replies-Joins k info info' up high (inr (target, bytes, more, inl rr)) =
      rw (more, drop-append info.sent (record { target = target; bytes = bytes } ∷ []))
        (one-Joins k info.expected info'.expected (record { target = target; bytes = bytes }) up
          (inl (rr ∙ rr-wire info'.expected)))
  Replies-Joins k info info' up high (inr (target, bytes, more, inr (srej, below))) =
      rw (more, drop-append info.sent (record { target = target; bytes = bytes } ∷ []))
        (one-Joins k info.expected info'.expected (record { target = target; bytes = bytes }) up
          (inr (inl (srej ∙ srej-wire info'.expected, omega (arith, below, high)))))

  eof-Joins :
      (k s : ℕ) (info info' : ReceiveInfo)
      → info.expected ≤ info'.expected
      → s < u32_mod
      → AnswersEof e in_cksum s info info'
      → Joins k info.expected info'.expected (drop (length info.sent) info'.sent)
  eof-Joins k s info info' up small (target, more) =
      rw
        (
          more,
          drop-append info.sent (record { target = target; bytes = wire e in_cksum s 35 [] } ∷ []),
        )
        (one-Joins k info.expected info'.expected
          (record { target = target; bytes = wire e in_cksum s 35 [] }) up
          (inr (inr (s, refl, small))))

  -- What the receiver comes to on a datagram of the sender.
  abbrev pub Receives : ℕ → ReceiverState → Option (ReceiverState × List Sent) → Type 0
  Receives k r o =
      (r' : ReceiverState) × (out : List Sent) × (o ≡ some (r', out))
      × ReceiverOk e in_cksum size file width k r'
      × (expected_of r ≤ expected_of r')
      × Joins k (expected_of r) (expected_of r') out

  -- The receiver on one datagram that `on_packet` has looked at.
  packet-Receives :
      (k : ℕ) (info at : ReceiveInfo) (d : Received) (state : TransferState)
      → at.sent ≡ info.sent
      → at.expected ≡ info.expected
      → at.window_size ≡ width
      → k ≤ length file
      → seq_num d < u32_mod
      → at.expected + 1 < u32_mod
      → at.highest + 1 < u32_mod
      → ((is_done : Bool) × (state' : TransferState) × (info' : ReceiveInfo) × (on_packet e in_cksum
              state at d
            ≡ some (is_done, state', info'))
          × (if is_done
              then HasPrefix (chunk_of size file) k info'
              else Ready (chunk_of size file) k state' info'))
      → Receives k (receives state info) (elim (on_packet e in_cksum state at d) [
        | none ↦ none
        | some (is_done, state', info'') ↦ some (
          if is_done then closed info'' else receives state' info'',
          drop (length info.sent) info''.sent,
        )
      ])
  packet-Receives k info at d state same_sent same_next window within small next high
        (true, state', info', eq, prefix) =
      let (moves, answers) = rw eq at (on_packet-Told e in_cksum state at d next high) in
      let joins = eof-Joins k (seq_num d) at info' moves.1 small answers in
      rw eq (
        closed info',
        drop (length info.sent) info'.sent,
        refl,
        prefix,
        omega (arith, moves.1, same_next),
        rw (same_next, same_sent) at joins,
      )
  packet-Receives k info at d state same_sent same_next window within small next high
        (false, state', info', eq, ready) =
      let (moves, replies) = rw eq at (on_packet-Told e in_cksum state at d next high) in
      let joins = Replies-Joins k at info' moves.1 ready.inv.high replies in
      rw eq (
        receives state' info',
        drop (length info.sent) info'.sent,
        refl,
        (ready, moves.0 ∙ window),
        omega (arith, moves.1, same_next),
        rw (same_next, same_sent) at joins,
      )

  pub on_datagram-Receives :
      (lo k source : ℕ) (bytes before : List ℕ) (r : ReceiverState)
      → ReceiverOk e in_cksum size file width k r
      → UpTo e in_cksum size file k bytes
      → max_buf + 7 ≤ length before
      → k ≤ length file
      → k < lo + width
      → lo ≤ expected_of r
      → Receives k r
          (on_datagram e in_cksum (record { bytes = bytes; source = source; before = before }) r)
  unfolding on_datagram
  on_datagram-Receives lo k source bytes before (closed info) v up room within near below = (
    closed info,
    [],
    refl,
    v,
    omega arith,
    none-Joins k info.expected info.expected (omega arith),
  )
  on_datagram-Receives lo k source bytes before (receives state info) (v, window) up room within
        near below =
      let d =
        recv_from (max_buf + 7) (record { bytes = bytes; source = source; before = before }) in
      let at : ReceiveInfo = record info { server_addr = d.source } in
      let (small, payload) = UpTo-IsRead k source bytes before up within room in
      let few : k + 1 < u32_mod = omega (arith, within, short) in
      let v' = Ready-relabel e in_cksum (chunk_of size file) k state info d.source v in
      packet-Receives k info at d state refl refl window within small
        (omega (arith, v.inv.next, v.inv.within, within, short))
        (omega (arith, v.inv.high, within, short))
        (on_packet-Ready e in_cksum (chunk_of size file) k few state at d v' λ carries_data.
          let (is_chunk, in_file) = payload carries_data in
          record {
            payload = is_chunk;
            in_file = in_file;
            small = length-chunk_of e in_cksum size file fits (seq_num d);
            in_window = omega (arith, in_file, near, below, window);
          })
