-- ===== src/System/Copies.antt =====
-- Workspace/server.c and Workspace/rcopy.c: a transfer on a network that loses nothing copies the file.
use remote_file_copy_udp_pro.Base.{
  ℕ, suc, ◌+◌, ◌≤◌, ◌<◌, ◌≡◌, refl, sym, ap, subst, ◌∙◌, some, List, [], ◌∷◌, ◌++◌, length, arith,
  Endian, u32_mod, length-drop,
}
use remote_file_copy_udp_pro.Net.{Sent, Arrival, recv_from}
use remote_file_copy_udp_pro.Pdu.{
  max_buf, seq_num, rr_pdu, create_pdu, datagram, stack_array, length-stack_array,
}
use remote_file_copy_udp_pro.Pdu.Wire.{wire, create_pdu-wire}
use remote_file_copy_udp_pro.Receiver.{
  in_order, ReceiveInfo, send_rr, take_expected, send_eof_ack_state,
}
use remote_file_copy_udp_pro.Receiver.InOrder.{on_packet-expected, on_packet-eof}
use remote_file_copy_udp_pro.Server.{Child, sent, receive_ack}
use remote_file_copy_udp_pro.Server.Acks.{receive_rr-Sending}
use remote_file_copy_udp_pro.Server.Sizes.{receive_ack-size}
use remote_file_copy_udp_pro.System.Acks.{ack-read}
use remote_file_copy_udp_pro.Server.Chunks.{chunk_of, rest_of, content, length-chunk_of, Sending}
use remote_file_copy_udp_pro.System.Deliver.{pdu-read, rr-wire, drop-append}
use remote_file_copy_udp_pro.System.Defs.{
  SenderState, polls, child_of, ReceiverState, receives, closed, on_datagram, step, deliver,
  take_ack, on_ack,
}
use remote_file_copy_udp_pro.System.Turns.{Wrote, IsLast, InFlight, Idle}

module _ (e : Endian) (in_cksum : List ℕ → ℕ) (size : ℕ) (file : List ℕ) (source : ℕ)
    (before : List ℕ) (fits : size ≤ max_buf) (short : length file + 2 < u32_mod)
    (room : max_buf + 7 ≤ length before) where
  abbrev pub arrival : List ℕ → Arrival
  arrival bytes = record { bytes = bytes; source = source; before = before }

  -- The chunk that is expected arrives: it is written, and an RR asks for the next one.
  pub on_datagram-Wrote :
      (k : ℕ) (info : ReceiveInfo)
      → suc k ≤ length file
      → Wrote e in_cksum size file k info
      → (info' : ReceiveInfo) × (x : Sent) × (on_datagram e in_cksum
            (arrival (content e in_cksum size file (suc k)))
            (receives in_order info)
          ≡ some (receives in_order info', x ∷ []))
        × Wrote e in_cksum size file (suc k) info'
        × (x.bytes ≡ wire e in_cksum (suc (suc k)) 5 [])
  unfolding on_datagram
  on_datagram-Wrote k info in_file v =
      let payload = chunk_of size file (suc k) in
      let d = recv_from (max_buf + 7) (arrival (content e in_cksum size file (suc k))) in
      let at : ReceiveInfo = record info { server_addr = d.source } in
      let (number, flag, paid) =
        pdu-read e in_cksum size file 1 fits short (suc k) 16 source payload before
          (omega (arith, in_file, short)) (length-chunk_of e in_cksum size file fits (suc k))
          room in
      let info' : ReceiveInfo = record (take_expected at payload) { highest = seq_num d } in
      let next : info'.expected ≡ suc (suc k) = omega (arith, v.next, in_file, short) in
      let x : Sent = record { target = d.source; bytes = rr_pdu e in_cksum info'.expected } in
      let eq = on_packet-expected e in_cksum at d payload flag (number ∙ sym v.next) paid in
      (
        send_rr e in_cksum info' info'.expected,
        x,
        rw (on_datagram, eq, drop-append info.sent (x ∷ [])) refl,
        record {
          next = next;
          calm = omega (arith, number);
          written = ap (λ xs. xs ++ payload) v.written;
        },
        rr-wire e in_cksum size file 1 fits short info'.expected
            ∙ ap (λ s. wire e in_cksum s 5 []) next,
      )

  -- The EOF behind what is written arrives: the file is closed, and the EOF acknowledged.
  pub on_datagram-eof :
      (k : ℕ) (info : ReceiveInfo)
      → k ≤ length file
      → Wrote e in_cksum size file k info
      → (info' : ReceiveInfo) × (x : Sent) × (on_datagram e in_cksum
            (arrival (wire e in_cksum (suc k) 10 []))
            (receives in_order info)
          ≡ some (closed info', x ∷ []))
        × (info'.out_file ≡ info.out_file)
        × (x.bytes ≡ wire e in_cksum (suc k) 35 [])
  unfolding on_datagram send_eof_ack_state
  on_datagram-eof k info in_file v =
      let d = recv_from (max_buf + 7) (arrival (wire e in_cksum (suc k) 10 [])) in
      let at : ReceiveInfo = record info { server_addr = d.source } in
      let (number, flag, paid) =
        pdu-read e in_cksum size file 1 fits short (suc k) 10 source [] before
          (omega (arith, in_file, short)) (omega arith) room in
      let ack = datagram (create_pdu e in_cksum (stack_array 7) (seq_num d) 35 []) in
      let x : Sent = record { target = d.source; bytes = ack } in
      let eq = on_packet-eof e in_cksum at d flag (omega (arith, v.calm, v.next)) in
      (
        send_eof_ack_state e in_cksum (record at { eof_seq = seq_num d }) (seq_num d),
        x,
        rw (on_datagram, eq, drop-append info.sent (x ∷ [])) refl,
        refl,
        create_pdu-wire e in_cksum (stack_array 7) (seq_num d) 35 []
              (omega (arith, length-stack_array 7))
            ∙ ap (λ s. wire e in_cksum s 35 []) number,
      )

  -- A datagram of the log arrives, and so do its answers.
  pub deliver-eq :
      (i : ℕ) (bytes : List ℕ) (st : SenderState) (r r' : ReceiverState) (out : List Sent)
      → IsLast e in_cksum size file i bytes (child_of st).sent
      → on_datagram e in_cksum (arrival bytes) r ≡ some (r', out)
      → step e in_cksum (deliver i source before) (record { sender = st; receiver = r; acks = [] })
        ≡ some (record { sender = st; receiver = r'; acks = out })
  unfolding step
  deliver-eq i bytes st r r' out v eq =
      let x = v.datagram_sent in
      let here : on_datagram e in_cksum (arrival x.bytes) r ≡ some (r', out) =
        ap (λ b. on_datagram e in_cksum (arrival b) r) v.same ∙ eq in
      rw (step, v.at, here) refl

  pub take_ack-eq :
      (bytes : List ℕ) (st st' : SenderState) (r : ReceiverState) (x : Sent)
      → x.bytes ≡ bytes
      → on_ack e in_cksum (arrival bytes) st ≡ some st'
      → step e in_cksum
          (take_ack source before)
          (record { sender = st; receiver = r; acks = x ∷ [] })
        ≡ some (record { sender = st'; receiver = r; acks = [] })
  unfolding step
  take_ack-eq bytes st st' r x same eq =
      let here : on_ack e in_cksum (arrival x.bytes) st ≡ some st' =
        ap (λ b. on_ack e in_cksum (arrival b) st) same ∙ eq in
      rw (step, here) refl

  module _ (pos : 0 < size) where
    -- The RR behind a chunk empties the window.
    receive_ack-Idle :
        (k i : ℕ) (c : Child)
        → InFlight e in_cksum size file k i c
        → (c' : Child) × (receive_ack e in_cksum c (arrival (wire e in_cksum (suc (suc k)) 5 []))
            ≡ some c')
          × Idle e in_cksum size file (suc k) (suc i) c'
    receive_ack-Idle k i c v =
        let a = arrival (wire e in_cksum (suc (suc k)) 5 []) in
        let (number, flag) =
          ack-read e in_cksum (suc (suc k)) 5 source before
            (omega (arith, v.counted, v.more, short)) (omega (arith, room)) in
        let (c', eq, s, same) =
          receive_rr-Sending e in_cksum size file fits (suc k) (suc k) c a v.sending flag in
        let (kept, array, _, _) = rw eq at (receive_ack-size e in_cksum c a) in
        (
          c',
          eq,
          record {
            sending =
                subst (λ t. Sending e in_cksum size file t (suc k) c') (omega (arith, number)) s;
            counted = omega (arith, v.counted, v.more, pos, length-drop size (rest_of size file k));
            store = omega (arith, v.store, ap length array);
            logged = ap length same ∙ v.logged.counted;
          },
        )

    pub on_ack-Idle :
        (k i seq count : ℕ) (c : Child)
        → InFlight e in_cksum size file k i c
        → (c' : Child) × (on_ack e in_cksum
              (arrival (wire e in_cksum (suc (suc k)) 5 []))
              (polls sent c seq count)
            ≡ some (polls sent c' seq count))
          × Idle e in_cksum size file (suc k) (suc i) c'
    unfolding on_ack
    on_ack-Idle k i seq count c v =
        let (c', eq, v') = receive_ack-Idle k i c v in (c', rw (on_ack, eq) refl, v')
