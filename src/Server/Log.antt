-- ===== src/Server/Log.antt =====
-- What the sender hands to `sendtoErr`: PDUs of the file, and an EOF behind its last chunk.
use remote_file_copy_udp_pro.Base.{
  ℕ, zero, suc, ◌+◌, ◌≤◌, ◌<◌, length-take, ◌≡◌, refl, sym, ap, subst, ◌∙◌, true, false, some, List,
  [], ◌∷◌, ◌++◌, length, arith, Endian, ◌==◌, ==_iff, Bool-cases, inl, inr,
}
use remote_file_copy_udp_pro.CircularQueue.View.{held}
use remote_file_copy_udp_pro.Net.{Arrival, Sent, recv_from}
use remote_file_copy_udp_pro.Pdu.{max_buf, seq_num, flag_of}
use remote_file_copy_udp_pro.Pdu.Wire.{wire}
use remote_file_copy_udp_pro.Receiver.{is_data}
use remote_file_copy_udp_pro.Server.Acks.{receive_rr-Sending, answer_srej-Sending}
use remote_file_copy_udp_pro.Server.Chunks.{chunk_of, rest_of, Sending}
use remote_file_copy_udp_pro.Server.Send.{receive_ack}
use remote_file_copy_udp_pro.Server.Sizes.{receive_ack-size}
use remote_file_copy_udp_pro.Server.State.{Child, send}

-- A statement about every datagram of a log.
unfoldable pub AllSent : (List ℕ → Type 0) → List Sent → Type 0
AllSent P [] = Unit
AllSent P (x ∷ xs) = P x.bytes × AllSent P xs

pub AllSent-append :
    (P : List ℕ → Type 0) (xs : List Sent) (x : Sent)
    → AllSent P xs
    → P x.bytes
    → AllSent P (xs ++ (x ∷ []))
unfolding AllSent
AllSent-append P [] x all new = (new, tt)
AllSent-append P (y ∷ xs) x all new = (all.0, AllSent-append P xs x all.1 new)

-- An SREJ that the sender can answer: for a packet that it holds.
abbrev pub IsAnswerable : Child → Arrival → Type 0
IsAnswerable c a =
    flag_of (recv_from 7 a) ≡ 6
    → (packet : List ℕ) × (held c.window (seq_num (recv_from 7 a)) ≡ some packet)

module _ (e : Endian) (in_cksum : List ℕ → ℕ) (size : ℕ) (file : List ℕ) where
  -- The chunks up to the number `k` are not empty.
  abbrev pub Fills : ℕ → Type 0
  Fills k = (j : ℕ) → j < k → 0 < length (rest_of size file j)

  -- The acceptance of a name, a data PDU of a chunk under its own number, or the EOF with the number
  -- behind that of the last chunk: there are `k`, and none of them is empty.
  pub data OfFile (bytes : List ℕ) : Type 0 where
    ok_pdu : (name : List ℕ) → bytes ≡ wire e in_cksum 0 9 name → OfFile bytes
    data_pdu :
        (s flag : ℕ)
        → is_data flag ≡ true
        → 0 < length (chunk_of size file s)
        → bytes ≡ wire e in_cksum s flag (chunk_of size file s)
        → OfFile bytes
    eof_pdu :
        (k : ℕ)
        → Fills k
        → rest_of size file k ≡ []
        → bytes ≡ wire e in_cksum (suc k) 10 []
        → OfFile bytes

  -- The sender after `k` chunks: its window, its reading, and its log.
  pub record Sender (k : ℕ) (c : Child) : Type 0 where
    pub lo : ℕ
    pub sending : Sending e in_cksum size file lo k c
    pub counted : k + length (rest_of size file k) ≤ length file
    pub fills : Fills k
    pub log : AllSent OfFile c.sent
    pub store : 7 ≤ length c.eof_packet
    pub set : c.window_set ≡ true

  module _ (fits : size ≤ max_buf) (pos : 0 < size) where
    pub chunk-filled : (k s : ℕ) → Fills k → 1 ≤ s → s ≤ k → 0 < length (chunk_of size file s)
    chunk-filled k zero fills one le = absurd (omega (arith, one))
    chunk-filled k (suc j) fills one le =
        omega (arith, fills j (omega arith), pos, length-take size (rest_of size file j))

    -- The address of a datagram is not part of what a sender is.
    readdress-Sending :
        (lo k addr : ℕ) (c : Child)
        → Sending e in_cksum size file lo k c
        → Sending e in_cksum size file lo k
            (record c { info = record c.info { client_addr = addr } })
    readdress-Sending lo k addr c v = record {
      holds = v.holds;
      reads = v.reads;
      sized = v.sized;
      from_one = v.from_one;
    }

    receive_srej-Sender :
        (k : ℕ) (c : Child) (a : Arrival)
        → Sender k c
        → IsAnswerable c a
        → (flag_of (recv_from 7 a) == 5) ≡ false
        → (flag_of (recv_from 7 a) == 6) ≡ true
        → (c' : Child) × (receive_ack e in_cksum c a ≡ some c') × Sender k c'
    unfolding receive_ack
    receive_srej-Sender k c a v answerable not_rr srej =
        let s = seq_num (recv_from 7 a) in
        let at : Child = record c { info = record c.info { client_addr = a.source } } in
        let (packet, here) = answerable ((==_iff (flag_of (recv_from 7 a)) 6).0 srej) in
        let moved = readdress-Sending v.lo k a.source c v.sending in
        let bounds : (v.lo ≤ s) × (s ≤ k) = ground (arith, here, v.sending.holds.maps s) in
        let answer =
          answer_srej-Sending e in_cksum size file fits v.lo k s at moved bounds.0 bounds.1 in
        let reply = wire e in_cksum s 17 (chunk_of size file s) in
        (
          send at reply,
          rw (not_rr, srej) answer,
          record {
            lo = v.lo;
            sending = record {
              holds = v.sending.holds;
              reads = v.sending.reads;
              sized = v.sending.sized;
              from_one = v.sending.from_one;
            };
            counted = v.counted;
            fills = v.fills;
            log =
                AllSent-append OfFile c.sent (record { target = a.source; bytes = reply }) v.log
                  (data_pdu s 17 refl
                    (chunk-filled k s v.fills (omega (arith, bounds, v.sending.from_one)) bounds.1)
                    refl);
            store = v.store;
            set = v.set;
          },
        )

    -- Any RR, an answerable SREJ or another datagram leaves a sender of the same file.
    pub receive_ack-Sender :
        (k : ℕ) (c : Child) (a : Arrival)
        → Sender k c
        → IsAnswerable c a
        → (c' : Child) × (receive_ack e in_cksum c a ≡ some c') × Sender k c'
    unfolding receive_ack
    receive_ack-Sender k c a v answerable = elim (Bool-cases (flag_of (recv_from 7 a) == 5)) [
      | inl rr ↦
          let (c', eq, v', same) =
            receive_rr-Sending e in_cksum size file fits v.lo k c a v.sending
              ((==_iff (flag_of (recv_from 7 a)) 5).0 rr) in
          let (_, array, window, _) = rw eq at (receive_ack-size e in_cksum c a) in
          (
            c',
            eq,
            record {
              lo = _;
              sending = v';
              counted = v.counted;
              fills = v.fills;
              log = subst (AllSent OfFile) (sym same) v.log;
              store = omega (arith, v.store, ap length array);
              set = window ∙ v.set;
            },
          )
      | inr not_rr ↦ elim (Bool-cases (flag_of (recv_from 7 a) == 6)) [
        | inl srej ↦ receive_srej-Sender k c a v answerable not_rr srej
        | inr other ↦ (
          record c { info = record c.info { client_addr = a.source } },
          rw (not_rr, other) refl,
          record {
            lo = v.lo;
            sending = readdress-Sending v.lo k a.source c v.sending;
            counted = v.counted;
            fills = v.fills;
            log = v.log;
            store = v.store;
            set = v.set;
          },
        )
      ]
    ]
