-- ===== src/Server/Sizes.antt =====
-- Workspace/server.c: the size of the window and the array for the EOF do not change while a file is
-- sent.
use remote_file_copy_udp_pro.Base.{
  ℕ, zero, suc, ◌+◌, ◌-◌, ◌≡◌, refl, ◌∙◌, true, not, ◌||◌, Option, none, some, List, ◌>>=◌,
  get_elem?, Endian, ◌==◌, ltb, length, take, drop, Bool-cases, Option-cases, inc32, inl, inr,
}
use remote_file_copy_udp_pro.CircularQueue.{
  CircularQueue, Status, insert, remove, index_of, is_full, get,
}
use remote_file_copy_udp_pro.Net.{Arrival, recv_from}
use remote_file_copy_udp_pro.Pdu.{flag_of, seq_num, max_buf}
use remote_file_copy_udp_pro.Server.Send.{remove_from, answer_srej, receive_ack, entry_payload}
use remote_file_copy_udp_pro.Server.State.{
  Child, Next, polls_sent, polls_full, at_eof, broken, send,
}
use remote_file_copy_udp_pro.Server.Transfer.{keep_and_send, send_packet, read_chunk, fill}

-- A queue of the same size.
abbrev KeepsQueue : CircularQueue → Option (Status × CircularQueue) → Type 0
KeepsQueue q none = Unit
KeepsQueue q (some (status, q')) = q'.window_size ≡ q.window_size

abbrev KeepsWindow : CircularQueue → Option CircularQueue → Type 0
KeepsWindow q none = Unit
KeepsWindow q (some q') = q'.window_size ≡ q.window_size

remove-size : (q : CircularQueue) (s : ℕ) → KeepsQueue q (remove q s)
unfolding remove
remove-size q s = elim (Option-cases (index_of q s)) [
  | inl fault ↦ rw fault tt
  | inr (i, at) ↦ elim (Option-cases (get_elem? q.entries i)) [
    | inl fault ↦ rw (at, fault) tt
    | inr (entry, found) ↦ elim (Bool-cases (not entry.valid || not (entry.sequence_num == s))) [
      | inl other ↦ rw (at, found, other) refl
      | inr own ↦ rw (at, found, own) refl
    ]
  ]
]

insert-size : (q : CircularQueue) (s : ℕ) (packet : List ℕ) → KeepsQueue q (insert true q s packet)
unfolding insert
insert-size q s packet = elim (Bool-cases (is_full q)) [
  | inl full ↦ rw full refl
  | inr room ↦ elim (Option-cases (index_of q s)) [
    | inl fault ↦ rw (room, fault) tt
    | inr (i, at) ↦ elim (Option-cases (get_elem? q.entries i)) [
      | inl fault ↦ rw (room, at, fault) tt
      | inr (entry, found) ↦ elim (Bool-cases entry.valid) [
        | inl used ↦ rw (room, at, found, used) refl
        | inr unused ↦ rw (room, at, found, unused) refl
      ]
    ]
  ]
]

remove_from-size : (n first : ℕ) (q : CircularQueue) → KeepsWindow q (remove_from n first q)
unfolding remove_from
remove_from-size zero first q = refl
remove_from-size (suc n) first q =
    go (remove q first) (remove-size q first) (remove_from-size n (first + 1))
  where
    go :
        (r : Option (Status × CircularQueue))
        → KeepsQueue q r
        → ((q' : CircularQueue) → KeepsWindow q' (remove_from n (first + 1) q'))
        → KeepsWindow q (r >>= λ r. remove_from n (first + 1) r.1)
    go none same rest = tt
    go (some (status, q')) same rest = chained (remove_from n (first + 1) q') same (rest q')
      where
        chained :
            (o : Option CircularQueue)
            → q'.window_size ≡ q.window_size
            → KeepsWindow q' o
            → KeepsWindow q o
        chained none same kept = tt
        chained (some q'') same kept = kept ∙ same

-- A window of the same size, as much set as before, and the same array and counter for the EOF.
abbrev pub IsSameSize : Child → Child → Type 0
IsSameSize c c' =
    (c'.window.window_size ≡ c.window.window_size)
    × (c'.eof_packet ≡ c.eof_packet)
    × (c'.window_set ≡ c.window_set)
    × (c'.eof_resend_count ≡ c.eof_resend_count)

abbrev pub KeepsSize : Child → Option Child → Type 0
KeepsSize c none = Unit
KeepsSize c (some c') = IsSameSize c c'

abbrev pub KeepsNext : Child → Next → Type 0
KeepsNext c (polls_sent c' seq) = IsSameSize c c'
KeepsNext c (polls_full c') = IsSameSize c c'
KeepsNext c (at_eof c') = IsSameSize c c'
KeepsNext c (broken c') = Unit

module _ (e : Endian) (in_cksum : List ℕ → ℕ) where
  answer_srej-size : (c : Child) (s : ℕ) → KeepsSize c (answer_srej e in_cksum c s)
  unfolding answer_srej
  answer_srej-size c s = elim (Option-cases (get c.window s)) [
    | inl fault ↦ rw fault tt
    | inr (none, found) ↦ rw found (refl, refl, refl, refl)
    | inr (some entry, found) ↦ elim (Option-cases (entry_payload entry)) [
      | inl fault ↦ rw (found, fault) tt
      | inr (payload, taken) ↦ rw (found, taken) (refl, refl, refl, refl)
    ]
  ]

  pub receive_ack-size : (c : Child) (a : Arrival) → KeepsSize c (receive_ack e in_cksum c a)
  unfolding receive_ack
  receive_ack-size c a = elim (Bool-cases (flag_of (recv_from 7 a) == 5)) [
    | inl rr ↦ rw rr (
        removed (remove_from (seq_num (recv_from 7 a) - 1) 1 c.window)
          (remove_from-size (seq_num (recv_from 7 a) - 1) 1 c.window))
    | inr not_rr ↦ elim (Bool-cases (flag_of (recv_from 7 a) == 6)) [
      | inl srej ↦
          rw (not_rr, srej)
            (answer_srej-size (record c { info = record c.info { client_addr = a.source } })
              (seq_num (recv_from 7 a)))
      | inr other ↦ rw (not_rr, other) (refl, refl, refl, refl)
    ]
  ]
    where
      removed :
          (o : Option CircularQueue)
          → KeepsWindow c.window o
          → KeepsSize c (
              o >>= λ q.
              some (record c { info = record c.info { client_addr = a.source }; window = q }))
      removed none kept = tt
      removed (some q) kept = (kept, refl, refl, refl)

  keep-size : (c : Child) (seq : ℕ) (pdu rest : List ℕ) → KeepsNext c (keep_and_send c seq pdu rest)
  unfolding keep_and_send
  keep-size c seq pdu rest = go (insert true c.window seq pdu) (insert-size c.window seq pdu)
    where
      go :
          (r : Option (Status × CircularQueue))
          → KeepsQueue c.window r
          → KeepsNext c (elim r [
            | none ↦ broken c
            | some (status, window) ↦
                let c' : Child = record c {
                  info = record c.info { file = some rest };
                  window = window;
                } in
                polls_sent (send c' pdu) (inc32 seq)
          ])
      go none kept = tt
      go (some (status, window)) kept = (kept, refl, refl, refl)

  read_chunk-size :
      (c : Child) (seq size : ℕ) (file : Option (List ℕ))
      → KeepsNext c (read_chunk e in_cksum c seq size file)
  unfolding read_chunk send_packet
  read_chunk-size c seq size none = tt
  read_chunk-size c seq size (some bytes) =
      elim (Bool-cases (ltb max_buf (length (take size bytes)))) [
        | inl long ↦ rw (KeepsNext, read_chunk, long) tt
        | inr fits ↦ elim (Bool-cases (length (take size bytes) == 0)) [
          | inl end ↦ rw (KeepsNext, read_chunk, fits, end) (refl, refl, refl, refl)
          | inr more ↦ rw (read_chunk, fits, more) (keep-size c seq _ (drop size bytes))
        ]
      ]

  pub fill-size : (c : Child) (seq : ℕ) → KeepsNext c (fill e in_cksum c seq)
  unfolding fill
  fill-size c seq = elim (Bool-cases (is_full c.window)) [
    | inl full ↦ rw (KeepsNext, fill, full) (refl, refl, refl, refl)
    | inr room ↦ rw (fill, room) (read_chunk-size c seq c.buffer_size c.file)
  ]
