-- ===== src/Server/Unheard.antt =====
-- Workspace/server.c: a run of `processClient` from `send_data_state` on, where nothing ever arrives.
use remote_file_copy_udp_pro.Base.{
  ℕ, zero, suc, ◌+◌, ◌-◌, ◌*◌, ◌≤◌, ◌<◌, ◌≡◌, refl, sym, ap, subst, ◌∙◌, true, some, Option, List,
  [], ◌∷◌, ◌++◌, length, replicate, arith, Endian, u32_mod, length-append, length-drop,
  length-replicate,
}
use remote_file_copy_udp_pro.CircularQueue.{is_full}
use remote_file_copy_udp_pro.CircularQueue.Window.{init-Holds}
use remote_file_copy_udp_pro.Net.{Event, timeout, Sent}
use remote_file_copy_udp_pro.Pdu.{Received, max_buf}
use remote_file_copy_udp_pro.Server.Chunks.{
  rest_of, content, Sending, Filled, window_full, file_end, chunk_sent, fill-Filled,
}
use remote_file_copy_udp_pro.Server.Closes.{
  clean_up-open, process_client_closes, NoFailure, seconds,
}
use remote_file_copy_udp_pro.Server.Process.{switch, process_client}
use remote_file_copy_udp_pro.Server.Replies.{start_sending}
use remote_file_copy_udp_pro.Server.Silent.{send_loop_silent}
use remote_file_copy_udp_pro.Server.Sizes.{IsSameSize, KeepsNext, fill-size}
use remote_file_copy_udp_pro.Server.State.{
  done, send_data, wait_on_eof_ack, Child, Outcome, returns, waits, exits, faults, out_of_fuel,
  Next,
}
use remote_file_copy_udp_pro.Server.Transfer.{
  sent, full, fill, resume, send_eof, send_loop, send_data_state,
}

replicate-append :
    (n m : ℕ) → replicate n timeout ++ replicate m timeout ≡ replicate (n + m) timeout
replicate-append zero m = let none : m ≡ 0 + m = omega arith in ap (λ k. replicate k timeout) none
replicate-append (suc n) m =
    let sum : suc (n + m) ≡ suc n + m = omega arith in
    ap (λ es. timeout ∷ es) (replicate-append n m) ∙ ap (λ k. replicate k timeout) sum

timeouts-NoFailure : (n : ℕ) → NoFailure (replicate n timeout)
timeouts-NoFailure zero = tt
timeouts-NoFailure (suc n) = timeouts-NoFailure n

seconds-timeouts : (n : ℕ) → seconds (replicate n timeout) ≡ n
seconds-timeouts zero = refl
seconds-timeouts (suc n) = ap suc (seconds-timeouts n)

-- Behind the transfer: `b` datagrams at most have been or will be sent, and behind the EOF there are
-- more than ten time-outs left, and `most` at most.
abbrev Left : ℕ → ℕ → Outcome → Type 0
Left b most (returns done c es) =
    (rest : List ℕ) × (c.file ≡ some rest) × (c.window_set ≡ true) × (length c.sent ≤ b)
Left b most (returns wait_on_eof_ack c es) =
    (rest : List ℕ) × (m : ℕ) × (c.file ≡ some rest)
    × (c.window_set ≡ true)
    × (c.eof_resend_count ≡ 0)
    × (length c.sent + 10 ≤ b)
    × (10 < m)
    × (m ≤ most)
    × (es ≡ replicate m timeout)
Left b most o = ⊥

module _ (e : Endian) (in_cksum : List ℕ → ℕ) (size : ℕ) (file : List ℕ) (fits : size ≤ max_buf)
    (pos : 0 < size) (short : length file + 2 < u32_mod) (b most : ℕ) where
  -- The sender behind `k` chunks, with `m` time-outs to come.
  record Unheard (k m : ℕ) (c : Child) : Type 0 where
    pub lo : ℕ
    pub sending : Sending e in_cksum size file lo k c
    pub counted : k + length (rest_of size file k) ≤ length file
    pub set : c.window_set ≡ true
    pub count : c.eof_resend_count ≡ 0
    pub few : length c.sent + length (rest_of size file k) + 11 ≤ b
    pub enough : length (rest_of size file k) + 10 < m
    pub within : m ≤ most

  full-Left :
      (k m : ℕ) (c : Child)
      → Unheard k m c
      → is_full c.window ≡ true
      → Left b most (send_loop e in_cksum full c (suc k) 0 (replicate m timeout))
  full-Left k m c v at =
      let r = m - 10 in
      let split : replicate m timeout ≡ replicate 10 timeout ++ replicate r timeout =
        ap (λ n. replicate n timeout) (ten m (omega (arith, v.enough)))
        ∙ sym (replicate-append 10 r) in
      let (s, here, run) =
        send_loop_silent e in_cksum size file fits v.lo k c 0 9 (replicate r timeout)
          (omega (arith, v.counted, short)) v.sending at refl in
      rw (split, run)
        (_, v.sending.reads, v.set, omega (arith, v.few, length-append c.sent (replicate 10 _)))
    where
      ten : (m : ℕ) → 10 < m → m ≡ 10 + (m - 10)
      ten m lt = omega (arith, lt)

  -- What the run comes to from the head of the loop, where the next `m` events are time-outs.
  abbrev Goes : ℕ → ℕ → Child → Type 0
  Goes k m c = Left b most (
      resume e in_cksum (λ p d s. send_loop e in_cksum p d s 0 (replicate m timeout)) (suc k)
        (replicate m timeout) (fill e in_cksum c (suc k)))

  chunk-Left :
      (k m : ℕ) (c c' : Child)
      → (v : Unheard k m c) → Sending e in_cksum size file v.lo (suc k) c'
      → 0 < length (rest_of size file k)
      → c'.sent
        ≡ c.sent
          ++ (record { target = c.client_addr; bytes = content e in_cksum size file (suc k) } ∷ [])
      → IsSameSize c c'
      → ((m' : ℕ) → Unheard (suc k) m' c' → Goes (suc k) m' c')
      → Left b most (send_loop e in_cksum sent c' (suc (suc k)) 0 (replicate m timeout))
  unfolding send_loop
  chunk-Left k zero c c' v s more log same again = absurd (omega (arith, v.enough))
  chunk-Left k (suc m) c c' v s more log (_, _, set, count) again =
      let len = length-drop size (rest_of size file k) in
      let x : Sent = record {
        target = c.client_addr;
        bytes = content e in_cksum size file (suc k);
      } in
      again m (record {
        lo = v.lo;
        sending = s;
        counted = omega (arith, v.counted, more, len, pos);
        set = set ∙ v.set;
        count = count ∙ v.count;
        few = omega (arith, v.few, more, len, pos, ap length log, length-append c.sent (x ∷ []));
        enough = omega (arith, v.enough, more, len, pos);
        within = omega (arith, v.within);
      })

  head-Left :
      (k m : ℕ) (c : Child)
      → Unheard k m c
      → (0 < length (rest_of size file k)
          → (m' : ℕ) (c' : Child) → Unheard (suc k) m' c'
          → Goes (suc k) m' c')
      → Goes k m c
  unfolding send_eof
  head-Left k m c v again =
      go (fill e in_cksum c (suc k))
        (fill-Filled e in_cksum size file fits v.lo k c pos (omega (arith, v.counted, short))
          v.sending)
        (fill-size e in_cksum c (suc k))
    where
      go :
          (next : Next)
          → Filled e in_cksum size file fits v.lo k c next
          → KeepsNext c next
          → Left b most (
              resume e in_cksum
                (λ p d s. send_loop e in_cksum p d s 0 (replicate m timeout))
                (suc k)
                (replicate m timeout)
                next)
      go next (window_full eq at) kept = rw eq (full-Left k m c v at)
      go next (file_end eq end) kept = rw eq (
        _,
        m,
        v.sending.reads,
        v.set,
        v.count,
        omega (arith, v.few, length-append c.sent (_ ∷ [])),
        omega (arith, v.enough),
        v.within,
        refl,
      )
      go next (chunk_sent c' eq s more log) kept =
          rw eq (chunk-Left k m c c' v s more log (rw eq at kept) (λ m'. again more m' c'))

  resume-Left :
      (n k m : ℕ) (c : Child) → Unheard k m c → length (rest_of size file k) ≤ n → Goes k m c
  resume-Left zero k m c v le =
      head-Left k m c v (λ more m' c' v'. absurd (omega (arith, le, more)))
  resume-Left (suc n) k m c v le = head-Left k m c v (λ more m' c' v'.
      resume-Left n (suc k) m' c' v'
        (omega (arith, le, more, length-drop size (rest_of size file k), pos)))

module _ (e : Endian) (in_cksum : List ℕ → ℕ) (fopen : List ℕ → Option (List ℕ)) (socket : ℕ)
    (request : Received) where
  -- From what the transfer has left to the end behind the clean-up.
  Left-closes :
      (fuel b most : ℕ) (o : Outcome)
      → 2 + 2 * most < fuel
      → Left b most o
      → (c' : Child) × (es' : List Event) × ((elim o [
        | returns state c es ↦ process_client e in_cksum fopen socket request fuel state c es
        | waits c ↦ waits c
        | exits c ↦ exits c
        | faults c ↦ faults c
        | out_of_fuel ↦ out_of_fuel
      ])
          ≡ returns done c' es')
        × (length c'.sent ≤ b)
  unfolding process_client
  Left-closes zero b most o lt left = absurd (omega (arith, lt))
  Left-closes (suc fuel) b most (returns done c es) lt (rest, is_open, set, few) =
      let (c', eq, same) = clean_up-open c es is_open set in
      (c', es, eq, omega (arith, few, ap length same))
  Left-closes (suc fuel) b most (returns wait_on_eof_ack c es) lt
        (rest, m, is_open, set, none, few, more, within, left) =
      let (c', es', eq, len) =
        process_client_closes e in_cksum fopen socket request (suc fuel) c es
          (omega (arith, lt, within, ap length left, length-replicate m timeout))
          (subst NoFailure (sym left) (timeouts-NoFailure m)) is_open set (omega (arith, none))
          (omega (arith, none, more, ap seconds left, seconds-timeouts m)) in
      (c', es', eq, omega (arith, len, few, none))
  Left-closes (suc fuel) b most _ lt left = elim left [ ]

  module _ (size : ℕ) (file : List ℕ) (fits : size ≤ max_buf) (pos : 0 < size)
      (short : length file + 2 < u32_mod) where
    -- From `SEND_DATA` on, for a file that is open and not yet read, of fewer than 2^32 - 2 bytes,
    -- a positive window and a buffer size from 1 to `MAXBUF`, where nothing ever arrives: with more
    -- seconds to go by than the file has bytes and ten more, and fuel for more than three rounds
    -- and two for each second, `processClient` comes to an end behind its clean-up, and has sent at
    -- most as many datagrams as the file has bytes and eleven more.
    pub process_client_unheard :
        (fuel m : ℕ) (c : Child)
        → 3 + 2 * m < fuel
        → length file + 10 < m
        → c.file ≡ some file
        → c.buffer_size ≡ size
        → 0 < c.window_size
        → (c' : Child) × (es' : List Event) × (process_client e in_cksum fopen socket request fuel
              send_data c
              (replicate m timeout)
            ≡ returns done c' es')
          × (length c'.sent ≤ length c.sent + length file + 11)
    unfolding process_client switch send_data_state
    process_client_unheard zero m c lt long is_open sized room = absurd (omega (arith, lt))
    process_client_unheard (suc fuel) m c lt long is_open sized room =
        let b = length c.sent + length file + 11 in
        let start = start_sending c in
        let left =
          resume-Left e in_cksum size file fits pos short b m (length file) 0 m start
            (record {
              lo = 1;
              sending = record {
                holds = init-Holds (content e in_cksum size file) c.window c.window_size 1 room;
                reads = is_open;
                sized = sized;
                from_one = omega arith;
              };
              counted = omega arith;
              set = refl;
              count = refl;
              few = omega arith;
              enough = omega (arith, long);
              within = omega arith;
            })
            (omega arith) in
        Left-closes fuel b m _ (omega (arith, lt)) left
