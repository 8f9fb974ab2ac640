-- ===== src/Server/Session.antt =====
-- Workspace/server.c: a child from the request of Workspace/rcopy.c to its end.
use remote_file_copy_udp_pro.Base.{
  ℕ, suc, ◌+◌, ◌*◌, ◌≤◌, ◌<◌, ◌≡◌, refl, sym, ap, ◌∙◌, subst, Bool, true, false, Option, some, List,
  [], ◌∷◌, length, length-replicate, arith, Endian, u32_mod, htons, ltb, ◌==◌, if◌then◌else◌,
}
use remote_file_copy_udp_pro.CircularQueue.{CircularQueue}
use remote_file_copy_udp_pro.Client.{request_pdu}
use remote_file_copy_udp_pro.Client.Opening.{accepted}
use remote_file_copy_udp_pro.Net.{Event, timeout, ready, failure, recv_from}
use remote_file_copy_udp_pro.Pdu.{receive_into, datagram, max_buf, flag_of}
use remote_file_copy_udp_pro.Server.Forks.{request-served}
use remote_file_copy_udp_pro.Server.Log.{AllSent, ok_pdu}
use remote_file_copy_udp_pro.Server.Process.{process_client, new_child}
use remote_file_copy_udp_pro.Server.Replies.{start_sending, OnNext, Answerable}
use remote_file_copy_udp_pro.Server.Serves.{Serves, process_client-Serves}
use remote_file_copy_udp_pro.Server.Setup.{c_string, ok_ack_loop, write_file_ok_ack_state}
use remote_file_copy_udp_pro.Server.State.{start, send_data, Child, Outcome, returns}
use remote_file_copy_udp_pro.Server.Transfer.{fill}

-- The child behind the acknowledgement of its acceptance: only the address may be another one.
abbrev IsMoved : Child → Outcome → Type 0
IsMoved c (returns send_data c' es) =
    (addr : ℕ) × (c' ≡ record c { info = record c.info { client_addr = addr } })
IsMoved c o = Unit

IsMoved-if :
    (c : Child) (b : Bool) (o o' : Outcome)
    → IsMoved c o
    → IsMoved c o'
    → IsMoved c (if b then o else o')
IsMoved-if c true o o' m m' = m
IsMoved-if c false o o' m m' = m'

ok_ack_loop-IsMoved :
    (count addr : ℕ) (c : Child) (es : List Event)
    → IsMoved c (ok_ack_loop count (record c { info = record c.info { client_addr = addr } }) es)
unfolding ok_ack_loop
ok_ack_loop-IsMoved count addr c [] = tt
ok_ack_loop-IsMoved count addr c (failure ∷ es) = tt
ok_ack_loop-IsMoved count addr c (timeout ∷ es) =
    IsMoved-if c (ltb (count + 1) 10) _ _ (ok_ack_loop-IsMoved (count + 1) addr c es) tt
ok_ack_loop-IsMoved count addr c (ready a ∷ es) =
    IsMoved-if c (flag_of (recv_from max_buf a) == 34) _ _ (a.source, refl)
      (ok_ack_loop-IsMoved count a.source c es)

module _ (e : Endian) (in_cksum : List ℕ → ℕ) (size : ℕ) (file : List ℕ)
    (fopen : List ℕ → Option (List ℕ)) (socket : ℕ) (fits : size ≤ max_buf) (pos : 0 < size)
    (short : length file + 2 < u32_mod) where
  -- For the request of a client for a name of fewer than 100 bytes without a NUL, received into the
  -- array of `processServer`, of a file of fewer than 2^32 - 2 bytes that can be opened, with a
  -- window size that is positive and a buffer size from 1 to `MAXBUF` once the host's `ntohs` has
  -- been applied: if the acknowledgement of the acceptance comes in time and every SREJ that
  -- arrives from then on names a packet in the window, `processClient` from START on, with fuel for
  -- more than six rounds and two for each event behind that acknowledgement, never faults, on
  -- whatever events: it returns behind its clean-up, or still waits for an event, or leaves by
  -- `exit`, and all that it has sent are acceptances of a name, chunks of the file that are not
  -- empty, each under its own number, and EOFs with the number `k + 1`, where the file has just `k`
  -- chunks that are not empty.
  pub request-Serves :
      (w b source fuel : ℕ) (name before : List ℕ) (window : CircularQueue) (c : Child)
      (es es' : List Event)
      → length name < 100
      → length before ≡ max_buf
      → c_string name ≡ name
      → fopen name ≡ some file
      → htons e b ≡ size
      → 0 < htons e w
      → write_file_ok_ack_state
          (accepted e in_cksum fopen socket (new_child source window) es name w b file)
          es
        ≡ returns send_data c es'
      → 3 + 2 * length es' < fuel
      → OnNext e in_cksum
          (λ p d s. Answerable e in_cksum p d s es')
          1
          (fill e in_cksum (start_sending c) 1)
      → Serves e in_cksum size file (
          process_client e in_cksum fopen socket
            (receive_into before (datagram (request_pdu e in_cksum w b name)) source)
            (3 + fuel)
            start
            (new_child source window)
            es)
  unfolding process_client write_file_ok_ack_state AllSent
  request-Serves w b source fuel name before window c es es' few size_before ends is_there sized
        room acked lt ok =
      let request = receive_into before (datagram (request_pdu e in_cksum w b name)) source in
      let child = accepted e in_cksum fopen socket (new_child source window) es name w b file in
      let (_, first) =
        request-served e in_cksum fopen socket (λ n. true) [] [] w b source name before file
          (λ n. refl) few size_before ends is_there in
      let (addr, same) =
        subst (IsMoved child) acked (ok_ack_loop-IsMoved 0 child.client_addr child es) in
      let three : 3 + fuel ≡ 2 + suc fuel = omega arith in
      let behind =
        process_client-Serves e in_cksum size file fopen socket request fits pos short fuel c es' lt
          (rw same refl) (rw same sized) (rw same room)
          (rw same (omega (arith, length-replicate {A = ℕ} (max_buf + 7) 0)))
          (rw same (ok_pdu name refl, tt)) ok in
      subst (Serves e in_cksum size file)
        (sym (
          ap
            (λ n.
              process_client e in_cksum fopen socket request n start (new_child source window) es)
            three
          ∙ first (suc fuel) window es
          ∙ rw (process_client, acked) refl))
        behind
