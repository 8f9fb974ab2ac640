-- ===== src/Server/Forks.antt =====
-- Workspace/server.c: the requests that `processServer` starts children for, and their first states.
use remote_file_copy_udp_pro.Base.{
  false, ℕ, suc, ◌+◌, ◌<◌, ◌≡◌, refl, sym, ap, ◌∙◌, Bool, true, Option, some, List, [], ◌∷◌, ◌++◌,
  length, take-all, arith, Endian, ◌==◌, if◌then◌else◌, Bool-cases, Option-cases, inl, inr,
  append-nil, append_assoc,
}
use remote_file_copy_udp_pro.CircularQueue.{CircularQueue}
use remote_file_copy_udp_pro.Client.{request_pdu}
use remote_file_copy_udp_pro.Client.Opening.{
  request_pdu-wire, length-request_pdu, sizes_and_name, length-sizes_and_name, accepted,
  filename_state-request,
}
use remote_file_copy_udp_pro.Net.{Event, timeout, ready, failure, Arrival, recv_from}
use remote_file_copy_udp_pro.Pdu.{Received, receive_into, flag_of, datagram, max_buf}
use remote_file_copy_udp_pro.Pdu.RoundTrip.{receive-wire}
use remote_file_copy_udp_pro.Server.Listen.{
  Served, left, receives, stays, no_socket, next_round, serve, children, process_server,
}
use remote_file_copy_udp_pro.Server.Process.{process_client, new_child}
use remote_file_copy_udp_pro.Server.Setup.{c_string}
use remote_file_copy_udp_pro.Server.State.{
  Outcome, returns, waits, exits, faults, out_of_fuel, start, write_file_ok_ack, Child,
}

-- What arrives with flag 8, up to an error of `recvfrom`.
abbrev pub requests : List Event → List Received
requests [] = []
requests (timeout ∷ es) = requests es
requests (failure ∷ es) = []
requests (ready a ∷ es) =
    let d = recv_from max_buf a in
    let rest = requests es in if flag_of d == 8 then d ∷ rest else rest

pub process_server-requests :
    (fork : ℕ → Bool) (earlier : List Received) (es : List Event)
    → ((n : ℕ) → fork n ≡ true)
    → children (process_server fork earlier es) ≡ earlier ++ requests es
unfolding process_server
process_server-requests fork earlier [] forks = sym (append-nil earlier)
process_server-requests fork earlier (timeout ∷ es) forks =
    process_server-requests fork earlier es forks
process_server-requests fork earlier (failure ∷ es) forks = sym (append-nil earlier)
process_server-requests fork earlier (ready a ∷ es) forks =
    let d = recv_from max_buf a in
    elim (Bool-cases (flag_of d == 8)) [
      | inl request ↦
          rw (process_server, request, forks (length earlier))
            (process_server-requests fork (earlier ++ (d ∷ [])) es forks
              ∙ append_assoc earlier (d ∷ []) (requests es))
      | inr other ↦ rw (process_server, other) (process_server-requests fork earlier es forks)
    ]

module _ (e : Endian) (in_cksum : List ℕ → ℕ) where
  -- The request as the array of `processServer` has it.
  received_whole :
      (w b source : ℕ) (name before : List ℕ)
      → length name < 100
      → recv_from max_buf (record {
        bytes = datagram (request_pdu e in_cksum w b name);
        source = source;
        before = before;
      })
        ≡ receive_into before (datagram (request_pdu e in_cksum w b name)) source
  received_whole w b source name before short =
      ap (λ bytes. receive_into before bytes source)
        (take-all (datagram (request_pdu e in_cksum w b name)) max_buf
          (omega (arith, short, length-request_pdu e in_cksum w b name (omega (arith, short)))))

  request-flag :
      (w b source : ℕ) (name before : List ℕ)
      → length name < 100
      → length before ≡ max_buf
      → flag_of (receive_into before (datagram (request_pdu e in_cksum w b name)) source) ≡ 8
  request-flag w b source name before short size =
      let wired = request_pdu-wire e in_cksum w b name (omega (arith, short)) in
      let (_, flag, _) =
        receive-wire e in_cksum before 0 8 (sizes_and_name e in_cksum w b name) source (omega arith)
          (omega (arith, short, size, length-sizes_and_name e in_cksum w b name)) in
      ap (λ bytes. flag_of (receive_into before bytes source)) wired ∙ flag

  module _ (fopen : List ℕ → Option (List ℕ)) (socket : ℕ) where
    -- The first two rounds of the child.
    child-accepts :
        (w b source fuel : ℕ) (name before file : List ℕ) (c : Child) (es : List Event)
        → length name < 100
        → length before ≡ max_buf
        → c_string name ≡ name
        → fopen name ≡ some file
        → let d = receive_into before (datagram (request_pdu e in_cksum w b name)) source in
          process_client e in_cksum fopen socket d (2 + fuel) start c es
          ≡ process_client e in_cksum fopen socket d fuel write_file_ok_ack
              (accepted e in_cksum fopen socket c es name w b file)
              es
    unfolding process_client
    child-accepts w b source fuel name before file c es short size ends is_there =
        let d = receive_into before (datagram (request_pdu e in_cksum w b name)) source in
        let two : 2 + fuel ≡ suc (suc fuel) = omega arith in
        let run =
          filename_state-request e in_cksum fopen socket c es w b source before name file
            (omega (arith, short, size)) short ends is_there in
        rw (two, process_client, run) refl

    -- Where every `fork` succeeds: the request of a client for a name of fewer than 100 bytes
    -- without a NUL, received into the array of `processServer`, of a file that can be opened,
    -- starts one child, behind those before it and in front of those of the later requests, and
    -- this child comes in two rounds to `write_file_ok_ack_state`, with the request accepted.
    pub request-served :
        (fork : ℕ → Bool) (earlier : List Received) (es : List Event) (w b source : ℕ)
        (name before file : List ℕ)
        → ((n : ℕ) → fork n ≡ true)
        → length name < 100
        → length before ≡ max_buf
        → c_string name ≡ name
        → fopen name ≡ some file
        → let bytes = datagram (request_pdu e in_cksum w b name) in
          let d = receive_into before bytes source in
          (children (
              process_server fork earlier
                (ready (record { bytes = bytes; source = source; before = before }) ∷ es))
            ≡ earlier ++ (d ∷ requests es))
          × ((fuel : ℕ) (window : CircularQueue) (es' : List Event)
              → process_client e in_cksum fopen socket d
                  (2 + fuel)
                  start
                  (new_child source window)
                  es'
                ≡ process_client e in_cksum fopen socket d fuel write_file_ok_ack
                    (accepted e in_cksum fopen socket (new_child source window) es' name w b file)
                    es')
    request-served fork earlier es w b source name before file forks short size ends is_there =
        let bytes = datagram (request_pdu e in_cksum w b name) in
        let a : Arrival = record { bytes = bytes; source = source; before = before } in
        let whole = received_whole w b source name before short in
        let flag : flag_of (recv_from max_buf a) ≡ 8 =
          ap flag_of whole ∙ request-flag w b source name before short size in
        (
          process_server-requests fork earlier (ready a ∷ es) forks
              ∙ ap (λ ds. earlier ++ ds) (rw (requests, flag) (ap (λ d. d ∷ requests es) whole)),
          λ fuel window es'.
              child-accepts w b source fuel name before file (new_child source window) es' short
                size ends is_there,
        )

-- A child that has not received another request.
abbrev pub ServesOnce : Served → Type 0
ServesOnce (left c) = Unit
ServesOnce (receives c) = ⊥
ServesOnce (stays o) = Unit
ServesOnce no_socket = Unit

next_round-ServesOnce :
    (descriptors : ℕ → Bool) (main_socket : ℕ) (o : Outcome)
    → descriptors main_socket ≡ false
    → ServesOnce (next_round descriptors main_socket o)
next_round-ServesOnce d main_socket (returns state c es) closed = rw closed tt
next_round-ServesOnce d main_socket (waits c) closed = tt
next_round-ServesOnce d main_socket (exits c) closed = tt
next_round-ServesOnce d main_socket (faults c) closed = tt
next_round-ServesOnce d main_socket out_of_fuel closed = tt

-- Whatever number its own socket has, a child never takes a second request from the socket of its
-- parent: behind `processClient` that descriptor is closed.
pub serve-ServesOnce :
    (e : Endian) (in_cksum : List ℕ → ℕ) (fopen : List ℕ → Option (List ℕ))
    (socket : (ℕ → Bool) → Option ℕ) (fuel : ℕ) (d : ℕ → Bool) (main_socket : ℕ)
    (request : Received) (window : CircularQueue) (es : List Event)
    → ServesOnce (serve e in_cksum fopen socket fuel d main_socket request window es)
unfolding serve
serve-ServesOnce e in_cksum fopen socket fuel d main_socket request window es =
    elim (Option-cases (socket (λ n. if n == main_socket then false else d n))) [
      | inl failed ↦ rw (serve, failed) tt
      | inr (s, got) ↦
          rw (serve, got)
            (next_round-ServesOnce
              (λ n. if n == s then false else if n == main_socket then false else d n) main_socket
              (process_client e in_cksum fopen s request fuel start
                (new_child request.source window) es)
              (ground arith))
    ]
