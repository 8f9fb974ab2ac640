-- ===== src/Client/Retries.antt =====
-- Workspace/rcopy.c: how often `wait_on_file_ok_state` sends the request.
use remote_file_copy_udp_pro.Base.{
  ℤ, to_u16, ℕ, zero, suc, ◌+◌, ◌<◌, ◌≡◌, refl, sym, ap, ◌∙◌, Bool, true, false, Option, some, List,
  [], ◌∷◌, ◌++◌, length, take, replicate, arith, ◌==◌, if◌then◌else◌, lt→ltb, append_assoc,
  append-nil, htons,
}
use remote_file_copy_udp_pro.Address.{
  SockAddr, af_inet6, gethostbyname6, get_ip_address46, setup_udp_client_to_server,
}
use remote_file_copy_udp_pro.Client.Defs.{
  done, wait_on_file_ok, Argv, Process, open_descriptor, close, post,
}
use remote_file_copy_udp_pro.Client.Handshake.{
  goes, waits, again, ends, World, open_socket, request, on_answer, receive_ok, await_ok, ask,
  renew, attempt, attempts, wait_on_file_ok_state,
}
use remote_file_copy_udp_pro.Client.Main.{waiting, state_loop}
use remote_file_copy_udp_pro.Client.Sockets.{Steady}
use remote_file_copy_udp_pro.Net.{Event, timeout, ready, Arrival, recv_from}
use remote_file_copy_udp_pro.Pdu.{flag_of, max_buf}
use remote_file_copy_udp_pro.Poll.Socket.{
  IsPoll, one_socket, one_socket-answers, setup_add-one_socket,
}

-- The lowest unused descriptor can be opened.
abbrev pub HasRoom : ((ℕ → Bool) → Option ℕ) → ℕ → Type 0
HasRoom socket s = (d : ℕ → Bool) → ((j : ℕ) → j < s → d j ≡ true) → d s ≡ false → socket d ≡ some s

-- Datagrams that arrive one after the other.
abbrev pub all_ready : List Arrival → List Event
all_ready [] = []
all_ready (a ∷ rest) = ready a ∷ all_ready rest

-- None of them has the flag 9.
abbrev pub AllRefuse : List Arrival → Type 0
AllRefuse [] = Unit
AllRefuse (a ∷ rest) = ((flag_of (recv_from (max_buf + 7) a) == 9) ≡ false) × AllRefuse rest

module _ (w : World) (argv : Argv) (port_number : ℤ) (s : ℕ) (host_info : List ℕ)
    (kernel : IsPoll w.poll) (room : HasRoom w.socket s) (positive : 0 < s)
    (found : w.getaddrinfo argv.host_name (record { ai_family = af_inet6; mapped = true })
      ≡ some host_info) where
  -- The address that is filled in.
  abbrev pub server : SockAddr
  server = record {
    family = some af_inet6;
    port = htons w.endian (to_u16 port_number);
    address = take 16 host_info;
  }

  -- The process behind the request of a round.
  abbrev pub asking : Process → Process
  asking p =
      let q : Process = open_descriptor s (record (close s p) { server = server }) in
      post (request w argv s server) (record q { poll_set = one_socket p.poll_set s })

  opened :
      (p : Process)
      → ((j : ℕ) → j < s → p.descriptors j ≡ true)
      → open_socket w argv port_number (close s p)
        ≡ some (s, open_descriptor s (record (close s p) { server = server }))
  unfolding open_socket setup_udp_client_to_server
  opened p held =
      let got : w.socket (close s p).descriptors ≡ some s =
        room (close s p).descriptors (λ j lt. ground (arith, held j lt)) (ground arith) in
      rw (open_socket, setup_udp_client_to_server, got, gethostbyname6, get_ip_address46, found)
        refl

  -- One round, up to its `pollCall`.
  pub attempt-asks :
      (p : Process) (es : List Event)
      → ((j : ℕ) → j < s → p.descriptors j ≡ true)
      → attempt w argv port_number s p es ≡ await_ok w argv s (asking p) es
  unfolding attempt renew ask
  attempt-asks p es held =
      ap (λ b. renew w argv port_number (if b then close s p else p) es) (lt→ltb 0 s positive)
      ∙ rw (renew, opened p held, ask, setup_add-one_socket w.stale p.poll_set s) refl

  asking-Steady : (p : Process) → Steady s p → Steady s (close s (asking p))
  asking-Steady p v = record {
    held = λ j lt. ground (arith, v.held j lt);
    low = ground (arith, v.low);
  }

  -- A time-out closes the socket for another round.
  attempt-times_out :
      (p : Process) (es : List Event)
      → Steady s p
      → attempt w argv port_number s p (timeout ∷ es) ≡ again s (close s (asking p)) es
  unfolding await_ok
  attempt-times_out p es v =
      attempt-asks p (timeout ∷ es) v.held
      ∙ rw (await_ok, one_socket-answers w.poll kernel p.poll_set s timeout v.low) refl

  -- Where the host is found, `poll` does what its documents say and the lowest unused descriptor
  -- can be opened: while every poll times out, the rounds that are left each send the request once,
  -- on the same socket and to the same address, and then the client is done.
  pub attempts-times_out :
      (left : ℕ) (p : Process) (es : List Event)
      → Steady s p
      → (p' : Process) × (attempts w argv left port_number s p (replicate left timeout ++ es)
          ≡ goes done p' es)
        × (p'.posted ≡ p.posted ++ replicate left (request w argv s server))
  unfolding attempts
  attempts-times_out zero p es v = (p, refl, sym (append-nil p.posted))
  attempts-times_out (suc left) p es v =
      let (p', run, sent) = attempts-times_out left (close s (asking p)) es (asking-Steady p v) in
      (
        p',
        rw (attempts, attempt-times_out p (replicate left timeout ++ es) v) run,
        sent
            ∙ append_assoc p.posted (request w argv s server ∷ [])
                (replicate left (request w argv s server)),
      )

  -- An answer with another flag than 9 ends the rounds, and the state is entered once more.
  attempts-refused :
      (left : ℕ) (p : Process) (a : Arrival) (es : List Event)
      → Steady s p
      → (flag_of (recv_from (max_buf + 7) a) == 9) ≡ false
      → attempts w argv (suc left) port_number s p (ready a ∷ es)
        ≡ goes wait_on_file_ok (close s (asking p)) es
  unfolding attempts await_ok receive_ok on_answer
  attempts-refused left p a es v other =
      let answered : attempt w argv port_number s p (ready a ∷ es)
          ≡ ends (goes wait_on_file_ok (close s (asking p)) es) =
        attempt-asks p (ready a ∷ es) v.held
        ∙ rw
            (
              await_ok,
              one_socket-answers w.poll kernel p.poll_set s (ready a) v.low,
              receive_ok,
              on_answer,
              other,
            )
            refl in
      rw (attempts, answered) refl

  -- Where the host is found, `poll` does what its documents say and the lowest unused descriptor
  -- can be opened: however many answers without the flag 9 arrive, the client sends its request
  -- once more behind each of them and waits for the next answer, so that `MAX_RETRIES` is no bound
  -- on these requests.
  pub state_loop-refused :
      (is_rate : List ℕ → Bool) (stale_addr fuel : ℕ) (answers : List Arrival) (p : Process)
      → length answers < fuel
      → AllRefuse answers
      → Steady s p
      → (p' : Process) × (state_loop w is_rate fuel argv port_number s stale_addr wait_on_file_ok p
            (all_ready answers)
          ≡ waiting p')
        × (p'.posted ≡ p.posted ++ replicate (suc (length answers)) (request w argv s server))
  unfolding state_loop wait_on_file_ok_state attempts await_ok
  state_loop-refused is_rate stale_addr zero answers p enough refuse v =
      absurd (omega (arith, enough))
  state_loop-refused is_rate stale_addr (suc fuel) [] p enough refuse v =
      let waits_there : wait_on_file_ok_state w argv port_number s p [] ≡ waits (asking p) =
        rw (wait_on_file_ok_state, attempts, attempt-asks p [] v.held) refl in
      (asking p, rw (state_loop, waits_there) refl, refl)
  state_loop-refused is_rate stale_addr (suc fuel) (a ∷ rest) p enough (other, refuse) v =
      let (p', run, sent) =
        state_loop-refused is_rate stale_addr fuel rest (close s (asking p)) (omega (arith, enough))
          refuse (asking-Steady p v) in
      let more : wait_on_file_ok_state w argv port_number s p (ready a ∷ all_ready rest)
          ≡ goes wait_on_file_ok (close s (asking p)) (all_ready rest) =
        attempts-refused 9 p a (all_ready rest) v other in
      (
        p',
        rw (state_loop, more) run,
        sent
            ∙ append_assoc p.posted (request w argv s server ∷ [])
                (replicate (suc (length rest)) (request w argv s server)),
      )
