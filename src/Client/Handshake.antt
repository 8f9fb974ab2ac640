-- ===== src/Client/Handshake.antt =====
-- Workspace/rcopy.c: `start_state` and `wait_on_file_ok_state`.
use remote_file_copy_udp_pro.Base.{
  ℤ, to_u16, ℕ, suc, zero, ◌+◌, ◌>>=◌, Bool, Option, none, some, List, [], ◌∷◌, Endian, ltb, ◌==◌,
  if◌then◌else◌,
}
use remote_file_copy_udp_pro.Address.{SockAddr, Hints, setup_udp_client_to_server}
use remote_file_copy_udp_pro.Address
use remote_file_copy_udp_pro.Client.Defs.{
  ClientState, done, wait_on_file_ok, wait_on_data, Argv, Posted, Process, open_descriptor, close,
  post,
}
use remote_file_copy_udp_pro.Client.Request.{request_pdu}
use remote_file_copy_udp_pro.Net.{Event, timeout, ready, failure, recv_from}
use remote_file_copy_udp_pro.Pdu.{Received, flag_of, create_pdu, datagram, stack_array, max_buf}
use remote_file_copy_udp_pro.Poll.{PollFd, PollSet, setup_poll_set, add_to_poll_set, poll_call}
use remote_file_copy_udp_pro.Poll

-- What `wait_on_file_ok_state` comes to: it returns a state, or it waits for the next event, or the
-- program leaves by `exit`, or pollLib.c accesses memory that it does not have.
pub data Handshake : Type 0 where
  goes : ClientState → Process → List Event → Handshake
  waits : Process → Handshake
  exits : Process → Handshake
  faults : Process → Handshake

-- One round of its loop: another one, with the socket that has been closed, or the end.
pub data Attempt : Type 0 where
  again : ℕ → Process → List Event → Attempt
  ends : Handshake → Attempt

-- What the client is given: the byte order, the checksum, memory that is not written, and the
-- system. `number` names an address, as the events do.
pub record World : Type 0 where
  pub endian : Endian
  pub in_cksum : List ℕ → ℕ
  pub atoi : List ℕ → ℤ
  pub stale : PollFd
  pub poll : ℕ → Event → List PollFd → Option (List ℕ)
  pub socket : (ℕ → Bool) → Option ℕ
  pub fopen : (ℕ → Bool) → Option ℕ
  pub getaddrinfo : List ℕ → Hints → Option (List ℕ)
  pub number : SockAddr → ℕ

abbrev pub max_retries : ℕ
max_retries = 10

module _ (w : World) (argv : Argv) where
  -- `setupUdpClientToServer(server, argv[6], portNumber)`; `none` is its `exit`.
  unfoldable pub open_socket : ℤ → Process → Option (ℕ × Process)
  unfolding setup_udp_client_to_server
  open_socket port_number p =
      elim (setup_udp_client_to_server w.getaddrinfo w.endian (w.socket p.descriptors)
        argv.host_name (to_u16 port_number)) [
          | Address.exits ↦ none
          | Address.opened s server ↦ some (s, open_descriptor s (record p { server = server }))
        ]

  -- `start_state`. Its socket is not closed, and its number is forgotten.
  unfoldable pub start_state : ℤ → Process → Option (ClientState × Process)
  unfolding open_socket
  start_state port_number p = do r ← open_socket port_number p; some (wait_on_file_ok, r.1)

  -- The request, on a socket, to an address.
  abbrev pub request : ℕ → SockAddr → Posted
  request s server = record {
    socket = s;
    message = record {
      target = w.number server;
      bytes = datagram (
          request_pdu w.endian w.in_cksum (to_u16 (w.atoi argv.window_size))
            (to_u16 (w.atoi argv.buffer_size)) argv.from_filename);
    };
  }

  -- The acknowledgement with flag 34.
  abbrev pub file_ok_ack : ℕ → ℕ → Posted
  file_ok_ack s target = record {
    socket = s;
    message = record {
      target = target;
      bytes = datagram (create_pdu w.endian w.in_cksum (stack_array max_buf) 0 34 []);
    };
  }

  -- The branches on the flag of the answer.
  unfoldable pub on_answer : ℕ → Process → Received → List Event → Handshake
  on_answer s p d es =
      if flag_of d == 9
      then elim (w.fopen p.descriptors) [
        | none ↦ goes done (close s p) es
        | some f ↦ goes wait_on_data (post (file_ok_ack s d.source) (open_descriptor f p)) es
      ]
      else goes wait_on_file_ok (close s p) es

  -- The `safeRecvfrom` behind a poll that has found a socket.
  unfoldable pub receive_ok : ℕ → Process → Event → List Event → Handshake
  unfolding on_answer
  receive_ok s p timeout es = waits p
  receive_ok s p failure es = exits p
  receive_ok s p (ready a) es = on_answer s p (recv_from (max_buf + 7) a) es

  -- From the `pollCall` on.
  unfoldable pub await_ok : ℕ → Process → List Event → Attempt
  unfolding receive_ok
  await_ok s p [] = ends (waits p)
  await_ok s p (ev ∷ es) = elim (poll_call (w.poll s ev) p.poll_set) [
    | Poll.answers none ↦ again s (close s p) es
    | Poll.answers (some _) ↦ ends (receive_ok s p ev es)
    | Poll.changed _ ↦ ends (faults p)
    | Poll.exits ↦ ends (exits p)
    | Poll.faults ↦ ends (faults p)
  ]

  -- From `setupPollSet` on: the request is sent.
  unfoldable pub ask : ℕ → Process → List Event → Attempt
  unfolding await_ok
  ask s p es = elim (add_to_poll_set w.stale (setup_poll_set p.poll_set) s) [
    | Poll.changed poll_set ↦
        await_ok s (post (request s p.server) (record p { poll_set = poll_set })) es
    | Poll.answers _ ↦ ends (faults p)
    | Poll.exits ↦ ends (exits p)
    | Poll.faults ↦ ends (faults p)
  ]

  -- The new socket of a round.
  unfoldable pub renew : ℤ → Process → List Event → Attempt
  unfolding ask open_socket
  renew port_number p es = elim (open_socket port_number p) [
    | none ↦ ends (exits p)
    | some (s, p') ↦ ask s p' es
  ]

  -- One round: the old socket is closed, unless its number is 0, and a new one is opened.
  unfoldable pub attempt : ℤ → ℕ → Process → List Event → Attempt
  unfolding renew
  attempt port_number s p es = renew port_number (if ltb 0 s then close s p else p) es

  -- The loop, with the rounds that are left.
  unfoldable pub attempts : ℕ → ℤ → ℕ → Process → List Event → Handshake
  unfolding attempt
  attempts zero port_number s p es = goes done p es
  attempts (suc left) port_number s p es = elim (attempt port_number s p es) [
    | again s' p' es' ↦ attempts left port_number s' p' es'
    | ends h ↦ h
  ]

  -- `wait_on_file_ok_state`.
  unfoldable pub wait_on_file_ok_state : ℤ → ℕ → Process → List Event → Handshake
  unfolding attempts
  wait_on_file_ok_state port_number s p es = attempts max_retries port_number s p es
