-- ===== src/Client/Agreement.antt =====
-- Workspace/rcopy.c and Workspace/server.c: both ends of the handshake.
use remote_file_copy_udp_pro.Base.{
  ℤ, ℕ, suc, ◌+◌, ◌≤◌, ◌<◌, ◌≡◌, refl, ap, ◌∙◌, true, some, List, [], ◌∷◌, ◌++◌, length, take-all,
  arith, Endian, ◌==◌, append_assoc,
}
use remote_file_copy_udp_pro.Address.{SockAddr, af_inet6}
use remote_file_copy_udp_pro.Client.Defs.{wait_on_data, Argv, Process, open_descriptor, post}
use remote_file_copy_udp_pro.Client.Handshake.{
  goes, ends, World, request, file_ok_ack, on_answer, receive_ok, await_ok, attempt, attempts,
}
use remote_file_copy_udp_pro.Client.Retries.{HasRoom, server, asking, attempt-asks}
use remote_file_copy_udp_pro.Client.Sockets.{Steady}
use remote_file_copy_udp_pro.Net.{Event, ready, Arrival, recv_from}
use remote_file_copy_udp_pro.Pdu.{receive_into, flag_of, stack_array, length-stack_array, max_buf}
use remote_file_copy_udp_pro.Pdu.RoundTrip.{receive-wire}
use remote_file_copy_udp_pro.Pdu.Wire.{wire, create_pdu-wire, length-wire}
use remote_file_copy_udp_pro.Poll.Socket.{IsPoll, one_socket-answers}
use remote_file_copy_udp_pro.Server.{Child, returns, send_data, write_file_ok_ack_state}

-- The flag of a PDU that is received into an array with room for it.
recv-flag :
    (e : Endian) (in_cksum : List ℕ → ℕ) (flag room : ℕ) (payload : List ℕ) (source : ℕ)
    (before : List ℕ)
    → 7 + length payload ≤ room
    → 7 + length payload ≤ length before
    → flag_of (
        recv_from room
          (record { bytes = wire e in_cksum 0 flag payload; source = source; before = before }))
      ≡ flag
recv-flag e in_cksum flag room payload source before fits long =
    let (_, same, _) = receive-wire e in_cksum before 0 flag payload source (omega arith) long in
    ap (λ bytes. flag_of (receive_into before bytes source))
      (take-all (wire e in_cksum 0 flag payload) room
        (omega (arith, fits, length-wire e in_cksum 0 flag payload)))
    ∙ same

module _ (w : World) (argv : Argv) (port_number : ℤ) (s : ℕ) (host_info : List ℕ)
    (kernel : IsPoll w.poll) (room : HasRoom w.socket s) (positive : 0 < s)
    (found : w.getaddrinfo argv.host_name (record { ai_family = af_inet6; mapped = true })
      ≡ some host_info) where
  abbrev to_server : SockAddr
  to_server = server w argv port_number s host_info kernel room positive found

  -- The client on an acceptance.
  client-accepted :
      (left f : ℕ) (p : Process) (a : Arrival) (es : List Event)
      → Steady s p
      → (flag_of (recv_from (max_buf + 7) a) == 9) ≡ true
      → w.fopen (asking w argv port_number s host_info kernel room positive found p).descriptors
        ≡ some f
      → (p' : Process) × (attempts w argv (suc left) port_number s p (ready a ∷ es)
          ≡ goes wait_on_data p' es)
        × (p'.posted
            ≡ p.posted ++ (request w argv s to_server ∷ file_ok_ack w argv s a.source ∷ []))
  unfolding attempts await_ok receive_ok on_answer
  client-accepted left f p a es v ok opens =
      let q = asking w argv port_number s host_info kernel room positive found p in
      let p' = post (file_ok_ack w argv s a.source) (open_descriptor f q) in
      let answered : attempt w argv port_number s p (ready a ∷ es)
          ≡ ends (goes wait_on_data p' es) =
        attempt-asks w argv port_number s host_info kernel room positive found p (ready a ∷ es)
          v.held
        ∙ rw
            (
              await_ok,
              one_socket-answers w.poll kernel p.poll_set s (ready a) v.low,
              receive_ok,
              on_answer,
              ok,
              opens,
            )
            refl in
      (
        p',
        rw (attempts, answered) refl,
        append_assoc p.posted (request w argv s to_server ∷ [])
            (file_ok_ack w argv s a.source ∷ []),
      )

  -- With a round left, where `poll` and `socket` do what their documents say (an event shows in
  -- just the entries that ask for it; the lowest unused descriptor can be opened), and the host,
  -- the output file and room in both arrays there: the acceptance that the server sends takes the
  -- client to `WAIT_ON_DATA`, behind one request and one acknowledgement to the sender of the
  -- acceptance, and that acknowledgement takes `write_file_ok_ack_state` of the server to
  -- `SEND_DATA`, with its source as the client's address.
  pub handshake-agrees :
      (e : Endian) (left f : ℕ) (p : Process) (name : List ℕ) (child_addr : ℕ) (before : List ℕ)
      (es : List Event) (c : Child) (source : ℕ) (before' : List ℕ) (es' : List Event)
      → Steady s p
      → w.fopen (asking w argv port_number s host_info kernel room positive found p).descriptors
        ≡ some f
      → length name ≤ max_buf
      → 7 + length name ≤ length before
      → 7 ≤ length before'
      → let acceptance : Arrival = record {
        bytes = wire e w.in_cksum 0 9 name;
        source = child_addr;
        before = before;
      } in
        let ack = file_ok_ack w argv s child_addr in
        ((p' : Process) × (attempts w argv (suc left) port_number s p (ready acceptance ∷ es)
            ≡ goes wait_on_data p' es)
          × (p'.posted ≡ p.posted ++ (request w argv s to_server ∷ ack ∷ [])))
        × (write_file_ok_ack_state c (
              ready (record { bytes = ack.message.bytes; source = source; before = before' }) ∷ es')
            ≡ returns send_data (record c { info = record c.info { client_addr = source } }) es')
  unfolding write_file_ok_ack_state
  handshake-agrees e left f p name child_addr before es c source before' es' v opens short long
        long' =
      let acceptance : Arrival = record {
        bytes = wire e w.in_cksum 0 9 name;
        source = child_addr;
        before = before;
      } in
      let nine =
        recv-flag e w.in_cksum 9 (max_buf + 7) name child_addr before (omega (arith, short)) long in
      let wired =
        create_pdu-wire w.endian w.in_cksum (stack_array max_buf) 0 34 []
          (omega (arith, length-stack_array max_buf)) in
      let flag : flag_of (
            recv_from max_buf (record {
              bytes = (file_ok_ack w argv s child_addr).message.bytes;
              source = source;
              before = before';
            }))
          ≡ 34 =
        ap
          (λ bytes.
            flag_of
              (recv_from max_buf (record { bytes = bytes; source = source; before = before' })))
          wired
        ∙ recv-flag w.endian w.in_cksum 34 max_buf [] source before' (omega arith) long' in
      (client-accepted left f p acceptance es v (rw nine refl) opens, rw flag refl)
