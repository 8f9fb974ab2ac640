-- ===== src/Client/Sockets.antt =====
-- Workspace/rcopy.c: the sockets of the client, which `wait_on_file_ok_state` closes and opens again.
use native.Mathlib.Decide.{ℕ_discrete}
use remote_file_copy_udp_pro.Base.{
  ℤ, to_u16, ℕ, zero, suc, ◌+◌, ◌≤◌, ◌<◌, ◌≡◌, refl, sym, ap, subst, ◌∙◌, Bool, true, Option, none,
  some, List, [], ◌∷◌, ◌++◌, length, arith, ◌==◌, if◌then◌else◌, Option-cases, ◌⊎◌, inl, inr,
  lt→ltb, append_assoc, Bool-cases, htons, replicate,
}
use remote_file_copy_udp_pro.Address.{
  SockAddr, af_inet6, gethostbyname6, setup_udp_client_to_server,
}
use remote_file_copy_udp_pro.Client.Defs.{
  start, done, wait_on_file_ok, wait_on_data, process_transfer, send_eof_ack, Argv, Posted, Process,
  open_descriptor, close, post, IsLowest,
}
use remote_file_copy_udp_pro.Client.Handshake.{
  Handshake, goes, waits, exits, faults, Attempt, again, ends, World, open_socket, request,
  file_ok_ack, on_answer, receive_ok, await_ok, ask, renew, attempt, attempts,
}
use remote_file_copy_udp_pro.Net.{Event, timeout, ready, failure, recv_from}
use remote_file_copy_udp_pro.Pdu.{Received, flag_of, max_buf}
use remote_file_copy_udp_pro.Poll.{PollSet, poll_call}
use remote_file_copy_udp_pro.Poll.Call.{table_size}
use remote_file_copy_udp_pro.Poll.Socket.{IsPoll, answer_of, setup_add-answers}

-- The number of a socket that all lower descriptors are open below, with a poll table in its bounds.
pub record Steady (s : ℕ) (p : Process) : Type 0 where
  pub held : (j : ℕ) → j < s → p.descriptors j ≡ true
  pub low : p.poll_set.max_file_descriptor ≤ table_size s

-- Another descriptor, or the end of this one, leaves the lower ones open.
pub open-held :
    (s t : ℕ) (p : Process)
    → ((j : ℕ) → j < s → p.descriptors j ≡ true)
    → (j : ℕ) → j < s
    → (open_descriptor t p).descriptors j ≡ true
open-held s t p held j lt = ground (arith, held j lt)

close-held :
    (s : ℕ) (p : Process)
    → ((j : ℕ) → j < s → p.descriptors j ≡ true)
    → (j : ℕ) → j < s
    → (close s p).descriptors j ≡ true
close-held s p held j lt = ground (arith, held j lt)

-- A socket that is closed is the one that is opened next.
reopen :
    (socket : (ℕ → Bool) → Option ℕ) (s s' : ℕ) (p : Process)
    → IsLowest socket
    → ((j : ℕ) → j < s → p.descriptors j ≡ true)
    → socket (close s p).descriptors ≡ some s'
    → s' ≡ s
reopen socket s s' p lowest held eq = elim (ℕ_discrete s' s) [
  | yes same ↦ same
  | no other ↦
      let unused = lowest.unused (close s p).descriptors s' eq in
      let below = lowest.lowest (close s p).descriptors s' s eq in
      absurd (grind (arith, unused, below, held s'))
]

module _ (w : World) (argv : Argv) where
  -- Behind the request, the acceptance and its acknowledgement: the socket is open, and the last two
  -- datagrams have been sent on it.
  abbrev pub IsAccepted : ℕ → Process → Type 0
  IsAccepted s p =
      (p.descriptors s ≡ true)
      × (earlier : List Posted) × (target : ℕ) × (p.posted
          ≡ earlier ++ (request w argv s p.server ∷ file_ok_ack w argv s target ∷ []))

module _ (w : World) (argv : Argv) (port_number : ℤ) where
  pub open_socket-cases :
      (p : Process)
      → (open_socket w argv port_number p ≡ none)
        ⊎ ((s : ℕ) × (server : SockAddr) × (w.socket p.descriptors ≡ some s)
            × (open_socket w argv port_number p
                ≡ some (s, open_descriptor s (record p { server = server }))))
  unfolding open_socket setup_udp_client_to_server
  open_socket-cases p = elim (Option-cases (w.socket p.descriptors)) [
    | inl failed ↦ inl (rw (open_socket, setup_udp_client_to_server, failed) refl)
    | inr (s, got) ↦
        let empty : SockAddr = record {
          family = some af_inet6;
          port = htons w.endian (to_u16 port_number);
          address = replicate 16 0;
        } in
        elim (Option-cases (gethostbyname6 w.getaddrinfo argv.host_name empty)) [
          | inl unknown ↦ inl (rw (open_socket, setup_udp_client_to_server, got, unknown) refl)
          | inr ((server, ip), found) ↦
              inr (s, server, got, rw (open_socket, setup_udp_client_to_server, got, found) refl)
        ]
  ]

  -- What `wait_on_file_ok_state` comes to, with at most `n` events before it.
  abbrev pub Kept : ℕ → ℕ → Handshake → Type 0
  Kept n s (goes start p es) = ⊥
  Kept n s (goes done p es) = Unit
  Kept n s (goes wait_on_file_ok p es) = Steady s p × (length es < n)
  Kept n s (goes wait_on_data p es) = IsAccepted w argv s p
  Kept n s (goes process_transfer p es) = ⊥
  Kept n s (goes send_eof_ack p es) = ⊥
  Kept n s (waits p) = Unit
  Kept n s (exits p) = Unit
  Kept n s (faults p) = ⊥

  abbrev KeptRound : ℕ → ℕ → Attempt → Type 0
  KeptRound n s (again s' p es) = (s' ≡ s) × Steady s p × (length es < n)
  KeptRound n s (ends h) = Kept n s h

  close-Steady : (s : ℕ) (p : Process) → Steady s p → Steady s (close s p)
  close-Steady s p v = record { held = close-held s p v.held; low = v.low }

  -- The last two datagrams, on a socket that `fopen` leaves open.
  accepted :
      (s f target : ℕ) (p : Process)
      → (earlier : List Posted) × (p.posted ≡ earlier ++ (request w argv s p.server ∷ []))
      → p.descriptors s ≡ true
      → IsAccepted w argv s (post (file_ok_ack w argv s target) (open_descriptor f p))
  accepted s f target p (earlier, sent) is_open = (
    ground (arith, is_open),
    earlier,
    target,
    ap (λ posted. posted ++ (file_ok_ack w argv s target ∷ [])) sent
        ∙ append_assoc earlier (request w argv s p.server ∷ []) (file_ok_ack w argv s target ∷ []),
  )

  on_answer-Kept :
      (n s : ℕ) (p : Process) (d : Received) (es : List Event)
      → length es < n
      → Steady s p
      → p.descriptors s ≡ true
      → (earlier : List Posted) × (p.posted ≡ earlier ++ (request w argv s p.server ∷ []))
      → Kept n s (on_answer w argv s p d es)
  unfolding on_answer
  on_answer-Kept n s p d es less v is_open sent = elim (Bool-cases (flag_of d == 9)) [
    | inl ok ↦ rw ok (elim (Option-cases (w.fopen p.descriptors)) [
      | inl failed ↦ rw failed tt
      | inr (f, opened) ↦ rw opened (accepted s f d.source p sent is_open)
    ])
    | inr other ↦ rw other (close-Steady s p v, less)
  ]

  module _ (kernel : IsPoll w.poll) (lowest : IsLowest w.socket) (n s : ℕ) (positive : 0 < s) where
    ask-Kept :
        (p : Process) (es : List Event)
        → length es ≤ n
        → Steady s p
        → p.descriptors s ≡ true
        → KeptRound n s (ask w argv s p es)
    unfolding ask await_ok
    ask-Kept p [] within v is_open =
        let (set, added, low, _) =
          setup_add-answers w.poll kernel w.stale p.poll_set s timeout v.low in
        rw (KeptRound, ask, added) tt
    ask-Kept p (ev ∷ es) within v is_open =
        let (set, added, low, answer) =
          setup_add-answers w.poll kernel w.stale p.poll_set s ev v.low in
        rw (KeptRound, ask, added) (round set low ev answer)
      where
        round :
            (set : PollSet)
            → set.max_file_descriptor ≤ table_size s
            → (ev : Event) → poll_call (w.poll s ev) set ≡ answer_of w.poll kernel s ev
            → KeptRound n s (
                await_ok w argv s
                  (post (request w argv s p.server) (record p { poll_set = set }))
                  (ev ∷ es))
        round set low timeout answer =
            rw (KeptRound, await_ok, answer)
              (refl, record { held = close-held s p v.held; low = low }, omega (arith, within))
        round set low failure answer = rw (KeptRound, await_ok, answer) tt
        round set low (ready a) answer =
            rw (KeptRound, await_ok, answer)
              (unfold receive_ok in
                on_answer-Kept n s _ (recv_from (max_buf + 7) a) es (omega (arith, within))
                  (record { held = v.held; low = low }) is_open (p.posted, refl))

    renew-Kept :
        (p : Process) (es : List Event)
        → length es ≤ n
        → Steady s p
        → KeptRound n s (renew w argv port_number (close s p) es)
    unfolding renew
    renew-Kept p es within v = elim (open_socket-cases (close s p)) [
      | inl failed ↦ rw (KeptRound, renew, failed) tt
      | inr (s', server, got, eq) ↦
          let same = reopen w.socket s s' p lowest v.held got in
          let q : Process = record (close s p) { server = server } in
          let kept : KeptRound n s (ask w argv s (open_descriptor s q) es) =
            ask-Kept (open_descriptor s q) es within
              (record { held = open-held s s (close s p) (close-held s p v.held); low = v.low })
              (ground arith) in
          rw (KeptRound, renew, eq)
            (subst (λ x. KeptRound n s (ask w argv x (open_descriptor x q) es)) (sym same) kept)
    ]

    attempt-Kept :
        (p : Process) (es : List Event)
        → length es ≤ n
        → Steady s p
        → KeptRound n s (attempt w argv port_number s p es)
    unfolding attempt
    attempt-Kept p es within v =
        subst (λ b. KeptRound n s (renew w argv port_number (if b then close s p else p) es))
          (sym (lt→ltb 0 s positive)) (renew-Kept p es within v)

    pub attempts-Kept :
        (left : ℕ) (p : Process) (es : List Event)
        → length es ≤ n
        → Steady s p
        → Kept n s (attempts w argv left port_number s p es)
    unfolding attempts
    attempts-Kept zero p es within v = tt
    attempts-Kept (suc left) p es within v =
        go (λ p' es' less v'. attempts-Kept left p' es' (omega (arith, less)) v')
          (attempt w argv port_number s p es) (attempt-Kept p es within v)
      where
        go :
            ((p' : Process) (es' : List Event)
              → length es' < n
              → Steady s p'
              → Kept n s (attempts w argv left port_number s p' es'))
            → (a : Attempt) → KeptRound n s a
            → Kept n s (elim a [
              | again s' p' es' ↦ attempts w argv left port_number s' p' es'
              | ends h ↦ h
            ])
        go next (again s' p' es') (same, v', less) = rw same (next p' es' less v')
        go next (ends h) kept = kept
