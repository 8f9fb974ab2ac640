-- ===== src/Client/Opening.antt =====
-- Workspace/server.c: what `filename_state` makes of the request of Workspace/rcopy.c.
use remote_file_copy_udp_pro.Base.{
  none, [], Bool-cases, inl, inr, false, ◌==◌, if◌then◌else◌, ℕ, suc, ◌+◌, ◌-◌, ◌≤◌, ◌<◌, ◌≡◌, refl,
  ap, ◌∙◌, Option, some, List, ◌∷◌, ◌++◌, length, take, memcpy, Endian, store16, load16, htons,
  htons-lt, arith, le→ltb_false, lt→leb_false, take-append, memcpy_front, memcpy-nil, min,
}
use remote_file_copy_udp_pro.CircularQueue.{free}
use remote_file_copy_udp_pro.Client.Request.{request_payload, request_pdu}
use remote_file_copy_udp_pro.Net.{Event}
use remote_file_copy_udp_pro.Pdu.{
  receive_into, create_pdu, datagram, stack_array, length-stack_array, max_buf,
}
use remote_file_copy_udp_pro.Pdu.RoundTrip.{load16-store16}
use remote_file_copy_udp_pro.Pdu.Wire.{wire, summed, create_pdu-wire, length-wire, store16-pair}
use remote_file_copy_udp_pro.Server.{
  Child, returns, faults, start, done, write_file_ok_ack, c_string, filename_state, answer, send,
  clean_up, process_client,
}

module _ (e : Endian) (in_cksum : List ℕ → ℕ) where
  -- The payload: two sizes in network order, and the name.
  request_payload-layout :
      (array : List ℕ) (w b : ℕ) (name : List ℕ)
      → 4 + length name ≤ length array
      → take (length name + 4) (request_payload e in_cksum array w b name)
        ≡ store16 e (htons e w) ++ (store16 e (htons e b) ++ name)
  unfolding request_payload memcpy
  request_payload-layout (a₀ ∷ a₁ ∷ a₂ ∷ a₃ ∷ rest) w b name le =
      let (x, y, two) = store16-pair e in_cksum (htons e w) in
      let (x', y', two') = store16-pair e in_cksum (htons e b) in
      let len : length name + 4 ≡ suc (suc (suc (suc (length name)))) = omega arith in
      let copied : take (length name) (memcpy rest 0 name) ≡ name =
        rw (memcpy_front rest name (omega arith)) (take-append name _ _ refl) in
      rw (two, two', len, memcpy-nil rest, copied) refl
  request_payload-layout _ w b name le = absurd (omega (arith, le))

  abbrev pub sizes_and_name : ℕ → ℕ → List ℕ → List ℕ
  sizes_and_name w b name = store16 e (htons e w) ++ (store16 e (htons e b) ++ name)

  pub length-sizes_and_name :
      (w b : ℕ) (name : List ℕ) → length (sizes_and_name w b name) ≡ 4 + length name
  length-sizes_and_name w b name =
      let (x, y, two) = store16-pair e in_cksum (htons e w) in
      let (x', y', two') = store16-pair e in_cksum (htons e b) in rw (two, two') (omega arith)

  -- The request on the wire, for a name that fits into both arrays.
  pub request_pdu-wire :
      (w b : ℕ) (name : List ℕ)
      → 4 + length name ≤ max_buf
      → datagram (request_pdu e in_cksum w b name) ≡ wire e in_cksum 0 8 (sizes_and_name w b name)
  unfolding request_pdu
  request_pdu-wire w b name short =
      ap (λ bytes. datagram (create_pdu e in_cksum (stack_array (max_buf + 7)) 0 8 bytes))
        (request_payload-layout (stack_array max_buf) w b name
          (omega (arith, short, length-stack_array max_buf)))
      ∙ create_pdu-wire e in_cksum (stack_array (max_buf + 7)) 0 8 (sizes_and_name w b name)
          (omega (arith, short, length-sizes_and_name w b name, length-stack_array (max_buf + 7)))

  pub length-request_pdu :
      (w b : ℕ) (name : List ℕ)
      → 4 + length name ≤ max_buf
      → length (datagram (request_pdu e in_cksum w b name)) ≡ 11 + length name
  length-request_pdu w b name short =
      ap length (request_pdu-wire w b name short)
      ∙ omega (
        arith,
        length-wire e in_cksum 0 8 (sizes_and_name w b name),
        length-sizes_and_name w b name,
      )

  module _ (fopen : List ℕ → Option (List ℕ)) (socket : ℕ) (c : Child) (es : List Event) where
    -- The child behind the acceptance of a name.
    abbrev pub accepted : List ℕ → ℕ → ℕ → List ℕ → Child
    accepted name w b file = record (send c (wire e in_cksum 0 9 name)) {
      info = record c.info {
        child_socket = socket;
        file = some file;
        window_size = htons e w;
        buffer_size = htons e b;
      };
    }

    -- The child of a request, before its file is opened.
    abbrev asked : ℕ → ℕ → Child
    asked w b = record c {
      info = record c.info {
        child_socket = socket;
        window_size = htons e (htons e w);
        buffer_size = htons e (htons e b);
      };
    }

    filename_state-fields :
        (a₀ a₁ a₂ a₃ a₄ a₅ a₆ x y x' y' m src w b : ℕ) (bytes name : List ℕ)
        → m ≡ 11 + length name
        → length name < 100
        → take (length name) bytes ≡ name
        → c_string name ≡ name
        → load16 e x y ≡ htons e w
        → load16 e x' y' ≡ htons e b
        → filename_state e in_cksum fopen socket
            (record {
              buffer = a₀ ∷ a₁ ∷ a₂ ∷ a₃ ∷ a₄ ∷ a₅ ∷ a₆ ∷ x ∷ y ∷ x' ∷ y' ∷ bytes;
              bytes_recv = m;
              source = src;
            })
            c
            es
          ≡ answer e in_cksum fopen (asked w b) name (htons e w) (htons e b) (fopen name) es
    unfolding filename_state
    filename_state-fields a₀ a₁ a₂ a₃ a₄ a₅ a₆ x y x' y' m src w b bytes name len short named ends
          window buffer =
        let rest : m - 11 ≡ length name = omega arith in
        rw
          (
            le→ltb_false m 11 (omega arith),
            rest,
            lt→leb_false 100 (length name) short,
            named,
            ends,
            window,
            buffer,
          )
          refl

    filename_state-recv :
        (a₀ a₁ a₂ a₃ a₄ a₅ a₆ x y x' y' src w b : ℕ) (datagram before name : List ℕ)
        → datagram ≡ a₀ ∷ a₁ ∷ a₂ ∷ a₃ ∷ a₄ ∷ a₅ ∷ a₆ ∷ x ∷ y ∷ x' ∷ y' ∷ name
        → 11 + length name ≤ length before
        → length name < 100
        → c_string name ≡ name
        → load16 e x y ≡ htons e w
        → load16 e x' y' ≡ htons e b
        → filename_state e in_cksum fopen socket (receive_into before datagram src) c es
          ≡ answer e in_cksum fopen (asked w b) name (htons e w) (htons e b) (fopen name) es
    unfolding memcpy
    filename_state-recv a₀ a₁ a₂ a₃ a₄ a₅ a₆ x y x' y' src w b datagram
          (b₀ ∷ b₁ ∷ b₂ ∷ b₃ ∷ b₄ ∷ b₅ ∷ b₆ ∷ b₇ ∷ b₈ ∷ b₉ ∷ b₁₀ ∷ rest) name eq room short ends
          window buffer =
        let whole = a₀ ∷ a₁ ∷ a₂ ∷ a₃ ∷ a₄ ∷ a₅ ∷ a₆ ∷ x ∷ y ∷ x' ∷ y' ∷ name in
        let before = b₀ ∷ b₁ ∷ b₂ ∷ b₃ ∷ b₄ ∷ b₅ ∷ b₆ ∷ b₇ ∷ b₈ ∷ b₉ ∷ b₁₀ ∷ rest in
        let copied : take (length name) (memcpy rest 0 name) ≡ name =
          rw (memcpy_front rest name (omega arith)) (take-append name _ _ refl) in
        rw eq (
          filename_state-fields a₀ a₁ a₂ a₃ a₄ a₅ a₆ x y x' y' (min (length whole) (length before))
            src w b (memcpy rest 0 name) name (omega arith) short copied ends window buffer)
    filename_state-recv a₀ a₁ a₂ a₃ a₄ a₅ a₆ x y x' y' src w b datagram _ name eq room short ends
          window buffer =
        absurd (omega (arith, room))

    filename_state-asked :
        (w b src : ℕ) (before name : List ℕ)
        → 11 + length name ≤ length before
        → length name < 100
        → c_string name ≡ name
        → filename_state e in_cksum fopen socket
            (receive_into before (datagram (request_pdu e in_cksum w b name)) src)
            c
            es
          ≡ answer e in_cksum fopen (asked w b) name (htons e w) (htons e b) (fopen name) es
    filename_state-asked w b src before name room short ends =
        let payload = sizes_and_name w b name in
        let (x, y, two) = store16-pair e in_cksum (htons e w) in
        let (x', y', two') = store16-pair e in_cksum (htons e b) in
        let (p, q, sum) = store16-pair e in_cksum (in_cksum (summed e in_cksum 0 8 payload)) in
        let sent : datagram (request_pdu e in_cksum w b name)
            ≡ 0 ∷ 0 ∷ 0 ∷ 0 ∷ p ∷ q ∷ 8 ∷ x ∷ y ∷ x' ∷ y' ∷ name =
          request_pdu-wire w b name (omega (arith, short)) ∙ rw (sum, two, two') refl in
        filename_state-recv 0 0 0 0 p q 8 x y x' y' src w b _ before name sent room short ends
          (load16-store16 e (htons e w) (htons-lt e w) two)
          (load16-store16 e (htons e b) (htons-lt e b) two')

    -- On the request of the client for a name of fewer than 100 bytes without a NUL, received into
    -- an array with room for it, of a file that can be opened: `filename_state` opens the file of
    -- just that name, accepts it with flag 9, and stores both sizes as `htons` of what the client
    -- asked for, not as the numbers themselves.
    pub filename_state-request :
        (w b src : ℕ) (before name file : List ℕ)
        → 11 + length name ≤ length before
        → length name < 100
        → c_string name ≡ name
        → fopen name ≡ some file
        → filename_state e in_cksum fopen socket
            (receive_into before (datagram (request_pdu e in_cksum w b name)) src)
            c
            es
          ≡ returns write_file_ok_ack (accepted name w b file) es
    filename_state-request w b src before name file room short ends opened =
        let ok =
          create_pdu-wire e in_cksum (stack_array max_buf) 0 9 name
            (omega (arith, length-stack_array max_buf)) in
        filename_state-asked w b src before name room short ends ∙ rw (opened, ok) refl

    filename_state-missing :
        (w b src : ℕ) (before name : List ℕ)
        → 11 + length name ≤ length before
        → length name < 100
        → c_string name ≡ name
        → fopen name ≡ none
        → filename_state e in_cksum fopen socket
            (receive_into before (datagram (request_pdu e in_cksum w b name)) src)
            c
            es
          ≡ returns done (send (asked w b) (wire e in_cksum 0 33 name)) es
    filename_state-missing w b src before name room short ends missing =
        let error =
          create_pdu-wire e in_cksum (stack_array max_buf) 0 33 name
            (omega (arith, length-stack_array max_buf)) in
        filename_state-asked w b src before name room short ends ∙ rw (missing, error) refl

    fclose-null :
        (file : Option (List ℕ)) (c' : Child)
        → file ≡ none
        → elim file [ none ↦ faults c' | some _ ↦ returns done c' es ] ≡ faults c'
    fclose-null file c' no_file = rw no_file refl

    -- The clean-up of a child that has opened no file, and no window.
    clean_up-faults :
        (c' : Child)
        → c'.file ≡ none
        → c'.window_set ≡ false
        → (c'' : Child) × (clean_up c' es ≡ faults c'') × (c''.sent ≡ c'.sent)
    unfolding clean_up
    clean_up-faults c' no_file no_window =
        let closed : Child =
          if c'.window_size == 0 then c' else record c' { window = free c'.window } in
        elim (Bool-cases (c'.window_size == 0)) [
          | inl zero ↦
              let same : closed ≡ c' = rw zero refl in
              (closed, rw zero (fclose-null c'.file closed no_file ∙ ap faults same), rw zero refl)
          | inr sized ↦ (c', rw (sized, no_window) refl, refl)
        ]

    -- On the request of the client for a name of fewer than 100 bytes without a NUL, received into
    -- an array with room for it, of a file that cannot be opened: a child without a file and a
    -- window, as it starts, sends the error PDU with flag 33 and the name, and nothing else, and
    -- then faults in its clean-up.
    pub process_client-missing :
        (w b src fuel : ℕ) (before name : List ℕ)
        → 11 + length name ≤ length before
        → length name < 100
        → c_string name ≡ name
        → fopen name ≡ none
        → c.file ≡ none
        → c.window_set ≡ false
        → (c' : Child) × (process_client e in_cksum fopen socket
              (receive_into before (datagram (request_pdu e in_cksum w b name)) src)
              (3 + fuel)
              start
              c
              es
            ≡ faults c')
          × (c'.sent
              ≡ c.sent
                ++ (record { target = c.client_addr; bytes = wire e in_cksum 0 33 name } ∷ []))
    unfolding process_client
    process_client-missing w b src fuel before name room short ends missing no_file no_window =
        let three : 3 + fuel ≡ suc (suc (suc fuel)) = omega arith in
        let run = filename_state-missing w b src before name room short ends missing in
        let (c', faulted, log) =
          clean_up-faults (send (asked w b) (wire e in_cksum 0 33 name)) no_file no_window in
        (c', rw (three, process_client, run) faulted, log)
