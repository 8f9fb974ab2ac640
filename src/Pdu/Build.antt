-- ===== src/Pdu/Build.antt =====
-- Workspace/functions.c: `createPDU`, `send_rr` and `send_srej` up to the call of `sendtoErr`.
use remote_file_copy_udp_pro.Base.{
  ℕ, ◌+◌, List, [], ◌∷◌, ◌≡◌, length, take, set, replicate, length-replicate, memcpy, be32, Endian,
  store16,
}

-- `MAXBUF` of functions.h, and the header before the payload.
abbrev pub max_buf : ℕ
max_buf = 1400

abbrev pub header_len : ℕ
header_len = 7

-- A PDU array and the length that `createPDU` returns.
pub record Built : Type 0 where
  pub buffer : List ℕ
  pub len : ℕ

-- What `sendtoErr(socket, buffer, len, …)` is handed.
abbrev pub datagram : Built → List ℕ
datagram p = take p.len p.buffer

-- An array on the stack. Its contents are not determined in C; `create_pdu-wire` shows that none of
-- them is sent.
unfoldable pub stack_array : ℕ → List ℕ
stack_array n = replicate n 0

pub length-stack_array : (n : ℕ) → length (stack_array n) ≡ n
unfolding stack_array
length-stack_array n = length-replicate n 0

module _ (e : Endian) (in_cksum : List ℕ → ℕ) where
  -- `createPDU`. The list `payload` is the `payloadLen` bytes that are copied.
  unfoldable pub create_pdu : List ℕ → ℕ → ℕ → List ℕ → Built
  create_pdu pdu_buffer sequence_number flag payload =
      let with_sequence = memcpy pdu_buffer 0 (be32 sequence_number) in
      let with_zero = memcpy with_sequence 4 (0 ∷ 0 ∷ []) in
      let with_flag = memcpy with_zero 6 (flag ∷ []) in
      let with_payload = memcpy with_flag 7 payload in
      let offset = header_len + length payload in
      let ck_sum = in_cksum (take offset with_payload) in
      record { buffer = memcpy with_payload 4 (store16 e ck_sum); len = offset }

  -- `send_rr`, up to its `sendtoErr`: the seven bytes that it sends.
  unfoldable pub rr_pdu : ℕ → List ℕ
  unfolding stack_array
  rr_pdu next =
      let with_sequence = memcpy (stack_array 7) 0 (be32 next) in
      let with_zero = memcpy with_sequence 4 (0 ∷ 0 ∷ []) in
      let pdu = set with_zero 6 5 in memcpy pdu 4 (store16 e (in_cksum pdu))

  -- `send_srej`, up to its `sendtoErr`.
  unfoldable pub srej_pdu : ℕ → List ℕ
  unfolding stack_array
  srej_pdu missing_seq =
      let with_sequence = memcpy (stack_array 7) 0 (be32 missing_seq) in
      let with_zero = memcpy with_sequence 4 (0 ∷ 0 ∷ []) in
      let pdu = set with_zero 6 6 in memcpy pdu 4 (store16 e (in_cksum pdu))
