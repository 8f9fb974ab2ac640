-- ===== src/Pdu/Parse.antt =====
-- What a receiver reads from the array that `recvfrom` filled: `memcpy` and `ntohl` of the first four
-- bytes, byte 6, the bytes from 7 on. `printPDU` of Workspace/functions.c reads the same fields.
use remote_file_copy_udp_pro.Base.{
  ℕ, ◌-◌, List, Option, none, some, length, take, drop, get_or, of_be32, ltb, ◌==◌, if◌then◌else◌,
  min, memcpy,
}
use remote_file_copy_udp_pro.Pdu.Build.{header_len}

-- The result of a `recvfrom`: the array behind it (the bytes past `bytes_recv` are what the array held
-- before), the count that it returned, and the address that it wrote.
pub record Received : Type 0 where
  pub buffer : List ℕ
  pub bytes_recv : ℕ
  pub source : ℕ

-- `recvfrom(…, buffer, length buffer, …)` of a datagram: what does not fit is cut off.
abbrev pub receive_into : List ℕ → List ℕ → ℕ → Received
receive_into array bytes source = record {
  buffer = memcpy array 0 bytes;
  bytes_recv = min (length bytes) (length array);
  source = source;
}

abbrev pub byte : Received → ℕ → ℕ
byte d i = get_or d.buffer i 0

unfoldable pub seq_num : Received → ℕ
seq_num d = of_be32 (byte d 0) (byte d 1) (byte d 2) (byte d 3)

unfoldable pub flag_of : Received → ℕ
flag_of d = byte d 6

-- `packet + 7` for `bytesRecv - 7` bytes. A shorter datagram makes that length negative, and every
-- copy of so many bytes, a huge `size_t`, faults.
unfoldable pub payload_of : Received → Option (List ℕ)
payload_of d =
    if ltb d.bytes_recv header_len
    then none
    else some (take (d.bytes_recv - header_len) (drop header_len d.buffer))

-- `printPDU`: it exits on a wrong checksum, and else prints the fields. With a length below 7 the
-- payload's length is printed as a negative number.
pub data Printed : Type 0 where
  exits : Printed
  negative_len : ℕ → ℕ → Printed
  fields : ℕ → ℕ → List ℕ → Printed

abbrev pub printed : ℕ → ℕ → Option (List ℕ) → Printed
printed sequence_number flag none = negative_len sequence_number flag
printed sequence_number flag (some payload) = fields sequence_number flag payload

unfoldable pub print_pdu : (List ℕ → ℕ) → List ℕ → Printed
print_pdu in_cksum a_pdu =
    let d : Received = record { buffer = a_pdu; bytes_recv = length a_pdu; source = 0 } in
    if in_cksum a_pdu == 0 then printed (seq_num d) (flag_of d) (payload_of d) else exits
