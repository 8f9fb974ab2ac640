-- ===== src/Client/Request.antt =====
-- Workspace/rcopy.c: the request that `wait_on_file_ok_state` builds.
use remote_file_copy_udp_pro.Base.{ℕ, ◌+◌, List, length, take, memcpy, Endian, store16, htons}
use remote_file_copy_udp_pro.Pdu.{Built, create_pdu, stack_array, max_buf}

module _ (e : Endian) (in_cksum : List ℕ → ℕ) where
  -- The array `payload` behind its three copies. The numbers are what `atoi` makes of the arguments.
  unfoldable pub request_payload : List ℕ → ℕ → ℕ → List ℕ → List ℕ
  request_payload array window_size buffer_size from_filename =
      let with_window = memcpy array 0 (store16 e (htons e window_size)) in
      let with_buffer = memcpy with_window 2 (store16 e (htons e buffer_size)) in
      memcpy with_buffer 4 from_filename

  -- The PDU of the request, with flag 8.
  unfoldable pub request_pdu : ℕ → ℕ → List ℕ → Built
  request_pdu window_size buffer_size from_filename =
      let payload = request_payload (stack_array max_buf) window_size buffer_size from_filename in
      create_pdu e in_cksum (stack_array (max_buf + 7)) 0 8
        (take (length from_filename + 4) payload)
