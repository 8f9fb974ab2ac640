-- ===== src/Examples/Pdu.antt =====
-- Examples for the PDU codec.
use remote_file_copy_udp_pro.Base.{◌≡◌, refl, some, [], ◌∷◌, arith, little, store16}
use remote_file_copy_udp_pro.Examples.Data.{internet_sum, small_array}
use remote_file_copy_udp_pro.Pdu.{
  receive_into, seq_num, flag_of, payload_of, create_pdu, datagram, print_pdu, fields,
}
use remote_file_copy_udp_pro.Pdu.RoundTrip.{receive-wire, print-create_pdu}
use remote_file_copy_udp_pro.Pdu.Wire.{wire}

receive-wire_example :
    let d = receive_into small_array (wire little internet_sum 70000 17 (1 ∷ 2 ∷ [])) 7 in
    (seq_num d ≡ 70000) × (flag_of d ≡ 17) × (payload_of d ≡ some (1 ∷ 2 ∷ []))
receive-wire_example =
    receive-wire little internet_sum small_array 70000 17 (1 ∷ 2 ∷ []) 7 (omega arith) (omega arith)

print-create_pdu_example :
    print_pdu internet_sum
      (datagram (create_pdu little internet_sum small_array 5 16 (1 ∷ 2 ∷ 3 ∷ [])))
    ≡ fields 5 16 (1 ∷ 2 ∷ 3 ∷ [])
unfolding store16
print-create_pdu_example =
    print-create_pdu little internet_sum small_array 5 16 (1 ∷ 2 ∷ 3 ∷ []) (omega arith)
      (omega arith) refl
