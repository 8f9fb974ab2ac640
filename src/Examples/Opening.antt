-- ===== src/Examples/Opening.antt =====
-- An example for the opening of a transfer: a request for the file `ab`.
use remote_file_copy_udp_pro.Base.{
  ◌+◌, ◌++◌, ℕ, ◌≡◌, refl, none, some, Option, List, [], ◌∷◌, arith, little, ◌==◌, if◌then◌else◌,
}
use remote_file_copy_udp_pro.Client.{request_pdu}
use remote_file_copy_udp_pro.Client.Opening.{
  filename_state-request, accepted, process_client-missing,
}
use remote_file_copy_udp_pro.Examples.Data.{internet_sum, small_file, small_array}
use remote_file_copy_udp_pro.Examples.Window.{empty_window}
use remote_file_copy_udp_pro.Pdu.{receive_into, datagram}
use remote_file_copy_udp_pro.Pdu.Wire.{wire}
use remote_file_copy_udp_pro.Server.{
  Child, filename_state, c_string, new_child, returns, write_file_ok_ack, process_client, start,
  faults,
}

-- The directory of the server: one file, whose name is `a` and one more character.
abbrev pub disk : List ℕ → Option (List ℕ)
disk [] = none
disk (a ∷ name) = if a == 97 then some small_file else none

-- A stack array of 24 bytes.
abbrev request_array : List ℕ
request_array = 1 ∷ 1 ∷ 1 ∷ 1 ∷ 1 ∷ 1 ∷ 1 ∷ 1 ∷ 1 ∷ 1 ∷ 1 ∷ 1 ∷ small_array

filename_state-request_example :
    filename_state little internet_sum disk 4
      (receive_into request_array
        (datagram (request_pdu little internet_sum 5 1000 (97 ∷ 98 ∷ [])))
        7)
      (new_child 7 empty_window)
      []
    ≡ returns write_file_ok_ack
        (accepted little internet_sum disk 4
          (new_child 7 empty_window)
          []
          (97 ∷ 98 ∷ [])
          5
          1000
          small_file)
        []
unfolding c_string
filename_state-request_example =
    filename_state-request little internet_sum disk 4 (new_child 7 empty_window) [] 5 1000 7
      request_array (97 ∷ 98 ∷ []) small_file (omega arith) (omega arith) refl refl

-- The request for the empty name, which no file has.
process_client-missing_example :
    (c' : Child) × (process_client little internet_sum disk 4
        (receive_into request_array (datagram (request_pdu little internet_sum 5 1000 [])) 7)
        (3 + 2)
        start
        (new_child 7 empty_window)
        []
      ≡ faults c')
    × (c'.sent ≡ [] ++ (record { target = 7; bytes = wire little internet_sum 0 33 [] } ∷ []))
unfolding c_string
process_client-missing_example =
    process_client-missing little internet_sum disk 4 (new_child 7 empty_window) [] 5 1000 7 2
      request_array [] (omega arith) (omega arith) refl refl refl refl
