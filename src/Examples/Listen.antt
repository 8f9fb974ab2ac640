-- ===== src/Examples/Listen.antt =====
-- An example for the parent of the server: a request for the file `ab`, and then a datagram that is
-- none.
use remote_file_copy_udp_pro.Base.{
  ℕ, ◌+◌, ◌≡◌, refl, true, List, [], ◌∷◌, ◌++◌, arith, little, length-replicate, replicate,
}
use remote_file_copy_udp_pro.CircularQueue.{CircularQueue}
use remote_file_copy_udp_pro.Client.{request_pdu}
use remote_file_copy_udp_pro.Client.Opening.{accepted}
use remote_file_copy_udp_pro.Examples.Data.{internet_sum, small_file, arrives}
use remote_file_copy_udp_pro.Examples.Opening.{disk}
use remote_file_copy_udp_pro.Net.{Event, ready}
use remote_file_copy_udp_pro.Pdu.{receive_into, datagram, max_buf}
use remote_file_copy_udp_pro.Server.{start, write_file_ok_ack, new_child, process_client, c_string}
use remote_file_copy_udp_pro.Server.Forks.{requests, request-served}
use remote_file_copy_udp_pro.Server.Listen.{children, process_server}

-- What follows.
abbrev others : List Event
others = ready (arrives (0 ∷ 0 ∷ 0 ∷ 1 ∷ 0 ∷ 0 ∷ 5 ∷ [])) ∷ []

abbrev array : List ℕ
array = replicate max_buf 9

request-served_example :
    let bytes = datagram (request_pdu little internet_sum 5 1000 (97 ∷ 98 ∷ [])) in
    let d = receive_into array bytes 7 in
    (children (
        process_server
          (λ n. true)
          []
          (ready (record { bytes = bytes; source = 7; before = array }) ∷ others))
      ≡ [] ++ (d ∷ requests others))
    × ((fuel : ℕ) (window : CircularQueue) (es' : List Event)
        → process_client little internet_sum disk 3 d (2 + fuel) start (new_child 7 window) es'
          ≡ process_client little internet_sum disk 3 d fuel write_file_ok_ack
              (accepted little internet_sum disk 3
                (new_child 7 window)
                es'
                (97 ∷ 98 ∷ [])
                5
                1000
                small_file)
              es')
unfolding c_string
request-served_example =
    request-served little internet_sum disk 3 (λ n. true) [] others 5 1000 7 (97 ∷ 98 ∷ []) array
      small_file (λ n. refl) (omega arith) (length-replicate {A = ℕ} max_buf 9) refl refl
