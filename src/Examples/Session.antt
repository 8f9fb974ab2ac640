-- ===== src/Examples/Session.antt =====
-- Examples for whole runs of the child, and of the child and the client.
use remote_file_copy_udp_pro.Base.{
  ℕ, suc, ◌+◌, ◌≤◌, ◌<◌, ◌≡◌, refl, some, List, [], ◌∷◌, length, length-replicate, replicate, arith,
  little, big, u16_mod, memcpy, store16, htons,
}
use remote_file_copy_udp_pro.Client.{request_pdu}
use remote_file_copy_udp_pro.Client.Opening.{accepted}
use remote_file_copy_udp_pro.CircularQueue.{init, insert, get, remove}
use remote_file_copy_udp_pro.Examples.Data.{internet_sum, small_file, arrives}
use remote_file_copy_udp_pro.Examples.Opening.{disk}
use remote_file_copy_udp_pro.Examples.Sender.{
  before_1, bad_request, no_files, at_end, acks, acks-Answerable, rr_2,
}
use remote_file_copy_udp_pro.Examples.Window.{empty_window}
use remote_file_copy_udp_pro.Net.{Event, timeout, ready}
use remote_file_copy_udp_pro.Pdu.{
  receive_into, datagram, max_buf, create_pdu, stack_array, flag_of, seq_num,
}
use remote_file_copy_udp_pro.Receiver.{new_info}
use remote_file_copy_udp_pro.Server.{
  Child, start, done, send_data, wait_on_eof_ack, returns, process_client, new_child, c_string,
  write_file_ok_ack_state, fill, receive_ack, resend_first, keep_and_send, entry_payload,
}
use remote_file_copy_udp_pro.Server.Closes.{process_client_closes}
use remote_file_copy_udp_pro.Server.Log.{AllSent}
use remote_file_copy_udp_pro.Server.Serves.{Serves, process_client-Serves}
use remote_file_copy_udp_pro.Server.Unheard.{process_client_unheard}
use remote_file_copy_udp_pro.Server.Session.{request-Serves}
use remote_file_copy_udp_pro.Server.Replies.{Answerable, OnNext, start_sending}
use remote_file_copy_udp_pro.System.{Both, begin, run}
use remote_file_copy_udp_pro.System.Lossless.{Copied, transfer-Copied}
use remote_file_copy_udp_pro.System.Turns.{lossless}

internet_sum-lt : (bytes : List ℕ) → internet_sum bytes < u16_mod
internet_sum-lt bytes = ground arith

abbrev array : List ℕ
array = replicate (max_buf + 7) 9

transfer-Copied_example :
    (s : Both) × (n : ℕ) × (s' : Both) × (begin little internet_sum before_1 (new_info 2 4 7)
      ≡ some s)
    × (run little internet_sum (lossless n (length before_1.sent) 7 array) s ≡ some s')
    × Copied little internet_sum small_file (suc n) s'
    × (n ≤ length small_file)
transfer-Copied_example =
    transfer-Copied little internet_sum 2 small_file 7 array (omega arith) (omega arith)
      (omega arith) (omega (arith, length-replicate {A = ℕ} (max_buf + 7) 9)) internet_sum-lt
      before_1 2 4 7 refl refl (omega arith) (omega arith)

process_client-Serves_example :
    Serves little internet_sum 2 small_file
      (process_client little internet_sum no_files 4 bad_request 14 send_data before_1 acks)
unfolding AllSent
process_client-Serves_example =
    process_client-Serves little internet_sum 2 small_file no_files 4 bad_request (omega arith)
      (omega arith) (omega arith) 14 before_1 acks (omega arith) refl refl (omega arith)
      (omega arith) tt acks-Answerable

-- Two resendings are left; a datagram that is no acknowledgement does not matter.
abbrev silence : List Event
silence = timeout ∷ ready (arrives rr_2) ∷ timeout ∷ timeout ∷ []

process_client_closes_example :
    (c' : Child) × (es' : List Event) × (process_client little internet_sum no_files 4 bad_request
        10 wait_on_eof_ack at_end silence
      ≡ returns done c' es')
    × (length c'.sent + at_end.eof_resend_count ≤ length at_end.sent + 10)
process_client_closes_example =
    process_client_closes little internet_sum no_files 4 bad_request 10 at_end silence (omega arith)
      tt refl refl (omega arith) (omega arith)

-- The child of a request for a window of one packet and chunks of two bytes, on a big-endian host.
abbrev child : Child
child = accepted big internet_sum disk 3 (new_child 7 empty_window) [] (97 ∷ 98 ∷ []) 1 2 small_file

abbrev replies : List Event
replies = timeout ∷ ready (arrives rr_2) ∷ []

replies-Answerable :
    OnNext big internet_sum
      (λ p d s. Answerable big internet_sum p d s replies)
      1
      (fill big internet_sum (start_sending child) 1)
unfolding Answerable fill init insert create_pdu memcpy stack_array receive_ack flag_of seq_num get
    remove resend_first keep_and_send store16 entry_payload htons
replies-Answerable = ((λ h. absurd (ground arith)), tt)

request-Serves_example : Serves big internet_sum 2 small_file (
    process_client big internet_sum disk 3
      (receive_into
        (replicate max_buf 9)
        (datagram (request_pdu big internet_sum 1 2 (97 ∷ 98 ∷ [])))
        7)
      (3 + 8)
      start
      (new_child 7 empty_window)
      (ready (arrives (0 ∷ 0 ∷ 0 ∷ 0 ∷ 0 ∷ 0 ∷ 34 ∷ [])) ∷ replies))
unfolding c_string write_file_ok_ack_state flag_of memcpy htons
request-Serves_example =
    request-Serves big internet_sum 2 small_file disk 3 (omega arith) (omega arith) (omega arith) 1
      2 7 8 (97 ∷ 98 ∷ []) (replicate max_buf 9) empty_window child
      (ready (arrives (0 ∷ 0 ∷ 0 ∷ 0 ∷ 0 ∷ 0 ∷ 34 ∷ [])) ∷ replies) replies (omega arith)
      (length-replicate {A = ℕ} max_buf 9) refl refl refl (omega arith) refl (omega arith)
      replies-Answerable

-- Twenty seconds go by, and nothing arrives.
process_client_unheard_example :
    (c' : Child) × (es' : List Event) × (process_client little internet_sum no_files 4 bad_request
        50 send_data before_1
        (replicate 20 timeout)
      ≡ returns done c' es')
    × (length c'.sent ≤ length before_1.sent + length small_file + 11)
process_client_unheard_example =
    process_client_unheard little internet_sum no_files 4 bad_request 2 small_file (omega arith)
      (omega arith) (omega arith) 50 20 before_1 (omega arith) (omega arith) refl refl (omega arith)
