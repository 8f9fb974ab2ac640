-- ===== src/Examples/Sender.antt =====
-- Examples for the sender: a window of one packet over a file of three bytes, in chunks of two.
use Prim.Native.Nat.{max}
use remote_file_copy_udp_pro.Base.{
  ℕ, ◌≡◌, refl, true, Option, none, some, List, [], ◌∷◌, ◌++◌, arith, little, replicate, min,
  memcpy, htons, store16, ◌==◌, ◌&&◌,
}
use remote_file_copy_udp_pro.CircularQueue.{init, insert, remove, get}
use remote_file_copy_udp_pro.Examples.Data.{internet_sum, small_file, small_array, arrives}
use remote_file_copy_udp_pro.Examples.Window.{
  empty_window, window_of_1, empty_window-Holds, window_of_1-Holds,
}
use remote_file_copy_udp_pro.Net.{Event, timeout, ready, recv_from}
use remote_file_copy_udp_pro.Pdu.{Received, seq_num, flag_of, max_buf, create_pdu, stack_array}
use remote_file_copy_udp_pro.Pdu.Wire.{wire, summed}
use remote_file_copy_udp_pro.Server.{
  Child, returns, done, send, receive_ack, answer_srej, resend_first, fill, send_loop, full,
  keep_and_send, entry_payload, is_eof_ack,
}
use remote_file_copy_udp_pro.Server.Acks.{receive_rr-Sending, answer_srej-Sending}
use remote_file_copy_udp_pro.Server.Chunks.{content, chunk_of, Sending, Filled, fill-Filled}
use remote_file_copy_udp_pro.Server.Handshake.{is_eof_ack-wire}
use remote_file_copy_udp_pro.Server.Replies.{Answerable, OnNext, start_sending}
use remote_file_copy_udp_pro.Server.Silent.{send_loop_silent}
use remote_file_copy_udp_pro.CircularQueue.View.{held}

-- The child before the first packet, and behind it.
abbrev pub before_1 : Child
before_1 = record {
  info = record {
    child_socket = 4;
    file = some small_file;
    client_addr = 7;
    window_size = 1;
    buffer_size = 2;
    eof_len = 0;
    eof_packet = replicate 7 0;
    eof_seq = 0;
    eof_resend_count = 0;
  };
  window = empty_window;
  window_set = true;
  sent = [];
}

abbrev behind_1 : Child
behind_1 = record before_1 {
  info = record before_1.info { file = some (30 ∷ []) };
  window = window_of_1;
}

-- The child that waits for the acknowledgement of its EOF.
abbrev pub at_end : Child
at_end = record before_1 {
  info = record before_1.info { file = some []; eof_seq = 3; eof_resend_count = 8 };
}

before_1-Sending : Sending little internet_sum 2 small_file 1 0 before_1
before_1-Sending = record {
  holds = empty_window-Holds;
  reads = refl;
  sized = refl;
  from_one = omega arith;
}

behind_1-Sending : Sending little internet_sum 2 small_file 1 1 behind_1
behind_1-Sending = record {
  holds = window_of_1-Holds;
  reads = refl;
  sized = refl;
  from_one = omega arith;
}

-- An RR for the packet 2.
abbrev pub rr_2 : List ℕ
rr_2 = 0 ∷ 0 ∷ 0 ∷ 2 ∷ 248 ∷ 255 ∷ 5 ∷ []

fill-Filled_example :
    Filled little internet_sum 2 small_file
      (omega arith)
      1
      0
      before_1
      (fill little internet_sum before_1 1)
fill-Filled_example =
    fill-Filled little internet_sum 2 small_file (omega arith) 1 0 before_1 (omega arith)
      (omega arith) before_1-Sending

receive_rr-Sending_example :
    (c' : Child) × (receive_ack little internet_sum behind_1 (arrives rr_2) ≡ some c')
    × Sending little internet_sum 2 small_file
        (max 1 (min (seq_num (recv_from 7 (arrives rr_2))) 2))
        1
        c'
    × (c'.sent ≡ behind_1.sent)
unfolding flag_of memcpy
receive_rr-Sending_example =
    receive_rr-Sending little internet_sum 2 small_file (omega arith) 1 1 behind_1 (arrives rr_2)
      behind_1-Sending refl

answer_srej-Sending_example :
    answer_srej little internet_sum behind_1 1
    ≡ some (send behind_1 (wire little internet_sum 1 17 (10 ∷ 20 ∷ [])))
answer_srej-Sending_example =
    answer_srej-Sending little internet_sum 2 small_file (omega arith) 1 1 1 behind_1
      behind_1-Sending (omega arith) (omega arith)

send_loop_silent_example :
    (s : ℕ) × (held behind_1.window s ≡ some (content little internet_sum 2 small_file s))
    × (send_loop little internet_sum full behind_1 2 7 (replicate 3 timeout ++ [])
        ≡ returns done
            (record behind_1 {
              sent =
                  behind_1.sent
                  ++ replicate 3 (record {
                    target = behind_1.client_addr;
                    bytes = wire little internet_sum s 18 (chunk_of 2 small_file s);
                  });
            })
            [])
send_loop_silent_example =
    send_loop_silent little internet_sum 2 small_file (omega arith) 1 1 behind_1 7 2 []
      (omega arith) behind_1-Sending refl refl

pub no_files : List ℕ → Option (List ℕ)
no_files name = none

-- A request that is too short.
abbrev pub bad_request : Received
bad_request = record { buffer = small_array; bytes_recv = 5; source = 7 }

is_eof_ack-wire_example :
    is_eof_ack little internet_sum at_end
      (recv_from max_buf (arrives (wire little internet_sum 3 35 [])))
    ≡ ((3 == 3)
        && (htons little (internet_sum (summed little internet_sum 3 35 []))
            == internet_sum (summed little internet_sum 3 35 [])))
is_eof_ack-wire_example =
    is_eof_ack-wire little internet_sum at_end 3 7 small_array (omega arith) (omega arith)
      (omega arith)

-- The window of one packet is full behind the packet 1; an SREJ for it is answered, an RR opens the
-- window for the packet 2, and the next RR leads to the EOF.
abbrev pub acks : List Event
acks =
    timeout
    ∷ ready (arrives (0 ∷ 0 ∷ 0 ∷ 1 ∷ 249 ∷ 255 ∷ 6 ∷ []))
    ∷ ready (arrives rr_2)
    ∷ timeout
    ∷ ready (arrives (0 ∷ 0 ∷ 0 ∷ 3 ∷ 247 ∷ 255 ∷ 5 ∷ []))
    ∷ []

pub acks-Answerable :
    OnNext little internet_sum
      (λ p d s. Answerable little internet_sum p d s acks)
      1
      (fill little internet_sum (start_sending before_1) 1)
unfolding Answerable fill init insert create_pdu memcpy stack_array receive_ack flag_of seq_num get
    remove resend_first keep_and_send store16 entry_payload
acks-Answerable =
    ((λ h. (_, refl)), ((λ h. absurd (ground arith)), ((λ h. absurd (ground arith)), tt)))
