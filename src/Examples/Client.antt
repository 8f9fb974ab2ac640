-- ===== src/Examples/Client.antt =====
-- Examples for the client: `rcopy a b 2 2 0 h 7`, in a process with three open descriptors.
use remote_file_copy_udp_pro.Base.{
  pos, to_u16, ℕ, suc, ◌+◌, ◌≤◌, ◌<◌, ◌≡◌, length, length-replicate, u16_mod, htons, refl, some,
  List, [], ◌∷◌, ◌++◌, replicate, memcpy, store16, arith, Endian, little, big, ltb,
}
use remote_file_copy_udp_pro.Client.{
  Run, transfers, waiting, Argv, argv_of, Process, main, check_args, attempts, goes, done,
  state_loop, wait_on_file_ok, request, first_process, World,
}
use remote_file_copy_udp_pro.Client.Connected.{IsConnected, main-IsConnected, main-IsPrefix}
use remote_file_copy_udp_pro.Client.Retries.{
  server, attempts-times_out, state_loop-refused, all_ready,
}
use remote_file_copy_udp_pro.Client.Sockets.{Steady}
use remote_file_copy_udp_pro.Address.{SockAddr}
use remote_file_copy_udp_pro.Examples.Data.{internet_sum, small_file, arrives}
use remote_file_copy_udp_pro.Examples.Opening.{disk}
use remote_file_copy_udp_pro.Examples.Window.{empty_window}
use remote_file_copy_udp_pro.Server.{Child, c_string}
use remote_file_copy_udp_pro.System.{Both, second, deliver, take_ack, begin, run}
use remote_file_copy_udp_pro.System.Lossless.{Copied}
use remote_file_copy_udp_pro.System.Session.{Joined, session-Copied, session-WritesPrefix}
use remote_file_copy_udp_pro.System.Safety.{WritesPrefix}
use remote_file_copy_udp_pro.System.Turns.{lossless}
use remote_file_copy_udp_pro.Examples.Receiver.{chunk, arrivals, arrivals-FromFile}
use remote_file_copy_udp_pro.Examples.System.{
  poll-IsPoll, socket-IsLowest, socket-HasRoom, small_world, small_args, any_rate, three_open,
}
use remote_file_copy_udp_pro.Net.{Event, timeout, ready, Arrival}
use remote_file_copy_udp_pro.Pdu.Wire.{wire}
use remote_file_copy_udp_pro.Pdu.{flag_of, max_buf}
use remote_file_copy_udp_pro.Poll.{add_to_poll_set, setup_poll_set, poll_call}
use remote_file_copy_udp_pro.Receiver.{
  TransferOutcome, in_order, new_info, process_transfer_state, wait_on_data_state,
}
use remote_file_copy_udp_pro.Receiver.Prefix.{IsPrefix}

-- The first request gets no answer, the second one an acceptance; then the file comes.
abbrev answered : List Event
answered = timeout ∷ ready (arrives (wire little internet_sum 0 9 (97 ∷ []))) ∷ arrivals

accepted_args : check_args small_world.atoi any_rate small_args ≡ some (pos 7)
unfolding check_args
accepted_args = refl

main-IsConnected_example :
    IsConnected small_world 7
      (argv_of small_args)
      (main small_world any_rate 9 small_args 7 three_open answered)
main-IsConnected_example =
    main-IsConnected small_world any_rate poll-IsPoll socket-IsLowest 7 9 small_args three_open
      answered (pos 7) (omega arith) accepted_args

abbrev small_run : Run
small_run = main small_world any_rate 9 small_args 7 three_open answered

-- The process of a run that has come to a transfer.
abbrev process_of : Run → Process
process_of (transfers s p es t) = p
process_of _ = first_process three_open

-- What the client comes to with the packets of the file.
abbrev received : TransferOutcome
received = process_transfer_state little internet_sum in_order (new_info 2 4 7) arrivals

run_transfers : small_run ≡ transfers 4 (process_of small_run) arrivals received
unfolding main add_to_poll_set setup_poll_set poll_call flag_of memcpy store16 wait_on_data_state
run_transfers = refl

main-IsPrefix_example : IsPrefix little internet_sum chunk 2 received
main-IsPrefix_example =
    main-IsPrefix small_world any_rate poll-IsPoll socket-IsLowest 7 9 small_args three_open
      answered arrivals (pos 7) 4 (process_of small_run) received chunk 2 (omega arith)
      accepted_args run_transfers (omega arith) arrivals-FromFile

-- The process at `wait_on_file_ok_state`: its socket is the descriptor 4, and 5 that of `start_state`.
abbrev opened_4 : Process
opened_4 = first_process (λ n. ltb n 6)

opened_4-Steady : Steady 4 opened_4
opened_4-Steady = record { held = λ j lt. ground (arith, lt); low = omega arith }

abbrev argv : Argv
argv = argv_of small_args

abbrev host : List ℕ
host = replicate 15 0 ++ (1 ∷ [])

abbrev to_server : SockAddr
to_server =
    server small_world argv (pos 7) 4 host poll-IsPoll (socket-HasRoom 4 (omega arith))
      (omega arith) refl

attempts-times_out_example :
    (p' : Process) × (attempts small_world argv 10 (pos 7) 4 opened_4 (replicate 10 timeout ++ [])
      ≡ goes done p' [])
    × (p'.posted ≡ [] ++ replicate 10 (request small_world argv 4 to_server))
attempts-times_out_example =
    attempts-times_out small_world argv (pos 7) 4 host poll-IsPoll (socket-HasRoom 4 (omega arith))
      (omega arith) refl 10 opened_4 [] opened_4-Steady

-- Three times the error with flag 33, which the server sends for a file that is missing.
abbrev refusals : List Arrival
refusals = let a = arrives (wire little internet_sum 0 33 (97 ∷ [])) in a ∷ a ∷ a ∷ []

state_loop-refused_example :
    (p' : Process) × (state_loop small_world any_rate 4 argv
        (pos 7)
        4
        7
        wait_on_file_ok
        opened_4
        (all_ready refusals)
      ≡ waiting p')
    × (p'.posted ≡ [] ++ replicate 4 (request small_world argv 4 to_server))
unfolding flag_of memcpy store16
state_loop-refused_example =
    state_loop-refused small_world argv (pos 7) 4 host poll-IsPoll (socket-HasRoom 4 (omega arith))
      (omega arith) refl any_rate 7 4 refusals opened_4 (omega arith) (refl, (refl, (refl, tt)))
      opened_4-Steady

internet_sum-short : (bytes : List ℕ) → internet_sum bytes < u16_mod
internet_sum-short bytes = ground arith

abbrev long_array : List ℕ
long_array = replicate (max_buf + 7) 9

long_array-room : max_buf + 7 ≤ length long_array
long_array-room = omega (arith, length-replicate {A = ℕ} (max_buf + 7) 9)

-- The child has the address 7, the client the address 5.
abbrev Joins : Endian → Process → Child → Type 0
Joins e =
    Joined (record small_world { endian = e }) argv (pos 7) 4 host poll-IsPoll
      (socket-HasRoom 4 (omega arith)) (omega arith) refl small_file disk 6 20 5 7 opened_4
      empty_window (replicate max_buf 9) long_array [] []

-- On the little-endian host the child takes both sizes as 512, the client its window as 2.
session-Copied_example :
    (p' : Process) × (c : Child) × (st : Both) × (n : ℕ) × (st' : Both) × Joins little p' c
    × (begin little internet_sum c (new_info 2 4 7) ≡ some st)
    × (run little internet_sum (lossless n 1 7 long_array) st ≡ some st')
    × Copied little internet_sum small_file (suc n) st'
    × (n ≤ length small_file)
unfolding c_string htons to_u16
session-Copied_example =
    session-Copied small_world argv (pos 7) 4 host poll-IsPoll (socket-HasRoom 4 (omega arith))
      (omega arith) refl small_file disk 6 20 5 7 opened_4 empty_window (replicate max_buf 9)
      long_array [] [] 9 opened_4-Steady refl (omega arith) refl refl
      (length-replicate {A = ℕ} max_buf 9) long_array-room 7 512 (omega arith) (omega arith)
      (omega arith) refl (omega arith) internet_sum-short

-- On a big-endian host both take both sizes as 2. The first packet is lost, and the second one asks for
-- it with an SREJ.
abbrev big_world : World
big_world = record small_world { endian = big }

session-WritesPrefix_example :
    (p' : Process) × (c : Child) × (st : Both) × (st' : Both) × Joins big p' c
    × (begin big internet_sum c (new_info 2 4 7) ≡ some st)
    × (run big internet_sum (second ∷ deliver 2 7 long_array ∷ take_ack 5 long_array ∷ []) st
        ≡ some st')
    × WritesPrefix 2 small_file st'.receiver
unfolding c_string htons to_u16
session-WritesPrefix_example =
    session-WritesPrefix big_world argv (pos 7) 4 host poll-IsPoll (socket-HasRoom 4 (omega arith))
      (omega arith) refl small_file disk 6 20 5 7 opened_4 empty_window (replicate max_buf 9)
      long_array [] [] 9 opened_4-Steady refl (omega arith) refl refl
      (length-replicate {A = ℕ} max_buf 9) long_array-room 7 2 (omega arith) (omega arith)
      (omega arith) refl (omega arith)
      (second ∷ deliver 2 7 long_array ∷ take_ack 5 long_array ∷ []) (omega arith)
      (tt, (long_array-room, (omega (arith, long_array-room), tt)))
