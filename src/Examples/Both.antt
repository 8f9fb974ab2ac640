-- ===== src/Examples/Both.antt =====
-- Examples for both ends: the server's window has one packet, the client's two.
use remote_file_copy_udp_pro.Base.{
  ℕ, ◌+◌, ◌≤◌, ◌≡◌, refl, some, List, [], ◌∷◌, length, length-replicate, replicate, arith, little,
}
use remote_file_copy_udp_pro.Examples.Data.{internet_sum, small_file, small_array}
use remote_file_copy_udp_pro.Examples.Sender.{before_1}
use remote_file_copy_udp_pro.Pdu.{max_buf}
use remote_file_copy_udp_pro.Receiver.{new_info}
use remote_file_copy_udp_pro.Server.Log.{AllSent}
use remote_file_copy_udp_pro.System.{Both, Action, second, take_ack, lose_ack, deliver, begin, run}
use remote_file_copy_udp_pro.System.Safety.{transfer-WritesPrefix, WritesPrefix}

abbrev array : List ℕ
array = replicate (max_buf + 7) 9

-- The first packet comes twice, and is acknowledged once; the RR opens the window for the second one,
-- whose RR is lost.
abbrev actions : List Action
actions =
    second
    ∷ deliver 0 7 array
    ∷ deliver 0 7 array
    ∷ take_ack 5 small_array
    ∷ deliver 1 7 array
    ∷ lose_ack 0
    ∷ second
    ∷ []

array-long : max_buf + 7 ≤ length array
array-long = omega (arith, length-replicate {A = ℕ} (max_buf + 7) 9)

transfer-WritesPrefix_example :
    (s : Both) × (s' : Both) × (begin little internet_sum before_1 (new_info 2 4 7) ≡ some s)
    × (run little internet_sum actions s ≡ some s')
    × WritesPrefix 2 small_file s'.receiver
unfolding AllSent
transfer-WritesPrefix_example =
    transfer-WritesPrefix little internet_sum 2 small_file 2 (omega arith) (omega arith)
      (omega arith) before_1 4 7 actions refl refl (omega arith) (omega arith) (omega arith) tt
      (tt, (array-long, (array-long, (omega arith, (array-long, (tt, (tt, tt)))))))
