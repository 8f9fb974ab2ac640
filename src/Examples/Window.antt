-- ===== src/Examples/Window.antt =====
-- Examples for the sliding window: a window of one packet over a file of three bytes.
use remote_file_copy_udp_pro.Base.{
  ℕ, ◌+◌, ◌≡◌, refl, subst, true, some, List, [], ◌∷◌, arith, little,
}
use remote_file_copy_udp_pro.CircularQueue.{CircularQueue, ok, zero_entry, init, insert}
use remote_file_copy_udp_pro.CircularQueue.Cases.{filled}
use remote_file_copy_udp_pro.CircularQueue.Window.{Holds, init-Holds, insert-Holds}
use remote_file_copy_udp_pro.Examples.Data.{internet_sum, small_file}
use remote_file_copy_udp_pro.Server.Chunks.{content}

-- The PDUs of the file in chunks of two bytes.
abbrev pub pdu_of : ℕ → List ℕ
pdu_of = content little internet_sum 2 small_file

abbrev pub empty_window : CircularQueue
empty_window = record { entries = zero_entry ∷ []; window_size = 1; valid_count = 0 }

abbrev pub window_of_1 : CircularQueue
window_of_1 = record { entries = filled 1 (pdu_of 1) ∷ []; window_size = 1; valid_count = 1 }

pub empty_window-Holds : Holds pdu_of empty_window 1 1
unfolding init
empty_window-Holds = init-Holds pdu_of empty_window 1 1 (omega arith)

insert_1 : insert true empty_window 1 (pdu_of 1) ≡ some (ok, window_of_1)
unfolding insert
insert_1 = refl

pub window_of_1-Holds : Holds pdu_of window_of_1 1 2
window_of_1-Holds =
    let (q', e, h, _) = insert-Holds pdu_of empty_window 1 1 empty_window-Holds (omega arith) in
    let same : q' ≡ window_of_1 = cc (e, insert_1) in subst (λ q. Holds pdu_of q 1 2) same h

insert-Holds_example :
    (q' : CircularQueue) × (insert true empty_window 1 (pdu_of 1) ≡ some (ok, q'))
    × Holds pdu_of q' 1 (1 + 1)
    × (q'.window_size ≡ empty_window.window_size)
insert-Holds_example = insert-Holds pdu_of empty_window 1 1 empty_window-Holds (omega arith)
