-- ===== src/Examples/Poll.antt =====
-- Examples for the table of descriptors.
use remote_file_copy_udp_pro.Base.{
  ℕ, ◌≤◌, ◌<◌, ◌≡◌, ◌↔◌, refl, true, some, List, [], ◌∷◌, arith, ◌==◌,
}
use remote_file_copy_udp_pro.Examples.Data.{arrives}
use remote_file_copy_udp_pro.Examples.System.{poll, poll-IsPoll}
use remote_file_copy_udp_pro.Net.{ready}
use remote_file_copy_udp_pro.Poll.{
  PollFd, PollSet, changed, answers, faults, no_poll_set, setup_poll_set, add_to_poll_set,
  poll_call,
}
use remote_file_copy_udp_pro.Poll.Call.{table_size, setup_add-poll_call}
use remote_file_copy_udp_pro.Poll.Refine.{
  Op, setup, add, remove, calls, on_sets, IsLegal, calls-refines,
}
use remote_file_copy_udp_pro.Poll.Socket.{setup_add-answers}
use remote_file_copy_udp_pro.Poll.Table.{IsTable, watches}

abbrev stale : PollFd
stale = record { fd = 77; events = true }

-- A table that grows, and loses a socket.
abbrev ops : List Op
ops = setup ∷ add 4 ∷ add 12 ∷ remove 4 ∷ []

-- A process that has had many descriptors.
abbrev crowded : PollSet
crowded = record no_poll_set { max_file_descriptor = 40 }

setup_add-poll_call_example :
    (s' : PollSet) × (add_to_poll_set stale (setup_poll_set crowded) 4 ≡ changed s')
    × ((n : ℕ) → watches s' n ≡ (n == 4))
    × ((poll_call (poll 4 (ready (arrives []))) s' ≡ faults) ↔ (table_size 4 < 40))
setup_add-poll_call_example = setup_add-poll_call stale (poll 4 (ready (arrives []))) crowded 4

setup_add-answers_example :
    (s' : PollSet) × (add_to_poll_set stale (setup_poll_set no_poll_set) 4 ≡ changed s')
    × (s'.max_file_descriptor ≤ table_size 4)
    × (poll_call (poll 4 (ready (arrives []))) s' ≡ answers (some 4))
setup_add-answers_example =
    setup_add-answers poll poll-IsPoll stale no_poll_set 4 (ready (arrives [])) (omega arith)

no_poll_set-IsTable : IsTable no_poll_set
no_poll_set-IsTable = record { sized = refl; below = λ n entered. absurd (ground (arith, entered)) }

calls-refines_example :
    (s' : PollSet) × (calls stale ops no_poll_set ≡ changed s')
    × IsTable s'
    × ((n : ℕ) → watches s' n ≡ on_sets ops (watches no_poll_set) n)
unfolding IsLegal
calls-refines_example = calls-refines stale ops no_poll_set no_poll_set-IsTable (refl, tt)
