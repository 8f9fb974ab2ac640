-- ===== src/Client/Defs.antt =====
-- Workspace/rcopy.c: the state of the client before the transfer, and what it uses of the system.
use remote_file_copy_udp_pro.Base.{
  ℤ, pos, negsuc, ℕ, ◌^◌, ◌<◌, ◌≤◌, ◌≡◌, arith, Bool, true, false, Option, none, some, List, [],
  ◌∷◌, ◌++◌, length, get_or, ltb, ◌==◌, if◌then◌else◌,
}
use remote_file_copy_udp_pro.Address.{SockAddr}
use remote_file_copy_udp_pro.Net.{Sent}
use remote_file_copy_udp_pro.Poll.{PollSet}

-- `enum State`.
pub data ClientState : Type 0 where
  start done wait_on_file_ok wait_on_data process_transfer send_eof_ack : ClientState

-- The arguments behind the program's name.
pub record Argv : Type 0 where
  pub from_filename : List ℕ
  pub to_filename : List ℕ
  pub window_size : List ℕ
  pub buffer_size : List ℕ
  pub error_rate : List ℕ
  pub host_name : List ℕ
  pub port_number : List ℕ

-- `argv[1]` to `argv[7]`.
abbrev pub argv_of : List (List ℕ) → Argv
argv_of args = record {
  from_filename = get_or args 1 [];
  to_filename = get_or args 2 [];
  window_size = get_or args 3 [];
  buffer_size = get_or args 4 [];
  error_rate = get_or args 5 [];
  host_name = get_or args 6 [];
  port_number = get_or args 7 [];
}

-- The window sizes that are let through.
abbrev pub is_window : ℤ → Bool
is_window (pos n) = if n == 0 then false else ltb n (2 ^ 30)
is_window (negsuc n) = false

-- `checkArgs`: the port number, or `none` for its `exit`. What `atof` makes of the error rate is only
-- compared with 0 and 1.
unfoldable pub check_args : (List ℕ → ℤ) → (List ℕ → Bool) → List (List ℕ) → Option ℤ
check_args atoi is_rate args =
    if length args == 8
    then if ltb 100 (length (argv_of args).from_filename)
      then none
      else if is_window (atoi (argv_of args).window_size)
      then if is_rate (argv_of args).error_rate
        then some (atoi (argv_of args).port_number)
        else none
      else none
    else none

-- `info.windowSize = atoi(argv[3])`.
abbrev pub window_of : ℤ → ℕ
window_of (pos n) = n
window_of (negsuc n) = 0

is_window-window_of : (n : ℤ) → is_window n ≡ true → (0 < window_of n) × (window_of n < 2 ^ 30)
is_window-window_of (pos n) e = (ground arith, ground arith)
is_window-window_of (negsuc n) e = absurd (ground arith)

-- The window size of the arguments that are let through, and the length of the name.
pub check_args-window :
    (atoi : List ℕ → ℤ) (is_rate : List ℕ → Bool) (args : List (List ℕ)) (port_number : ℤ)
    → check_args atoi is_rate args ≡ some port_number
    → (0 < window_of (atoi (argv_of args).window_size))
      × (window_of (atoi (argv_of args).window_size) < 2 ^ 30)
      × (length (argv_of args).from_filename ≤ 100)
unfolding check_args
check_args-window atoi is_rate args port_number e =
    let window : is_window (atoi (argv_of args).window_size) ≡ true = ground (arith, e) in
    let (low, high) = is_window-window_of (atoi (argv_of args).window_size) window in
    (low, high, ground (arith, e))

-- A datagram, with the socket that it is sent on.
pub record Posted : Type 0 where
  pub socket : ℕ
  pub message : Sent

-- The process: which file descriptors are open, the variables of pollLib.c, the address in `server`,
-- and what has been handed to `sendtoErr`.
pub record Process : Type 0 where
  pub descriptors : ℕ → Bool
  pub poll_set : PollSet
  pub server : SockAddr
  pub posted : List Posted

-- A system call that opens a descriptor, and `close`, which fails on one that is not open.
abbrev pub open_descriptor : ℕ → Process → Process
open_descriptor s p = record p { descriptors = λ n. if n == s then true else p.descriptors n }

abbrev pub close : ℕ → Process → Process
close s p = record p { descriptors = λ n. if n == s then false else p.descriptors n }

abbrev pub post : Posted → Process → Process
post x p = record p { posted = p.posted ++ (x ∷ []) }

-- What the client relies on of `socket`: a new descriptor is the lowest that is not open.
pub record IsLowest (socket : (ℕ → Bool) → Option ℕ) : Type 0 where
  pub unused : (d : ℕ → Bool) (s : ℕ) → socket d ≡ some s → d s ≡ false
  pub lowest : (d : ℕ → Bool) (s j : ℕ) → socket d ≡ some s → j < s → d j ≡ true
