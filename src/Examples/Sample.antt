-- ===== src/Examples/Sample.antt =====
-- Examples for the sample programs, and for the children that a server waits for.
use remote_file_copy_udp_pro.Address.{Family, SockAddr, af_inet6}
use remote_file_copy_udp_pro.Base.{
  ℕ, zero, suc, ◌+◌, ◌≤◌, ◌<◌, ◌≡◌, refl, true, false, ℤ, pos, negsuc, some, List, [], ◌∷◌, ◌++◌,
  length, length-replicate, get_elem?, without, replicate, take, big, htons, arith, if◌then◌else◌,
  Bool-cases, inl, inr,
}
use remote_file_copy_udp_pro.Output.{
  server_port_number, client_accepted, connected_to, enter_data, read, amount_sent,
  message_received,
}
use remote_file_copy_udp_pro.Sample.{faults, returns, max_buf}
use remote_file_copy_udp_pro.Sample.Client
use remote_file_copy_udp_pro.Sample.Client.{read_from_stdin}
use remote_file_copy_udp_pro.Sample.Line.{line_of, read_from_stdin-line}
use remote_file_copy_udp_pro.Sample.Overrun.{NoNul, recv_from_client-NoNul}
use remote_file_copy_udp_pro.Sample.Server
use remote_file_copy_udp_pro.Sample.Server.{recv_from_client}
use remote_file_copy_udp_pro.Sample.Session.{sent_of, line-printed}
use remote_file_copy_udp_pro.Server.{c_string}
use remote_file_copy_udp_pro.Server.Zombies.{
  ChildProcess, is_positive, running, zombies, IsWaitpid, handle_zombies, handle_zombies-running,
}

-- The array of the programs, and the input `hi`.
abbrev stack : List ℕ
stack = replicate max_buf 9

stack-sized : length stack ≡ max_buf
stack-sized = length-replicate {A = ℕ} max_buf 9

abbrev hi : List ℕ
hi = 104 ∷ 105 ∷ 10 ∷ []

read_from_stdin-line_example :
    let (typed, input_len) = read_from_stdin stack hi in
    (take input_len typed ≡ line_of hi ++ (0 ∷ []))
    × (input_len ≡ length (line_of hi) + 1)
    × (input_len ≤ max_buf)
    × (length typed ≡ max_buf)
read_from_stdin-line_example = read_from_stdin-line stack hi stack-sized

-- A message of 1024 bytes.
abbrev full_message : List ℕ
full_message = replicate max_buf 65

replicate-NoNul : (n : ℕ) → NoNul (replicate n 65)
replicate-NoNul zero = tt
replicate-NoNul (suc n) = (omega arith, replicate-NoNul n)

recv_from_client-NoNul_example : recv_from_client (λ s n. some full_message) stack 5 [] ≡ faults
recv_from_client-NoNul_example =
    recv_from_client-NoNul (λ s n. some full_message) stack full_message 5 [] stack-sized
      (length-replicate {A = ℕ} max_buf 65) (replicate-NoNul max_buf) refl

-- Two hosts, and an address as its own text.
abbrev server_address : SockAddr
server_address = record { family = some af_inet6; port = 5000; address = 1 ∷ [] }

abbrev client_address : SockAddr
client_address = record { family = some af_inet6; port = 6000; address = 2 ∷ [] }

abbrev text_of : Family → List ℕ → List ℕ
text_of family bytes = bytes

line-printed_example :
    let text = c_string (line_of hi) in
    let len = length (line_of hi) + 1 in
    (Client.main text_of
        (λ host hints. some (1 ∷ []))
        (λ s a. true)
        (λ bytes. pos 5000)
        (λ s bytes. some (length bytes))
        big
        (some 3)
        ((99 ∷ []) ∷ (104 ∷ []) ∷ (53 ∷ []) ∷ [])
        stack
        hi
      ≡ returns (
          connected_to (104 ∷ []) (text_of af_inet6 (take 16 (1 ∷ []))) (pos (htons big 5000))
          ∷ enter_data
          ∷ read text len
          ∷ amount_sent (length (sent_of hi))
          ∷ []))
    × (Server.main text_of
          (λ s a. true)
          (λ s. some server_address)
          (λ s. true)
          (λ s. some (5, client_address))
          (λ bytes. pos 5000)
          (λ s n. some (sent_of hi))
          big
          (some 4)
          ((115 ∷ []) ∷ [])
          stack
        ≡ returns (
            server_port_number (htons big server_address.port)
            ∷ client_accepted
                (text_of af_inet6 client_address.address)
                (htons big client_address.port)
            ∷ message_received len text
            ∷ []))
unfolding htons
line-printed_example =
    line-printed text_of big hi stack stack stack-sized stack-sized (λ host hints. some (1 ∷ []))
      (λ s a. true) (λ bytes. pos 5000) (λ s bytes. some (length bytes)) (λ s a. true)
      (λ s. some server_address) (λ s. true) (λ s. some (5, client_address))
      (λ s n. some (sent_of hi)) (99 ∷ []) (115 ∷ []) (104 ∷ []) (53 ∷ []) (1 ∷ []) 4 5 3
      (length (sent_of hi)) server_address client_address refl refl (omega arith) refl refl refl
      refl refl refl refl

-- A system that takes the first child that has ended.
abbrev or_zero : ℤ → ℤ
or_zero (pos n) = pos n
or_zero (negsuc n) = pos 0

abbrev wait_first : List ChildProcess → ℤ × List ChildProcess
wait_first [] = (negsuc 0, [])
wait_first (p ∷ children) =
    if p.ended
    then (pos p.pid, children)
    else (or_zero (wait_first children).0, p ∷ (wait_first children).1)

wait_first-reaps :
    (children : List ChildProcess)
    → 0 < zombies children
    → (i : ℕ) × (p : ChildProcess) × (get_elem? children i ≡ some p)
      × (p.ended ≡ true)
      × (wait_first children ≡ (pos p.pid, without i children))
wait_first-reaps [] more = absurd (omega (arith, more))
wait_first-reaps (q ∷ children) more = elim (Bool-cases q.ended) [
  | inl zombie ↦ (0, q, refl, zombie, rw zombie refl)
  | inr runs ↦
      let (i, p, at, ended, eq) = wait_first-reaps children (omega (arith, rw runs at more)) in
      (suc i, p, at, ended, ground (arith, runs, eq))
]

wait_first-nothing :
    (children : List ChildProcess)
    → zombies children ≡ 0
    → (n : ℤ) × (wait_first children ≡ (n, children)) × (is_positive n ≡ false)
wait_first-nothing [] none_ended = (negsuc 0, refl, refl)
wait_first-nothing (q ∷ children) none_ended = elim (Bool-cases q.ended) [
  | inl zombie ↦ absurd (omega (arith, rw zombie at none_ended))
  | inr runs ↦
      let (n, eq, stop) = wait_first-nothing children (omega (arith, rw runs at none_ended)) in
      (or_zero n, ground (arith, runs, eq), ground (arith, stop))
]

wait_first-IsWaitpid : IsWaitpid wait_first
wait_first-IsWaitpid = record { reaps = wait_first-reaps; nothing = wait_first-nothing }

abbrev children : List ChildProcess
children =
    record { pid = 7; ended = true }
    ∷ record { pid = 8; ended = false }
    ∷ record { pid = 9; ended = true }
    ∷ []

handle_zombies-running_example : handle_zombies wait_first 3 children ≡ some (running children)
handle_zombies-running_example =
    handle_zombies-running wait_first 3 children wait_first-IsWaitpid
      (omega arith, (omega arith, (omega arith, tt))) (omega arith)
