-- ===== src/Server/Zombies.antt =====
-- Workspace/server.c: `handleZombies`, the handler of SIGCHLD.
use native.Mathlib.Decide.{dec_lt}
use remote_file_copy_udp_pro.Base.{
  ℕ, zero, suc, ◌+◌, ◌<◌, ◌≡◌, refl, sym, ap, ◌∙◌, Bool, true, false, ℤ, pos, negsuc, Option, none,
  some, List, [], ◌∷◌, get_elem?, without, count_if, ltb, lt→ltb, arith, if◌then◌else◌, Bool-cases,
  inl, inr,
}

-- A child of the server, as the system keeps it until its parent has waited for it.
pub record ChildProcess : Type 0 where
  pub pid : ℕ
  pub ended : Bool

-- A process number that is returned.
abbrev pub is_positive : ℤ → Bool
is_positive (pos n) = ltb 0 n
is_positive (negsuc n) = false

-- `handleZombies`: `waitpid` answers what `waitpid(-1, NULL, WNOHANG)` returns, and the children that
-- are left. `none` stands for more than `fuel` calls.
unfoldable pub handle_zombies :
    (waitpid : List ChildProcess → ℤ × List ChildProcess)
    → ℕ
    → List ChildProcess
    → Option (List ChildProcess)
handle_zombies waitpid zero children = none
handle_zombies waitpid (suc fuel) children =
    let (pid, left) = waitpid children in
    let again = handle_zombies waitpid fuel left in if is_positive pid then again else some left

-- The children that still run, in their order.
abbrev pub running : List ChildProcess → List ChildProcess
running [] = []
running (p ∷ children) = if p.ended then running children else p ∷ running children

-- The children that have ended.
abbrev pub zombies : List ChildProcess → ℕ
zombies children = count_if (λ (p : ChildProcess). p.ended) children

-- ChildProcess numbers are positive.
abbrev pub AllPositive : List ChildProcess → Type 0
AllPositive [] = Unit
AllPositive (p ∷ children) = (0 < p.pid) × AllPositive children

-- What the system documents: while a child has ended, some such child is taken off the table and its
-- number is returned; while none has, the result is 0, or -1 if there is no child.
pub record IsWaitpid (waitpid : List ChildProcess → ℤ × List ChildProcess) : Type 0 where
  pub reaps :
      (children : List ChildProcess)
      → 0 < zombies children
      → (i : ℕ) × (p : ChildProcess) × (get_elem? children i ≡ some p)
        × (p.ended ≡ true)
        × (waitpid children ≡ (pos p.pid, without i children))
  pub nothing :
      (children : List ChildProcess)
      → zombies children ≡ 0
      → (n : ℤ) × (waitpid children ≡ (n, children)) × (is_positive n ≡ false)

-- Without one that has ended.
running-without :
    (children : List ChildProcess) (i : ℕ) (p : ChildProcess)
    → get_elem? children i ≡ some p
    → p.ended ≡ true
    → (running (without i children) ≡ running children)
      × (zombies (without i children) + 1 ≡ zombies children)
running-without [] i p at ended = absurd (cc at)
running-without (q ∷ children) zero p at ended =
    let same : q.ended ≡ true = ground (arith, at, ended) in rw same (refl, omega arith)
running-without (q ∷ children) (suc i) p at ended =
    let (left, fewer) = running-without children i p at ended in
    elim (Bool-cases q.ended) [
      | inl zombie ↦ rw zombie (left, omega (arith, fewer))
      | inr runs ↦
          let same : ChildProcess = record { pid = q.pid; ended = false } in
          rw runs (ap (λ xs. same ∷ xs) left, omega (arith, fewer))
    ]

AllPositive-without :
    (children : List ChildProcess) (i : ℕ) → AllPositive children → AllPositive (without i children)
AllPositive-without [] i all = tt
AllPositive-without (p ∷ children) zero all = all.1
AllPositive-without (p ∷ children) (suc i) all = (all.0, AllPositive-without children i all.1)

AllPositive-get :
    (children : List ChildProcess) (i : ℕ) (p : ChildProcess)
    → get_elem? children i ≡ some p
    → AllPositive children
    → 0 < p.pid
AllPositive-get [] i p at all = absurd (cc at)
AllPositive-get (q ∷ children) zero p at all = ground (arith, at, all.0)
AllPositive-get (q ∷ children) (suc i) p at all = AllPositive-get children i p at all.1

running-all : (children : List ChildProcess) → zombies children ≡ 0 → running children ≡ children
running-all [] none_ended = refl
running-all (p ∷ children) none_ended = elim (Bool-cases p.ended) [
  | inl zombie ↦ absurd (omega (arith, rw zombie at none_ended))
  | inr runs ↦
      let same : ChildProcess = record { pid = p.pid; ended = false } in
      rw runs (ap (λ xs. same ∷ xs) (running-all children (omega (arith, rw runs at none_ended))))
]

-- Where `waitpid` takes off the table some child that has ended while there is one, and else
-- answers no positive number, and process numbers are positive: one run of `handleZombies`, with
-- one call more than there are children that have ended, leaves just the children that still run,
-- in their order.
pub handle_zombies-running :
    (waitpid : List ChildProcess → ℤ × List ChildProcess) (fuel : ℕ) (children : List ChildProcess)
    → IsWaitpid waitpid
    → AllPositive children
    → zombies children < fuel
    → handle_zombies waitpid fuel children ≡ some (running children)
unfolding handle_zombies
handle_zombies-running waitpid zero children w all lt = absurd (omega (arith, lt))
handle_zombies-running waitpid (suc fuel) children w all lt = elim (dec_lt 0 (zombies children)) [
  | yes more ↦
      let (i, p, at, ended, eq) = w.reaps children more in
      let (left, fewer) = running-without children i p at ended in
      let positive = lt→ltb 0 p.pid (AllPositive-get children i p at all) in
      rw (eq, positive)
        (handle_zombies-running waitpid fuel (without i children) w
            (AllPositive-without children i all) (omega (arith, fewer, lt))
          ∙ ap some left)
  | no none_left ↦
      let (n, eq, stop) = w.nothing children (omega arith) in
      rw (eq, stop) (ap some (sym (running-all children (omega arith))))
]
