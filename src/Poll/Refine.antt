-- ===== src/Poll/Refine.antt =====
-- Workspace/pollLib.c: sequences of calls, against a plain set of sockets.
use remote_file_copy_udp_pro.Base.{
  ℕ, ◌≡◌, refl, ◌∙◌, ap, Bool, true, false, List, [], ◌∷◌, arith, ◌==◌, if◌then◌else◌,
  length-replicate,
}
use remote_file_copy_udp_pro.Poll.Defs.{
  PollFd, PollSet, Polled, changed, answers, exits, faults, setup_poll_set, add_to_poll_set,
  remove_from_poll_set, poll_set_size, zero_fd,
}
use remote_file_copy_udp_pro.Poll.Table.{
  IsTable, watches, watches-enters, asks-zero, add-watches, remove-watches,
}

-- The calls of a program.
pub data Op : Type 0 where
  setup : Op
  add : ℕ → Op
  remove : ℕ → Op

-- A call on the table, and on a set of sockets.
abbrev pub call : PollFd → Op → PollSet → Polled
call stale setup s = changed (setup_poll_set s)
call stale (add n) s = add_to_poll_set stale s n
call stale (remove n) s = remove_from_poll_set s n

abbrev pub on_set : Op → (ℕ → Bool) → ℕ → Bool
on_set setup set n = false
on_set (add i) set n = if n == i then true else set n
on_set (remove i) set n = if n == i then false else set n

-- Calls one behind the other, up to the first that does not change the table.
unfoldable pub calls : PollFd → List Op → PollSet → Polled
calls stale [] s = changed s
calls stale (op ∷ ops) s = elim (call stale op s) [
  | changed s' ↦ calls stale ops s'
  | answers a ↦ answers a
  | exits ↦ exits
  | faults ↦ faults
]

unfoldable pub on_sets : List Op → (ℕ → Bool) → ℕ → Bool
on_sets [] set = set
on_sets (op ∷ ops) set = on_sets ops (on_set op set)

-- A socket is only removed while it is in the set.
unfoldable pub IsLegal : List Op → (ℕ → Bool) → Type 0
IsLegal [] set = Unit
IsLegal (remove i ∷ ops) set = (set i ≡ true) × IsLegal ops (on_set (remove i) set)
IsLegal (op ∷ ops) set = IsLegal ops (on_set op set)

pub setup-watches :
    (s : PollSet) → IsTable (setup_poll_set s) × ((n : ℕ) → watches (setup_poll_set s) n ≡ false)
unfolding setup_poll_set
setup-watches s =
    let table : IsTable (setup_poll_set s) = record {
      sized = length-replicate poll_set_size zero_fd;
      below = λ n entered. absurd (ground (arith, asks-zero n poll_set_size n, entered));
    } in
    (table, λ n. watches-enters (setup_poll_set s) n table ∙ asks-zero n poll_set_size n)

module _ (stale : PollFd) where
  calls-set :
      (ops : List Op) (s : PollSet) (set : ℕ → Bool)
      → IsTable s
      → ((n : ℕ) → watches s n ≡ set n)
      → IsLegal ops set
      → (s' : PollSet) × (calls stale ops s ≡ changed s')
        × IsTable s'
        × ((n : ℕ) → watches s' n ≡ on_sets ops set n)
  unfolding calls on_sets IsLegal
  calls-set [] s set table same legal = (s, refl, table, same)
  calls-set (setup ∷ ops) s set table same legal =
      let (table', none_polled) = setup-watches s in
      calls-set ops (setup_poll_set s) (on_set setup set) table' none_polled legal
  calls-set (add i ∷ ops) s set table same legal =
      let (s₁, eq, table', map) = add-watches stale s i table in
      let (s', run, table'', map') =
        calls-set ops s₁ (on_set (add i) set) table'
          (λ n. map n ∙ ap (λ b. if n == i then true else b) (same n)) legal in
      (s', rw (calls, eq) run, table'', map')
  calls-set (remove i ∷ ops) s set table same legal =
      let (s₁, eq, table', map) = remove-watches s i table (same i ∙ legal.0) in
      let (s', run, table'', map') =
        calls-set ops s₁ (on_set (remove i) set) table'
          (λ n. map n ∙ ap (λ b. if n == i then false else b) (same n)) legal.1 in
      (s', rw (calls, eq) run, table'', map')

  -- On a table of the size that it says, with no socket entered at `maxFileDescriptor` or above,
  -- calls of `setupPollSet`, `addToPollSet` and `removeFromPollSet` in any order, where a socket is
  -- only removed while it is polled, never exit or access memory outside of the table, and leave
  -- such a table; and the sockets that `poll` is asked for behind them, by the entries below
  -- `maxFileDescriptor` that it is handed, are those of a plain set on which the same calls empty,
  -- add and remove.
  pub calls-refines :
      (ops : List Op) (s : PollSet)
      → IsTable s
      → IsLegal ops (watches s)
      → (s' : PollSet) × (calls stale ops s ≡ changed s')
        × IsTable s'
        × ((n : ℕ) → watches s' n ≡ on_sets ops (watches s) n)
  calls-refines ops s table legal = calls-set ops s (watches s) table (λ n. refl) legal
