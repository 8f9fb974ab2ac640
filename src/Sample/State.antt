-- ===== src/Sample/State.antt =====
-- Workspace/myClient.c and Workspace/myServer.c: what the two programs share.
use remote_file_copy_udp_pro.Base.{ℕ, ◌>>=◌, Option, none, some, List, [], ◌∷◌, ◌==◌, if◌then◌else◌}
use remote_file_copy_udp_pro.Output.{Line}

-- `MAXBUF` of these programs.
abbrev pub max_buf : ℕ
max_buf = 1024

-- How a program ends, with what it has printed: by `return 0`, by `exit`, or with no defined behaviour.
pub data Ended : Type 0 where
  returns : List Line → Ended
  exits : List Line → Ended
  faults : Ended

-- What `printf` makes of an array for a `%s`: the bytes before the first NUL. Without one it reads past
-- the end of the array, which is `none`.
unfoldable pub print_text : List ℕ → Option (List ℕ)
print_text [] = none
print_text (b ∷ bytes) =
    let rest = print_text bytes in if b == 0 then some [] else rest >>= λ text. some (b ∷ text)
