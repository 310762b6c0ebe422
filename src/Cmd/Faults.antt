-- ===== src/Cmd/Faults.antt =====
-- main.win.cc, `cmd_parse`: the arguments that it reads out of bounds.
use wineing.Prelude.{◌<◌, ◌≡◌, ◌⊎◌, List, [], ◌∷◌, some, length}
use wineing.Prelude.Memory.{Bytes}
use wineing.Cmd.{char_at}

-- `argv[i][2]`, or the `argv[i][8]` of an option that begins with `--c`, lies behind the NUL byte.
abbrev pub IsShort : Bytes → Type 0
IsShort arg = (length arg < 2) ⊎ ((char_at arg 2 ≡ some b'c') × (length arg < 8))

abbrev pub AnyShort : List Bytes → Type 0
AnyShort [] = ⊥
AnyShort (arg ∷ args) = IsShort arg ⊎ AnyShort args
