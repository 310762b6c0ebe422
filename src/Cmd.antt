-- ===== src/Cmd.antt =====
-- main.win.cc: the command line. An argument is its characters, without the NUL byte that ends it.
pub mod Options
pub mod Faults
pub mod Usage
use Prim.Native.Nat.{bit_or}
use wineing.Prelude.{
  ℕ, zero, suc, ◌+◌, List, [], ◌∷◌, Option, none, some, ◌==◌, if◌then◌else◌, drop, length, ltb,
}
use wineing.Prelude.Memory.{Bytes, codes, ◌>>=◌}

-- A `const char *`: `none` points behind the NUL byte of the argument that it was taken from.
abbrev pub CharPtr : Type 0
CharPtr = Option Bytes

-- `w_conf`
pub record WConf : Type 0 where
  pub cchan_in_fqcn : CharPtr
  pub cchan_out_fqcn : CharPtr
  pub mchan_fqcn : CharPtr
  pub tape_basedir : CharPtr

-- The DEFAULTS_* that `main` sets.
abbrev pub cchan_in_name : Bytes
cchan_in_name = codes "tcp://*:9990"

abbrev pub cchan_out_name : Bytes
cchan_out_name = codes "tcp://*:9991"

abbrev pub mchan_name : Bytes
mchan_name = codes "tcp://*:9992"

abbrev pub tape_base_dir : Bytes
tape_base_dir = codes "C:\\md\\"

abbrev pub default_conf : WConf
default_conf = record {
  cchan_in_fqcn = some cchan_in_name;
  cchan_out_fqcn = some cchan_out_name;
  mchan_fqcn = some mchan_name;
  tape_basedir = some tape_base_dir;
}

-- `argv[i]`: the characters, then the NUL byte, then nothing that may be read.
abbrev pub char_at : Bytes → ℕ → Option ℕ
char_at [] zero = some 0
char_at [] (suc i) = none
char_at (b ∷ bs) zero = some b
char_at (b ∷ bs) (suc i) = char_at bs i

-- `strcspn(argv, "=")`
abbrev pub strcspn_eq : Bytes → ℕ
strcspn_eq [] = 0
strcspn_eq (b ∷ bs) = if b == b'=' then 0 else suc (strcspn_eq bs)

unfoldable pub cmd_parse_opt : Bytes → CharPtr
cmd_parse_opt arg =
    let eq = strcspn_eq arg in if ltb eq (length arg) then some (drop (suc eq) arg) else none

-- The body of the loop over the arguments; the number is `allOpts`.
unfoldable pub parse_arg : Bytes → WConf × ℕ → Option (WConf × ℕ)
unfolding cmd_parse_opt
parse_arg arg (conf, all_opts) = char_at arg 2 >>= λ c.
    if c == b'c'
    then (char_at arg 8 >>= λ d.
        if d == b'i'
        then some (record conf { cchan_in_fqcn = cmd_parse_opt arg }, bit_or all_opts 0x1)
        else some (record conf { cchan_out_fqcn = cmd_parse_opt arg }, bit_or all_opts 0x2))
    else if c == b'm'
    then some (record conf { mchan_fqcn = cmd_parse_opt arg }, bit_or all_opts 0x4)
    else if c == b't'
    then some (record conf { tape_basedir = cmd_parse_opt arg }, all_opts)
    else some (conf, all_opts)

unfoldable pub parse_args : List Bytes → WConf × ℕ → Option (WConf × ℕ)
parse_args [] s = some s
parse_args (arg ∷ args) s = parse_arg arg s >>= λ s'. parse_args args s'

-- The configuration, or the usage text and `exit(1)`.
pub data Parsed : Type 0 where
  configured : WConf → Parsed
  usage : Parsed

-- `cmd_parse`, over the arguments after the program's name.
unfoldable pub cmd_parse : List Bytes → WConf → Option Parsed
cmd_parse args conf =
    parse_args args (conf, 0) >>= λ s. if s.1 == 7 then some (configured s.0) else some usage
