-- ===== src/Cmd/Options.antt =====
-- main.win.cc: the command lines that the usage text describes are parsed as it says.
use Prim.Native.Nat.{bit_or}
use wineing.Prelude.{
  suc, ◌<◌, arith, lt→ltb, length, drop, ℕ, ◌+◌, ◌≡◌, refl, Bool, true, false, ◌&&◌, List, [], ◌∷◌,
  ◌++◌, map, some, ◌==◌, if◌then◌else◌,
}
use wineing.Prelude.Memory.{Bytes, codes}
use wineing.Cmd.{
  WConf, strcspn_eq, cmd_parse_opt, parse_arg, parse_args, Parsed, configured, usage, cmd_parse,
}

-- The options of the usage text.
pub data Opt : Type 0 where
  cchan_in cchan_out mchan tape_root : Bytes → Opt

abbrev pub spell : Opt → Bytes
spell (cchan_in v) = codes "--cchan-in=" ++ v
spell (cchan_out v) = codes "--cchan-out=" ++ v
spell (mchan v) = codes "--mchan=" ++ v
spell (tape_root v) = codes "--tape-root=" ++ v

-- What an option sets; a later option overrides an earlier one.
abbrev pub apply : Opt → WConf → WConf
apply (cchan_in v) conf = record conf { cchan_in_fqcn = some v }
apply (cchan_out v) conf = record conf { cchan_out_fqcn = some v }
apply (mchan v) conf = record conf { mchan_fqcn = some v }
apply (tape_root v) conf = record conf { tape_basedir = some v }

abbrev pub apply_all : List Opt → WConf → WConf
apply_all [] conf = conf
apply_all (o ∷ os) conf = apply_all os (apply o conf)

-- Which of the three required options stand in a list, besides those given.
pub record Seen : Type 0 where
  pub has_in : Bool
  pub has_out : Bool
  pub has_mchan : Bool

abbrev pub see : Opt → Seen → Seen
see (cchan_in v) s = record s { has_in = true }
see (cchan_out v) s = record s { has_out = true }
see (mchan v) s = record s { has_mchan = true }
see (tape_root v) s = s

abbrev pub see_all : List Opt → Seen → Seen
see_all [] s = s
see_all (o ∷ os) s = see_all os (see o s)

abbrev pub is_complete : Seen → Bool
is_complete s = s.has_in && s.has_out && s.has_mchan

bit : Bool → ℕ → ℕ
bit true n = n
bit false n = 0

-- The bit mask `allOpts`.
mask : Seen → ℕ
mask s = bit s.has_in 1 + bit s.has_out 2 + bit s.has_mchan 4

flag : Opt → ℕ
flag (cchan_in v) = 1
flag (cchan_out v) = 2
flag (mchan v) = 4
flag (tape_root v) = 0

-- A statement about three Booleans, from its eight cases.
by_bits :
    (P : Bool → Bool → Bool → Type 0)
    → (P true true true × P true true false × P true false true × P true false false)
    → (P false true true × P false true false × P false false true × P false false false)
    → (a b c : Bool) → P a b c
by_bits P (x, _, _, _) q true true true = x
by_bits P (_, x, _, _) q true true false = x
by_bits P (_, _, x, _) q true false true = x
by_bits P (_, _, _, x) q true false false = x
by_bits P p (x, _, _, _) false true true = x
by_bits P p (_, x, _, _) false true false = x
by_bits P p (_, _, x, _) false false true = x
by_bits P p (_, _, _, x) false false false = x

see_in : (a b c : Bool) → bit_or (bit a 1 + bit b 2 + bit c 4) 1 ≡ bit true 1 + bit b 2 + bit c 4
unfolding bit
see_in = by_bits _ (refl, refl, refl, refl) (refl, refl, refl, refl)

see_out : (a b c : Bool) → bit_or (bit a 1 + bit b 2 + bit c 4) 2 ≡ bit a 1 + bit true 2 + bit c 4
unfolding bit
see_out = by_bits _ (refl, refl, refl, refl) (refl, refl, refl, refl)

see_mchan : (a b c : Bool) → bit_or (bit a 1 + bit b 2 + bit c 4) 4 ≡ bit a 1 + bit b 2 + bit true 4
unfolding bit
see_mchan = by_bits _ (refl, refl, refl, refl) (refl, refl, refl, refl)

mask-is_complete : (a b c : Bool) → (bit a 1 + bit b 2 + bit c 4 == 7) ≡ a && b && c
unfolding bit
mask-is_complete = by_bits _ (refl, refl, refl, refl) (refl, refl, refl, refl)

if-some : (b : Bool) (x y : Parsed) → (if b then some x else some y) ≡ some (if b then x else y)
if-some true x y = refl
if-some false x y = refl

cmd_parse_opt-spell :
    (arg v : Bytes)
    → strcspn_eq arg < length arg
    → drop (suc (strcspn_eq arg)) arg ≡ v
    → cmd_parse_opt arg ≡ some v
unfolding cmd_parse_opt
cmd_parse_opt-spell arg v h e = rw (lt→ltb _ _ h, e)

spell-apply :
    (o : Opt) (conf : WConf) (s : Seen)
    → parse_arg (spell o) (conf, mask s) ≡ some (apply o conf, mask (see o s))
unfolding parse_arg mask
spell-apply (cchan_in v) conf s = rw (
  cmd_parse_opt-spell (spell (cchan_in v)) v (omega arith) refl,
  see_in s.has_in s.has_out s.has_mchan,
)
spell-apply (cchan_out v) conf s = rw (
  cmd_parse_opt-spell (spell (cchan_out v)) v (omega arith) refl,
  see_out s.has_in s.has_out s.has_mchan,
)
spell-apply (mchan v) conf s = rw (
  cmd_parse_opt-spell (spell (mchan v)) v (omega arith) refl,
  see_mchan s.has_in s.has_out s.has_mchan,
)
spell-apply (tape_root v) conf s =
    rw (cmd_parse_opt-spell (spell (tape_root v)) v (omega arith) refl)

parse_args-spell :
    (os : List Opt) (conf : WConf) (s : Seen)
    → parse_args (map spell os) (conf, mask s) ≡ some (apply_all os conf, mask (see_all os s))
unfolding parse_args
parse_args-spell [] conf s = refl
parse_args-spell (o ∷ os) conf s =
    rw (spell-apply o conf s) (parse_args-spell os (apply o conf) (see o s))

abbrev pub none_seen : Seen
none_seen = record { has_in = false; has_out = false; has_mchan = false }

-- Options spelled as the usage text says are parsed as it says, in any order and number: without
-- one of the three required options the usage text is shown, and otherwise each option sets its
-- field, the last one of a kind counts, and what is not given keeps its default.
pub cmd_parse-spell :
    (os : List Opt) (conf : WConf)
    → cmd_parse (map spell os) conf
      ≡ some (if is_complete (see_all os none_seen) then configured (apply_all os conf) else usage)
unfolding cmd_parse mask bit
cmd_parse-spell os conf =
    let t = see_all os none_seen in
    rw (parse_args-spell os conf none_seen, mask-is_complete t.has_in t.has_out t.has_mchan)
      (if-some (is_complete t) (configured (apply_all os conf)) usage)
