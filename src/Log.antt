-- ===== src/Log.antt =====
-- inc/log/logging.h: the macro `log`. What `strftime` and `fprintf` make of the time and of the format
-- are arguments; the result is the standard output after the call, or `none` for an undefined level.
use wineing.Prelude.{
  ℕ, ◌+◌, ◌-◌, [], ◌∷◌, ◌++◌, Option, none, some, Bool, true, false, ltb, ◌==◌, if◌then◌else◌,
  length, replicate,
}
use wineing.Prelude.Memory.{Bytes, codes, ◌>>=◌}

abbrev pub log_all : ℕ
log_all = 0

abbrev pub log_debug : ℕ
log_debug = 1

abbrev pub log_warn : ℕ
log_warn = 2

abbrev pub log_info : ℕ
log_info = 3

abbrev pub log_error : ℕ
log_error = 4

abbrev pub log_none : ℕ
log_none = 5

-- `LOG_STR[level]`
abbrev pub log_str : ℕ → Option Bytes
log_str level =
    if level == log_all
    then some (codes "ALL")
    else if level == log_debug
    then some (codes "DEBUG")
    else if level == log_warn
    then some (codes "WARN")
    else if level == log_info
    then some (codes "INFO")
    else if level == log_error
    then some (codes "ERROR")
    else if level == log_none
    then some (codes "NONE")
    else none

-- `LOG_LEVEL`, given whether `DEBUG` is defined and the definition of `LOG_LEVEL`, if there is one.
abbrev pub log_level : Bool → Option ℕ → ℕ
log_level debug (some l) = l
log_level true none = log_debug
log_level false none = log_all

-- `%-5s`
abbrev pad_5 : Bytes → Bytes
pad_5 s = s ++ replicate (5 - length s) 32

-- What one call prints: its text, from the time that `strftime` gives, the level, the formatted message
-- and the place in the source.
abbrev line : Bytes → Bytes → Bytes → Bytes → Bytes → Bytes
line time level msg file n =
    time
    ++ codes ": ["
    ++ pad_5 level
    ++ codes "] "
    ++ msg
    ++ codes " ("
    ++ file
    ++ codes ":"
    ++ n
    ++ codes ")"
    ++ 10 ∷ []

-- `level > LOG_LEVEL - 1`, where the right side is -1 at `LOG_ALL`.
unfoldable pub log : ℕ → ℕ → Bytes → Bytes → Bytes → Bytes → Bytes → Option Bytes
log min level time msg file n out =
    if ltb min (level + 1)
    then (log_str level >>= λ s. some (out ++ line time s msg file n))
    else some out
