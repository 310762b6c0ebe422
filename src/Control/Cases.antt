-- ===== src/Control/Cases.antt =====
-- impl/all/core/wineing.cc, `cchan_in_thread`: the ways in which a request can be handled.
use wineing.Prelude.{
  ◌≤◌, ◌<◌, ◌≡◌, ◌≢◌, refl, inl, inr, Option, none, some, ◌++◌, arith, length, true, false,
  Option-cases, Bool-cases, ◌==◌, is_neg,
}
use native.Mathlib.Decide.{dec_lt}
use wineing.Prelude.Memory.{Bytes, c_str, ◌>>=◌}
use wineing.Ctrl.{default_data_size, cmd_market_run, cmd_market_stop, cmd_shutdown}
use wineing.Proto.{
  Request, RequestType, Response, market_start, market_stop, shutdown, market_start_ok,
  market_stop_ok, shutdown_ok, err, market_start_err_running,
}
use wineing.Control.{
  Env, InState, signal, set_tape, start_market, on_market_start, on_market_stop, on_shutdown,
  process, dispatch, respond, respond_err, already_running, not_found,
}
use wineing.Control.Owner.{
  IsReady, published, publish-published, with_tape, no_tape, no_tape-IsReady, set_tape-with_tape,
  with_tape-IsReady, set_tape_overflow,
}

abbrev pub tape_path : Env → Bytes → Bytes
tape_path env file = env.tape_basedir ++ file

-- The response and the state after a request, case by case. `crash` is the memory fault.
pub data Handled (env : Env) (req : Request) (s : InState)
    : Option (Response × InState) → Type 0 where
  running :
      req.type ≡ market_start
      → s.t_data.cmd ≡ cmd_market_run
      → Handled env req s (some (respond_err req market_start_err_running already_running, s))
  missing :
      (file : Bytes)
      → req.type ≡ market_start
      → s.t_data.cmd ≢ cmd_market_run
      → req.tape_file ≡ some file
      → is_neg (env.file_exists (c_str (tape_path env file))) ≡ true
      → Handled env req s (some (respond_err req err (not_found (tape_path env file)), no_tape s))
  crash :
      (file : Bytes)
      → req.type ≡ market_start
      → s.t_data.cmd ≢ cmd_market_run
      → req.tape_file ≡ some file
      → is_neg (env.file_exists (c_str (tape_path env file))) ≡ false
      → default_data_size ≤ length (tape_path env file)
      → Handled env req s none
  tape :
      (file : Bytes)
      → req.type ≡ market_start
      → s.t_data.cmd ≢ cmd_market_run
      → req.tape_file ≡ some file
      → is_neg (env.file_exists (c_str (tape_path env file))) ≡ false
      → length (tape_path env file) < default_data_size
      → Handled env req s (
          some (
            respond req market_start_ok,
            signal (published cmd_market_run (with_tape (tape_path env file) (no_tape s))),
          ))
  live :
      req.type ≡ market_start
      → s.t_data.cmd ≢ cmd_market_run
      → req.tape_file ≡ none
      → Handled env req s
          (some (respond req market_start_ok, signal (published cmd_market_run (no_tape s))))
  stops :
      req.type ≡ market_stop
      → Handled env req s (some (respond req market_stop_ok, published cmd_market_stop s))
  shuts :
      req.type ≡ shutdown
      → Handled env req s (some (respond req shutdown_ok, signal (published cmd_shutdown s)))

module _ (env : Env) (req : Request) (s : InState) (r : IsReady s) where
  start_tape :
      (file : Bytes)
      → req.type ≡ market_start
      → (s.t_data.cmd == cmd_market_run) ≡ false
      → req.tape_file ≡ some file
      → is_neg (env.file_exists (c_str (tape_path env file))) ≡ false
      → Handled env req s (set_tape (tape_path env file) (no_tape s) >>= start_market req)
  unfolding start_market
  start_tape file t c f e = elim (dec_lt (length (tape_path env file)) default_data_size) [
    | yes fits ↦
        rw
          (
            set_tape-with_tape (tape_path env file) (no_tape s) (no_tape-IsReady s r) fits,
            publish-published cmd_market_run (with_tape (tape_path env file) (no_tape s))
                (with_tape-IsReady (tape_path env file) (no_tape s) (no_tape-IsReady s r) fits),
          )
          (tape file t (ground arith) f e fits)
    | no long ↦
        rw (set_tape_overflow (tape_path env file) (no_tape s) (no_tape-IsReady s r) (omega arith))
          (crash file t (ground arith) f e (omega arith))
  ]

  start_idle :
      req.type ≡ market_start
      → (s.t_data.cmd == cmd_market_run) ≡ false
      → Handled env req s (on_market_start env req s)
  unfolding on_market_start
  start_idle t c = elim (Option-cases req.tape_file) [
    | inl n ↦
        simp (c, n, publish-published cmd_market_run (no_tape s) (no_tape-IsReady s r))
          (live t (ground arith) n)
    | inr (file, f) ↦ elim (Bool-cases (is_neg (env.file_exists (c_str (tape_path env file))))) [
      | inl e ↦ simp (c, f, e) (missing file t (ground arith) f e)
      | inr e ↦ simp (c, f, e) (start_tape file t c f e)
    ]
  ]

  start-Handled : req.type ≡ market_start → Handled env req s (on_market_start env req s)
  unfolding on_market_start
  start-Handled t = elim (Bool-cases (s.t_data.cmd == cmd_market_run)) [
    | inl c ↦ rw c (running t (ground arith))
    | inr c ↦ start_idle t c
  ]

  by_type : (k : RequestType) → req.type ≡ k → Handled env req s (dispatch k env req s)
  unfolding on_market_stop on_shutdown
  by_type market_start t = start-Handled t
  by_type market_stop t = rw (publish-published cmd_market_stop s r) (stops t)
  by_type shutdown t = rw (publish-published cmd_shutdown s r) (shuts t)

  -- Every request is handled in one of these ways, and the conditions say in which.
  pub process-Handled : Handled env req s (process env req s)
  unfolding process
  process-Handled = by_type req.type refl
