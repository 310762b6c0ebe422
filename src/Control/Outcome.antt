-- ===== src/Control/Outcome.antt =====
-- impl/all/core/wineing.cc, `cchan_in_thread`: the state after each accepted request, in full.
use wineing.Prelude.{
  ◌<◌, ◌≡◌, ◌≢◌, refl, ap, ◌∙◌, Option, none, some, arith, length, true, false, is_neg,
}
use wineing.Prelude.Memory.{Bytes, c_str}
use wineing.Ctrl.{default_data_size, cmd_market_run, cmd_market_stop, cmd_shutdown}
use wineing.Proto.{
  Request, Response, market_start, market_stop, shutdown, market_start_ok, market_stop_ok,
  shutdown_ok, err,
}
use wineing.Control.{Env, InState, process, dispatch, respond, respond_err, not_found, signal}
use wineing.Control.Owner.{IsReady, published, publish-published, with_tape, no_tape}
use wineing.Control.Cases.{
  tape_path, Handled, running, missing, crash, tape, live, stops, shuts, process-Handled,
}

-- A start request that is accepted, for a tape.
pub record IsTapeStart (env : Env) (req : Request) (s : InState) (file : Bytes) : Type 0 where
  pub starts : req.type ≡ market_start
  pub not_running : s.t_data.cmd ≢ cmd_market_run
  pub asked : req.tape_file ≡ some file
  pub found : is_neg (env.file_exists (c_str (tape_path env file))) ≡ false
  pub fits : length (tape_path env file) < default_data_size

-- A start request that is accepted, for live data.
pub record IsLiveStart (req : Request) (s : InState) : Type 0 where
  pub starts : req.type ≡ market_start
  pub not_running : s.t_data.cmd ≢ cmd_market_run
  pub asked : req.tape_file ≡ none

abbrev pub after_tape : Bytes → InState → InState
after_tape path s = signal (published cmd_market_run (with_tape path (no_tape s)))

abbrev pub after_live : InState → InState
after_live s = signal (published cmd_market_run (no_tape s))

tape-outcome :
    {env : Env} {req : Request} {s : InState} {o : Option (Response × InState)} (file : Bytes)
    → Handled env req s o
    → IsTapeStart env req s file
    → o ≡ some (respond req market_start_ok, after_tape (tape_path env file) s)
tape-outcome file (running t c) p = absurd (p.not_running c)
tape-outcome file (missing f t c e x) p = absurd (ground (arith, p.asked, p.found))
tape-outcome file (crash f t c e x y) p = absurd (ground (arith, p.asked, p.fits))
tape-outcome {env} {req} {s} file (tape f t c e x y) p =
    let same : f ≡ file = ground (arith, e, p.asked) in
    ap (λ g. some (respond req market_start_ok, after_tape (tape_path env g) s)) same
tape-outcome file (live t c e) p = absurd (cc (p.asked))
tape-outcome file (stops t) p = absurd (cc (p.starts))
tape-outcome file (shuts t) p = absurd (cc (p.starts))

live-outcome :
    {env : Env} {req : Request} {s : InState} {o : Option (Response × InState)}
    → Handled env req s o
    → IsLiveStart req s
    → o ≡ some (respond req market_start_ok, after_live s)
live-outcome (running t c) p = absurd (p.not_running c)
live-outcome (missing f t c e x) p = absurd (cc (p.asked))
live-outcome (crash f t c e x y) p = absurd (cc (p.asked))
live-outcome (tape f t c e x y) p = absurd (cc (p.asked))
live-outcome (live t c e) p = refl
live-outcome (stops t) p = absurd (cc (p.starts))
live-outcome (shuts t) p = absurd (cc (p.starts))

module _ (env : Env) (req : Request) (s : InState) (r : IsReady s) where
  pub process-tape :
      (file : Bytes)
      → IsTapeStart env req s file
      → process env req s ≡ some (respond req market_start_ok, after_tape (tape_path env file) s)
  process-tape file p = tape-outcome file (process-Handled env req s r) p

  pub process-live :
      IsLiveStart req s → process env req s ≡ some (respond req market_start_ok, after_live s)
  process-live p = live-outcome (process-Handled env req s r) p

  pub process-stop :
      req.type ≡ market_stop
      → process env req s ≡ some (respond req market_stop_ok, published cmd_market_stop s)
  unfolding process
  process-stop t = ap (λ k. dispatch k env req s) t ∙ rw (publish-published cmd_market_stop s r)

  pub process-shutdown :
      req.type ≡ shutdown
      → process env req s ≡ some (respond req shutdown_ok, signal (published cmd_shutdown s))
  unfolding process
  process-shutdown t = ap (λ k. dispatch k env req s) t ∙ rw (publish-published cmd_shutdown s r)

-- A start request, while nothing runs, for a tape that is not there.
pub record IsMissingStart (env : Env) (req : Request) (s : InState) (file : Bytes) : Type 0 where
  pub starts : req.type ≡ market_start
  pub not_running : s.t_data.cmd ≢ cmd_market_run
  pub asked : req.tape_file ≡ some file
  pub absent : is_neg (env.file_exists (c_str (tape_path env file))) ≡ true

missing-outcome :
    {env : Env} {req : Request} {s : InState} {o : Option (Response × InState)} (file : Bytes)
    → Handled env req s o
    → IsMissingStart env req s file
    → o ≡ some (respond_err req err (not_found (tape_path env file)), no_tape s)
missing-outcome file (running t c) p = absurd (p.not_running c)
missing-outcome {env} {req} {s} file (missing f t c e x) p =
    let same : f ≡ file = ground (arith, e, p.asked) in
    ap (λ g. some (respond_err req err (not_found (tape_path env g)), no_tape s)) same
missing-outcome file (crash f t c e x y) p = absurd (ground (arith, p.asked, p.absent))
missing-outcome file (tape f t c e x y) p = absurd (ground (arith, p.asked, p.absent))
missing-outcome file (live t c e) p = absurd (cc (p.asked))
missing-outcome file (stops t) p = absurd (cc (p.starts))
missing-outcome file (shuts t) p = absurd (cc (p.starts))

pub process-missing :
    (env : Env) (req : Request) (s : InState) (file : Bytes)
    → IsReady s
    → IsMissingStart env req s file
    → process env req s ≡ some (respond_err req err (not_found (tape_path env file)), no_tape s)
process-missing env req s file r p = missing-outcome file (process-Handled env req s r) p
