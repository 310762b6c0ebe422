-- ===== src/Control/Spec.antt =====
-- impl/all/core/wineing.cc, `cchan_in_thread`: an abstract machine for the control protocol, over
-- phases in place of control blocks, and the handler's agreement with it.
use wineing.Prelude.{
  ℕ, ◌<◌, ◌≡◌, refl, Option, none, some, arith, length, if◌then◌else◌, ◌==◌, is_neg, subst, sym, ap,
  ◌∙◌, ◌≢◌,
}
use wineing.Prelude.Memory.{Bytes, c_str}
use wineing.Ctrl.{cmd_market_run, cmd_market_stop, cmd_shutdown, default_data_size}
use wineing.Ctrl.Copy.{copied}
use wineing.Proto.{
  Request, RequestType, Response, ResponseType, market_start, market_stop, shutdown,
  market_start_ok, market_stop_ok, shutdown_ok, err, market_start_err_running,
}
use wineing.Control.{
  Env, InState, signal, process, respond, respond_err, already_running, not_found,
}
use wineing.Control.Owner.{
  IsReady, IsOwner, published, published-IsOwner, with_tape, no_tape, no_tape-IsReady,
  with_tape-IsReady,
}
use wineing.Control.Cases.{
  tape_path, Handled, running, missing, crash, tape, live, stops, shuts, process-Handled,
}

pub data Phase : Type 0 where
  waiting streaming stopped down : Phase

abbrev pub phase : ℕ → Phase
phase c =
    if c == cmd_market_run
    then streaming
    else if c == cmd_market_stop
    then stopped
    else if c == cmd_shutdown
    then down
    else waiting

-- The phase that the other threads are told of.
abbrev pub told : InState → Phase
told s = phase s.shared.value.cmd

abbrev begin : Env → Request → Phase → Option Bytes → Response × Phase
begin env req streaming file = (respond_err req market_start_err_running already_running, streaming)
begin env req p none = (respond req market_start_ok, streaming)
begin env req p (some file) =
    if is_neg (env.file_exists (c_str (tape_path env file)))
    then (respond_err req err (not_found (tape_path env file)), p)
    else (respond req market_start_ok, streaming)

abbrev answer_by : RequestType → Env → Phase → Request → Response × Phase
answer_by market_start env p req = begin env req p req.tape_file
answer_by market_stop env p req = (respond req market_stop_ok, stopped)
answer_by shutdown env p req = (respond req shutdown_ok, down)

-- The response to a request, and the phase after it.
abbrev pub answer : Env → Phase → Request → Response × Phase
answer env p req = answer_by req.type env p req

-- The tape's path and its NUL byte fit in the control block's buffer.
abbrev pub Fits : Env → Option Bytes → Type 0
Fits env none = Unit {0}
Fits env (some file) = length (tape_path env file) < default_data_size

-- What a handled request leaves: a state of the owner, in the phase of the machine.
pub record Answered (env : Env) (req : Request) (s : InState) (o : Option (Response × InState))
    : Type 0 where
  pub response : Response
  pub state : InState
  pub outcome : o ≡ some (response, state)
  pub owner : IsOwner state
  pub abstract : answer env (told s) req ≡ (response, told state)
  pub same_sent : state.sent ≡ s.sent

signal-IsOwner : (s : InState) → IsOwner s → IsOwner (signal s)
unfolding signal
signal-IsOwner s o = record {
  ready = record {
    current = o.ready.current;
    local_valid = o.ready.local_valid;
    shared_valid = o.ready.shared_valid;
  };
  same_cmd = o.same_cmd;
}

pub told-published : (c : ℕ) (s : InState) → told (published c s) ≡ phase c
unfolding published copied
told-published c s = refl

published-Answered :
    (c : ℕ) (t : ResponseType) (env : Env) (req : Request) (s s' : InState)
    → IsReady s'
    → s'.sent ≡ s.sent
    → answer env (told s) req ≡ (respond req t, phase c)
    → Answered env req s (some (respond req t, published c s'))
unfolding published copied
published-Answered c t env req s s' r q a = record {
  response = respond req t;
  state = published c s';
  outcome = refl;
  owner = published-IsOwner c s' r;
  abstract = a;
  same_sent = q;
}

signal-Answered :
    (t : Response) (env : Env) (req : Request) (s s' : InState)
    → Answered env req s (some (t, s'))
    → Answered env req s (some (t, signal s'))
unfolding signal
signal-Answered t env req s s' a = record {
  response = t;
  state = signal s';
  outcome = refl;
  owner = signal-IsOwner s' (subst IsOwner (ground (arith, a.outcome)) a.owner);
  abstract = ground (arith, a.outcome, a.abstract);
  same_sent = ground (arith, a.outcome, a.same_sent);
}

Handled-Answered :
    {env : Env} {req : Request} {s : InState} {o : Option (Response × InState)}
    → IsOwner s
    → o ≢ none
    → Handled env req s o
    → Answered env req s o
unfolding with_tape
Handled-Answered w f (running t c) = record {
  response = _;
  state = _;
  outcome = refl;
  owner = w;
  abstract = ground (arith, w.same_cmd);
  same_sent = refl;
}
Handled-Answered {s} w f (missing file t c e m) = record {
  response = _;
  state = no_tape s;
  outcome = refl;
  owner = record { ready = no_tape-IsReady s w.ready; same_cmd = w.same_cmd };
  abstract = ground (arith, w.same_cmd);
  same_sent = refl;
}
Handled-Answered w f (crash file t c e m l) = absurd (f refl)
Handled-Answered {env} {req} {s} w f (tape file t c e m l) = signal-Answered _ env req s _ (
    published-Answered cmd_market_run market_start_ok env req s
      (with_tape (tape_path env file) (no_tape s))
      (with_tape-IsReady (tape_path env file) (no_tape s) (no_tape-IsReady s w.ready) l) refl
      (ground (arith, w.same_cmd)))
Handled-Answered {env} {req} {s} w f (live t c e) = signal-Answered _ env req s _ (
    published-Answered cmd_market_run market_start_ok env req s (no_tape s)
      (no_tape-IsReady s w.ready) refl (ground (arith, w.same_cmd)))
Handled-Answered {env} {req} {s} w f (stops t) =
    published-Answered cmd_market_stop market_stop_ok env req s s w.ready refl (ground arith)
Handled-Answered {env} {req} {s} w f (shuts t) =
    signal-Answered _ env req s _
      (published-Answered cmd_shutdown shutdown_ok env req s s w.ready refl (ground arith))

Handled-some :
    {env : Env} {req : Request} {s : InState} {o : Option (Response × InState)}
    → Fits env req.tape_file
    → Handled env req s o
    → o ≢ none
Handled-some f (running t c) e = cc
Handled-some f (missing file t c e m) q = cc
Handled-some f (crash file t c e m l) q = absurd (ground arith)
Handled-some f (tape file t c e m l) q = cc
Handled-some f (live t c e) q = cc
Handled-some f (stops t) q = cc
Handled-some f (shuts t) q = cc

-- A request whose handling comes to an end is answered as the abstract machine answers it.
pub process-Answered :
    (env : Env) (req : Request) (s c : InState) (res : Response)
    → IsOwner s
    → process env req s ≡ some (res, c)
    → (res ≡ (answer env (told s) req).0)
      × (told c ≡ (answer env (told s) req).1)
      × IsOwner c
      × (c.sent ≡ s.sent)
process-Answered env req s c res w e =
    let a = Handled-Answered w (λ n. cc (e, n)) (process-Handled env req s w.ready) in
    let same : c ≡ a.state = ground (arith, a.outcome, e) in
    (
      ground (arith, a.outcome, a.abstract, e),
      ap told same ∙ ground (arith, a.abstract),
      subst IsOwner (sym same) a.owner,
      ap (λ x. x.sent) same ∙ a.same_sent,
    )

-- If the thread owns the control block and the tape's path fits in its buffer, a request is
-- answered as the abstract machine answers it, the other threads are told the machine's next
-- phase, and the thread still owns the control block.
pub process-answer :
    (env : Env) (req : Request) (s : InState)
    → IsOwner s
    → Fits env req.tape_file
    → (s' : InState) × (process env req s ≡ some ((answer env (told s) req).0, s'))
      × (told s' ≡ (answer env (told s) req).1)
      × IsOwner s'
      × (s'.sent ≡ s.sent)
process-answer env req s w f = (
  a.state,
  ground (arith, a.outcome, a.abstract),
  ground (arith, a.abstract),
  a.owner,
  a.same_sent,
)
  where
    a : Answered env req s (process env req s)
    a = let h = process-Handled env req s w.ready in Handled-Answered w (Handled-some f h) h
