-- ===== src/Program/Plays.antt =====
-- impl/all/core/wineing.cc: the tape that the market thread plays, against the requests that the
-- control thread has processed.
use wineing.Prelude.{
  ℕ, ◌≡◌, ◌≢◌, refl, sym, ap, ◌∙◌, subst, List, [], ◌∷◌, ◌++◌, Option, none, some, arith, is_neg,
  if◌then◌else◌,
}
use wineing.Prelude.Memory.{Bytes, c_str, c_string, NoNul}
use wineing.Ctrl.{WCtrl, cmd_market_run}
use wineing.Ctrl.Copy.{copied}
use wineing.Proto.{Request, RequestType, Response, market_start, market_stop, shutdown}
use wineing.Control.{Env, InState, process, signal, in_start}
use wineing.Control.Owner.{IsOwner, published, with_tape, no_tape}
use wineing.Control.Cases.{
  tape_path, Handled, running, missing, crash, tape, live, stops, shuts, process-Handled,
}
use wineing.Control.Tape.{Carries, with_tape-Carries, published-Carries}
use wineing.Reader.{Reader}
use wineing.Reader.Fresh.{read_shared-IsFresh}
use wineing.Reader.Behind.{Behind-InSync}
use wineing.Market.{Action, market_turn, NxCore}
use wineing.System.Delivery.{market_turn-read, c_string-Shows, action-running}
use wineing.Program.{World, InStep, OutStep, MarketStep, Step, Reach, here, next, start}
use wineing.Program.Invariant.{Inv, Bounded}
use wineing.Program.Moves.{Step-heard}
use wineing.Program.Moves.Control.{reply-some}
use wineing.Program.Safety.{IsAllocated, reached-Inv}

-- What is to be played: nothing, data that is not from a tape, or a tape.
pub data Show : Type 0 where
  silent unnamed : Show
  playing : Bytes → Show

abbrev started : Env → Show → Option Bytes → Show
started env silent none = unnamed
started env silent (some file) =
    if is_neg (env.file_exists (c_str (tape_path env file)))
    then silent
    else playing (tape_path env file)
started env p file = p

abbrev shown_by : RequestType → Env → Show → Option Bytes → Show
shown_by market_start env p file = started env p file
shown_by market_stop env p file = silent
shown_by shutdown env p file = silent

-- What is to be played after the requests: a stop and a shutdown end it, and a start that is accepted
-- begins it, where nothing is played yet.
abbrev pub shown : Env → Show → List Request → Show
shown env p [] = p
shown env p (q ∷ qs) = shown env (shown_by q.type env p q.tape_file) qs

shown-snoc :
    (env : Env) (p : Show) (qs : List Request) (q : Request)
    → shown env p (qs ++ q ∷ []) ≡ shown_by q.type env (shown env p qs) q.tape_file
shown-snoc env p [] q = refl
shown-snoc env p (r ∷ qs) q = shown-snoc env (shown_by r.type env p r.tape_file) qs q

-- The control block says so.
abbrev Holds : Show → WCtrl → Type 0
Holds silent d = d.cmd ≢ cmd_market_run
Holds unnamed d = d.cmd ≡ cmd_market_run
Holds (playing path) d = (d.cmd ≡ cmd_market_run) × Carries path d

abbrev HoldsAfter : Show → Option (Response × InState) → Type 0
HoldsAfter p none = Unit {0}
HoldsAfter p (some o) = Holds p o.1.shared.value

-- A request that is refused because the market runs changes nothing.
keeps :
    (env : Env) (p : Show) (file : Option Bytes) (d : WCtrl)
    → d.cmd ≡ cmd_market_run
    → Holds p d
    → Holds (started env p file) d
keeps env silent file d c h = absurd (h c)
keeps env unnamed file d c h = h
keeps env (playing path) file d c h = h

was_silent : (p : Show) (d : WCtrl) → d.cmd ≢ cmd_market_run → Holds p d → p ≡ silent
was_silent silent d n h = refl
was_silent unnamed d n h = absurd (n h)
was_silent (playing path) d n h = absurd (n h.0)

Handled-Holds :
    {env : Env} {req : Request} {s : InState} {o : Option (Response × InState)} (p : Show)
    → IsOwner s
    → Holds p s.shared.value
    → Handled env req s o
    → HoldsAfter (shown_by req.type env p req.tape_file) o
unfolding signal published copied
Handled-Holds {env} {req} {s} p w h (running t c) =
    rw t (keeps env p req.tape_file s.shared.value (w.same_cmd ∙ c) h)
Handled-Holds {env} {req} {s} p w h (missing file t c e m) =
    let q = was_silent p s.shared.value (λ x. c (sym w.same_cmd ∙ x)) h in
    rw (t, e, q, m) (λ x. c (sym w.same_cmd ∙ x))
Handled-Holds p w h (crash file t c e m l) = tt
Handled-Holds {env} {req} {s} p w h (tape file t c e m l) =
    let q = was_silent p s.shared.value (λ x. c (sym w.same_cmd ∙ x)) h in
    rw (t, e, q, m)
      (
        refl,
        published-Carries (tape_path env file) cmd_market_run
            (with_tape (tape_path env file) (no_tape s))
            (with_tape-Carries (tape_path env file) (no_tape s)),
      )
Handled-Holds {env} {req} {s} p w h (live t c e) =
    let q = was_silent p s.shared.value (λ x. c (sym w.same_cmd ∙ x)) h in rw (t, e, q) refl
Handled-Holds p w h (stops t) = rw t (λ e. cc)
Handled-Holds p w h (shuts t) = rw t (λ e. cc)

-- The block tells what the requests ask for.
abbrev Tells : Env → World → Type 0
Tells env s = Holds (shown env silent s.heard) s.control.shared.value

process-Holds :
    (env : Env) (req : Request) (s c : InState) (res : Response) (p : Show)
    → IsOwner s
    → Holds p s.shared.value
    → process env req s ≡ some (res, c)
    → Holds (shown_by req.type env p req.tape_file) c.shared.value
process-Holds env req s c res p w h e =
    subst (HoldsAfter (shown_by req.type env p req.tape_file)) e
      (Handled-Holds p w h (process-Handled env req s w.ready))

InStep-Tells : {env : Env} {s t : World} → InStep env s t → Inv s → Tells env s → Tells env t
InStep-Tells {env} {s} (InStep.hears z n req res c i g h o p) v w =
    rw (shown-snoc env silent s.heard req)
      (process-Holds env req s.control c res (shown env silent s.heard) v.owner w p)
InStep-Tells (InStep.hears_nothing z n req i g h o) v w = w
InStep-Tells {env} {s} (InStep.answers rc res c i h e) v w =
    subst (λ g. Holds (shown env silent s.heard) g.value)
      (sym (ap (λ x. x.shared) (reply-some env rc res s.control c e))) w
InStep-Tells (InStep.in_leaves i g) v w = w

OutStep-Tells : (env : Env) {s t : World} → OutStep s t → Tells env s → Tells env t
OutStep-Tells env (OutStep.out_reads r p e c) w = w
OutStep-Tells env (OutStep.out_leaves r p e c) w = w
OutStep-Tells env (OutStep.out_closes p) w = w
OutStep-Tells env (OutStep.passes t m rest st p q a z l e) w = w
OutStep-Tells env (OutStep.fails t st p a z e) w = w

MarketStep-Tells :
    {env : Env} {nx : NxCore} {s t : World} → MarketStep env nx s t → Tells env s → Tells env t
MarketStep-Tells (MarketStep.market_reads a r p e) w = w
MarketStep-Tells (MarketStep.nx_calls message rc n p e) w = w
MarketStep-Tells (MarketStep.nx_stops message rc n p e) w = w
MarketStep-Tells (MarketStep.nx_ends p) w = w
MarketStep-Tells (MarketStep.nx_obeys p) w = w

Step-Tells :
    {env : Env} {nx : NxCore} {s t : World} → Step env nx s t → Inv s → Tells env s → Tells env t
Step-Tells (Step.control m) v w = InStep-Tells m v w
Step-Tells {env} (Step.out m) v w = OutStep-Tells env m w
Step-Tells (Step.market m) v w = MarketStep-Tells m w

module _ {env : Env} {nx : NxCore} {g i o m t : Bytes} (a : IsAllocated g i o m t) where
  Reach-Tells : {n : ℕ} {s : World} → Reach env nx (start g i o m t) n s → Bounded s → Tells env s
  unfolding in_start
  Reach-Tells here b = λ e. cc
  Reach-Tells (next r st) b =
      Step-Tells st (reached-Inv a r (omega (arith, Step-heard st)))
        (Reach-Tells r (omega (arith, Step-heard st)))

  -- In every order of the threads' actions, if the requests that were processed end with a tape that
  -- is to be played, the market thread at its next read runs NxCore on the C string of the path of
  -- that tape. A tape is to be played from a start request for it that is accepted, which it is where
  -- nothing is played and the file is there, to the next stop or shutdown. The path has no NUL byte,
  -- and fewer than 2^32 - 1 requests have been processed.
  pub tape_plays :
      {n : ℕ} {s : World} (path : Bytes)
      → Reach env nx (start g i o m t) n s
      → Bounded s
      → shown env silent s.heard ≡ playing path
      → NoNul path
      → (memory : Bytes) × (r : Reader) × (market_turn s.control.shared s.market
          ≡ some (Action.running memory, r))
        × (c_string memory ≡ path)
  tape_plays {n} {s} path r b e k =
      let v = reached-Inv a r b in
      let (r', q, f) =
        read_shared-IsFresh s.control.shared s.market v.owner.ready.shared_valid
          (Behind-InSync v.market_near.behind) in
      let (c, h) = subst (λ p. Holds p s.control.shared.value) e (Reach-Tells r b) in
      (
        r'.t_data.buffer,
        r',
        market_turn-read s.control.shared s.market r' q
            ∙ ap (λ x. some (x, r')) (action-running r'.t_data (f.shows.same_cmd ∙ c)),
        c_string-Shows path r'.t_data s.control.shared.value f.shows h k,
      )
