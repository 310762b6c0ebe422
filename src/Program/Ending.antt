-- ===== src/Program/Ending.antt =====
-- impl/all/core/wineing.cc: how the program comes to its end after a shutdown request.
pub mod Onward
pub mod Bound
use wineing.Prelude.{
  ℕ, ℤ, pos, zero, suc, ◌+◌, ◌^◌, ◌<◌, ◌≤◌, ◌≡◌, ◌≢◌, refl, sym, ap, ◌∙◌, subst, true, false, List,
  [], ◌∷◌, ◌++◌, Option, some, arith, length, ◌⊎◌, inl, inr, ltb, ◌==◌, replicate, length-replicate,
  is_neg, if◌then◌else◌,
}
use wineing.Prelude.Memory.{Bytes}
use wineing.Ctrl.{WCtrl, cmd_shutdown, cmd_market_run}
use wineing.Proto.{Response}
use wineing.Chan.{chan_send-all}
use wineing.Control.{Env, InState, reply}
use wineing.Control.Owner.{IsOwner}
use wineing.Control.Spec.{down, told, phase}
use wineing.Reader.{Reader, read_shared}
use wineing.Reader.Fresh.{IsFresh, read_shared-IsFresh}
use wineing.Reader.Behind.{Behind-InSync}
use wineing.Market.{Action, action, market_turn, NxCore, NxTape, nxtape_process}
use wineing.Out.{OutTurn, OutState, out_buffer_size, pass_on}
use wineing.Out.Forward.{passed, pass_on-passed}
use wineing.Program.{
  InPc, listening, answering, in_done, OutPc, out_reading, out_receiving, out_closing, out_done,
  MarketPc, market_reading, in_nxcore, nx_stopping, market_done, World, InStep, OutStep, MarketStep,
  Step, Reach, here, next, after, start,
}
use wineing.Program.Invariant.{Inv, Bounded, coming, answer_count, guard-down, read-IsFresh}
use wineing.Program.Moves.Control.{reply-some}
use wineing.Program.Moves.Market.{market_turn-some, nxtape_process-some}

-- How many actions a thread can still take after a shutdown.
abbrev pub in_work : InPc → ℕ
in_work (answering res) = 2
in_work listening = 1
in_work in_done = 0

abbrev pub out_work : OutPc → ℕ
out_work out_receiving = 3
out_work out_reading = 2
out_work out_closing = 1
out_work out_done = 0

abbrev pub market_work : MarketPc → ℕ
market_work in_nxcore = 3
market_work nx_stopping = 2
market_work market_reading = 1
market_work market_done = 0

abbrev pub work : World → ℕ
work s = in_work s.in_pc + out_work s.out_pc + market_work s.market_pc

pub down-cmd : (s : InState) → told s ≡ down → s.shared.value.cmd ≡ cmd_shutdown
down-cmd s d = ground (arith, d)

-- A fresh reader leaves its loop.
pub after-down : (d : WCtrl) → d.cmd ≡ cmd_shutdown → after (action d) ≡ market_done
after-down d e = ground arith

-- What an action after a shutdown leads to: the shutdown stays, there is less to do, and no
-- request is processed.
abbrev pub Less : World → World → Type 0
Less s t = (told t.control ≡ down) × (work t < work s) × (t.heard ≡ s.heard)

InStep-Less : {env : Env} {s t : World} → Inv s → told s.control ≡ down → InStep env s t → Less s t
InStep-Less {s} v d (InStep.hears z n req res c i g h o p) =
    absurd (guard-down s.control v.owner g d)
InStep-Less {s} v d (InStep.hears_nothing z n req i g h o) =
    absurd (guard-down s.control v.owner g d)
InStep-Less {env} {s} v d (InStep.answers rc res c i h e) = (
  ap (λ x. phase x.shared.value.cmd) (reply-some env rc res s.control c e) ∙ d,
  omega (arith, ap in_work i),
  refl,
)
InStep-Less v d (InStep.in_leaves i g) = (d, omega (arith, ap in_work i), refl)

OutStep-Less : {s t : World} → Inv s → told s.control ≡ down → OutStep s t → Less s t
OutStep-Less {s} v d (OutStep.out_reads r p e c) =
    let f = read-IsFresh s.control s.out.reader r v.owner v.out_near e in
    absurd (ground (arith, c, f.shows.same_cmd, down-cmd s.control d))
OutStep-Less v d (OutStep.out_leaves r p e c) = (d, omega (arith, ap out_work p), refl)
OutStep-Less v d (OutStep.out_closes p) = (d, omega (arith, ap out_work p), refl)
OutStep-Less v d (OutStep.passes t m rest st p q a z l e) = (d, omega (arith, ap out_work p), refl)
OutStep-Less v d (OutStep.fails t st p a z e) = (d, omega (arith, ap out_work p), refl)

MarketStep-Less :
    {env : Env} {nx : NxCore} {s t : World}
    → nx.callback_stop ≢ nx.callback_continue
    → Inv s
    → told s.control ≡ down
    → MarketStep env nx s t
    → Less s t
MarketStep-Less {s} x v d (MarketStep.market_reads a r p e) =
    let (o, q) = market_turn-some s.control.shared s.market r a e in
    let f = read-IsFresh s.control s.market r v.owner v.market_near o in
    let c : after a ≡ market_done =
      ap after q ∙ after-down r.t_data (f.shows.same_cmd ∙ down-cmd s.control d) in
    (d, omega (arith, ap market_work p, ap market_work c), refl)
MarketStep-Less {env} {nx} {s} x v d (MarketStep.nx_calls message rc n p e) =
    let (f, q) = nxtape_process-some nx env.codec s message rc _ n v e in
    absurd (x (ground (arith, q, down-cmd s.control d)))
MarketStep-Less x v d (MarketStep.nx_stops message rc n p e) =
    (d, omega (arith, ap market_work p), refl)
MarketStep-Less x v d (MarketStep.nx_ends p) = (d, omega (arith, ap market_work p), refl)
MarketStep-Less x v d (MarketStep.nx_obeys p) = (d, omega (arith, ap market_work p), refl)

pub Step-Less :
    {env : Env} {nx : NxCore} {s t : World}
    → nx.callback_stop ≢ nx.callback_continue
    → Inv s
    → told s.control ≡ down
    → Step env nx s t
    → Less s t
Step-Less x v d (Step.control m) = InStep-Less v d m
Step-Less x v d (Step.out m) = OutStep-Less v d m
Step-Less x v d (Step.market m) = MarketStep-Less x v d m
