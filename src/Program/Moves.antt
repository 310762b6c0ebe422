-- ===== src/Program/Moves.antt =====
-- impl/all/core/wineing.cc: every action keeps the invariant of the program.
pub mod Control
pub mod Out
pub mod Market
use wineing.Prelude.{
  ℕ, ℤ, suc, ◌+◌, ◌^◌, ◌≤◌, ◌<◌, ◌≡◌, ◌≢◌, refl, sym, ap, ◌∙◌, subst, Bool, true, false, List, [],
  ◌∷◌, ◌++◌, Option, some, none, ltb, length, length-append, arith, Bool-cases, inl, inr, ◌==◌,
  eq→==, is_neg, size_of_int, if◌then◌else◌,
}
use wineing.Prelude.Memory.{Bytes, ◌>>=◌, >>=-eq-some}
use wineing.Ctrl.{WCtrl, cmd_market_run, cmd_shutdown}
use wineing.Conc.{Shared}
use wineing.Chan.{chan_recv, chan_send, chan_send-all}
use wineing.Proto.{Codec, Request, Response}
use wineing.Control.{Env, InState, process, reply}
use wineing.Control.Owner.{IsOwner}
use wineing.Control.Spec.{down, told, process-Answered}
use wineing.Control.Updates.{Advanced, process-Advanced}
use wineing.Control.Round.{sent-IsOwner}
use wineing.Reader.{Reader, read_shared}
use wineing.Reader.Fresh.{IsFresh}
use wineing.Market.{Action, action, market_turn, NxCore, NxTape, nxtape_process}
use wineing.Market.Callback.{nxtape_process_lem}
use wineing.Reader.Behind.{Behind-InSync}
use wineing.Out.{OutTurn, OutState, cchan_in_mem_copy, pass_on}
use wineing.Program.{
  InPc, listening, answering, in_done, OutPc, out_reading, out_receiving, out_done, MarketPc,
  market_reading, in_nxcore, nx_stopping, market_done, World, InStep, OutStep, MarketStep, Step,
  after, enqueue,
}
use wineing.Program.Invariant.{
  Near, Inv, Bounded, coming, answer_count, Near-next, Near-weaken, IsFresh-Near, guard-down,
  guard-up, read-IsFresh,
}
use wineing.Program.Moves.Control.{InStep-Inv}
use wineing.Program.Moves.Out.{OutStep-Inv}
use wineing.Program.Moves.Market.{MarketStep-Inv}

-- Every action keeps the invariant, if fewer than 2^32 - 1 requests are processed.
pub Step-Inv : {env : Env} {nx : NxCore} {s t : World} → Step env nx s t → Bounded t → Inv s → Inv t
Step-Inv (Step.control m) b v = InStep-Inv m b v
Step-Inv (Step.out m) b v = OutStep-Inv m v
Step-Inv (Step.market m) b v = MarketStep-Inv m v

-- The number of requests never falls.
pub Step-heard :
    {env : Env} {nx : NxCore} {s t : World} → Step env nx s t → length s.heard ≤ length t.heard
Step-heard {s} (Step.control (InStep.hears z n req res c i g h o p)) =
    omega (arith, length-append s.heard (req ∷ []))
Step-heard (Step.control (InStep.hears_nothing z n req i g h o)) = omega arith
Step-heard (Step.control (InStep.answers rc res c i h e)) = omega arith
Step-heard (Step.control (InStep.in_leaves i g)) = omega arith
Step-heard (Step.out (OutStep.out_reads r p e c)) = omega arith
Step-heard (Step.out (OutStep.out_leaves r p e c)) = omega arith
Step-heard (Step.out (OutStep.out_closes p)) = omega arith
Step-heard (Step.out (OutStep.passes t m rest st p q a z l e)) = omega arith
Step-heard (Step.out (OutStep.fails t st p a z e)) = omega arith
Step-heard (Step.market (MarketStep.market_reads a r p e)) = omega arith
Step-heard (Step.market (MarketStep.nx_calls message rc n p e)) = omega arith
Step-heard (Step.market (MarketStep.nx_stops message rc n p e)) = omega arith
Step-heard (Step.market (MarketStep.nx_ends p)) = omega arith
Step-heard (Step.market (MarketStep.nx_obeys p)) = omega arith
