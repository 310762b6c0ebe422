-- ===== src/Program/Answers.antt =====
-- impl/all/core/wineing.cc: what the clients get from the program, against the abstract machine.
pub mod Sublists
pub mod Turns
pub mod Moves
use mathlib.Core.List.{Sublistᴰ, append-nil, append_assoc}
use mathlib.Core.List.Sublistᴰ.{slnil, cons, cons-cons}
use wineing.Prelude.{
  ℕ, ℤ, pos, suc, ◌+◌, ◌^◌, ◌<◌, ◌≤◌, ◌≡◌, refl, sym, ap, ◌∙◌, subst, Bool, true, false, List, [],
  ◌∷◌, ◌++◌, map, Option, some, arith, length, length-append, is_neg, Bool-cases, inl, inr,
  if◌then◌else◌, ltb,
}
use wineing.Prelude.Memory.{Bytes}
use wineing.Ctrl.{cmd_shutdown}
use wineing.Proto.{Request, Response}
use wineing.Control.{Env, InState, process, in_start}
use wineing.Control.Spec.{Phase, phase, waiting, down, told, answer, process-Answered}
use wineing.Control.Loop.{is_down, converse, reached, converse-snoc, reached-snoc}
use wineing.Market.{NxCore}
use wineing.Reader.{Reader}
use wineing.Out.{out_buffer_size, OutTurn, OutState, pass_on}
use wineing.Out.Forward.{passed, pass_on-passed, pass_on-fits}
use wineing.Program.{
  InPc, listening, answering, in_done, out_reading, World, InStep, OutStep, MarketStep, Step,
  enqueue, start,
}
use wineing.Program.Invariant.{Inv, answer_count, guard-down}
use wineing.Program.Moves.Control.{reply-some}

-- The responses of the abstract machine to the requests, as messages.
abbrev pub asked : List Request → List (Option Request)
asked [] = []
asked (r ∷ rs) = some r ∷ asked rs

abbrev pub expected : Env → List Request → List Bytes
expected env rs = map env.codec.serialize_response (converse env waiting (asked rs))

-- The response on its way to the inproc channel.
abbrev pub pending : Env → InPc → List Bytes
pending env (answering res) = env.codec.serialize_response res ∷ []
pending env _ = []

pub length-pending : (env : Env) (p : InPc) → length (pending env p) ≡ answer_count p
length-pending env listening = refl
length-pending env in_done = refl
length-pending env (answering res) = refl

-- What is delivered, on its way, or lost.
pub record Told (env : Env) (s : World) : Type 0 where
  pub in_phase : told s.control ≡ reached env waiting (asked s.heard)
  pub kept : Sublistᴰ ((s.out.sent ++ s.queue) ++ pending env s.in_pc) (expected env s.heard)
  pub counted :
      length s.out.sent + length s.queue + answer_count s.in_pc + s.unsent + s.dropped
      ≡ length (expected env s.heard)

pub start-Told : (env : Env) (g i o m t : Bytes) → Told env (start g i o m t)
unfolding in_start
start-Told env g i o m t = record { in_phase = refl; kept = slnil; counted = refl }
