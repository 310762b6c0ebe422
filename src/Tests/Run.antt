-- ===== src/Tests/Run.antt =====
-- The whole program: a shutdown request, its response, and the control thread's end.
use wineing.Program.Prompt.{stop_is_prompt}
use wineing.Program.Calls.State.{Ran}
use wineing.Program.Calls.Uses.{readers_data, uses_calls}
use wineing.Threads.Atomic.{begin}
use wineing.Prelude.{
  ◌+◌, inr, ◌<◌, ◌⊎◌, negsuc, some, none, pos, ◌≤◌, ◌≡◌, ◌≢◌, refl, inl, [], ◌∷◌, ◌++◌, arith,
  length, ℤ,
}
use mathlib.Core.List.{Sublistᴰ}
use wineing.Ctrl.{w_ctrl_init, cmd_shutdown, cmd_init, copy_shared_to_local}
use wineing.Proto.{shutdown, shutdown_ok}
use wineing.Chan.{ZmqRecv}
use wineing.Control.{respond, signal, in_start}
use wineing.Control.Owner.{published}
use wineing.Control.Outcome.{process-shutdown}
use wineing.Control.Round.{recv-request}
use wineing.Control.Spec.{down, told}
use wineing.Program.{World, InStep, Step, Reach, here, next, start, listening, out_reading}
use wineing.Program.Answers.{expected, pending}
use wineing.Program.Safety.{answers_in_order, leaves_after_shutdown}
use wineing.Program.Ending.Onward.{Flows, reply-sent}
use wineing.Program.Ending.Bound.{shutdown_is_short}
use wineing.Reader.{Reader}
use wineing.Market.{Action, market_turn, NxTape, nxtape_process}
use wineing.System.Session.{Does}
use wineing.Control.{reply}
use wineing.Chan.{chan_send}
use wineing.Program.Obeys.{Says, threads_obey}
use wineing.Tests.Data.{memory-IsAllocated, request, env, memory, s₀, s₀-IsOwner, nx, codec}

abbrev w₀ : World
w₀ = start memory memory memory memory memory

abbrev heard : ZmqRecv
heard = record { rc = pos 0; message = 2 ∷ [] }

-- The request is processed.
abbrev shut : (s : World) × Reach env nx w₀ 1 s
unfolding in_start
shut = (
  _,
  next here (
      Step.control (
        InStep.hears heard (pos 1) (request shutdown none)
          (respond (request shutdown none) shutdown_ok) (signal (published cmd_shutdown s₀)) refl
          refl (recv-request codec heard (request shutdown none) refl refl (omega arith)) refl
          (process-shutdown env (request shutdown none) s₀ s₀-IsOwner.ready refl))),
)

-- The response is sent.
abbrev replied : (s : World) × Reach env nx w₀ 2 s
unfolding in_start
replied = (
  _,
  next shut.1 (
      Step.control (
        InStep.answers (pos 0) (respond (request shutdown none) shutdown_ok) _ refl refl (
          reply-sent env (respond (request shutdown none) shutdown_ok)
            (signal (published cmd_shutdown s₀))))),
)

-- The control thread leaves its loop.
abbrev left : (s : World) × Reach env nx w₀ 3 s
unfolding in_start signal published
left = (_, next replied.1 (Step.control (InStep.in_leaves refl refl)))

answers_in_order_example :
    Sublistᴰ
      ((replied.0.out.sent ++ replied.0.queue) ++ pending env replied.0.in_pc)
      (expected env (request shutdown none ∷ []))
    × (1 ≡ length (expected env (request shutdown none ∷ [])))
    × ((0 < 0)
        ⊎ (((replied.0.out.sent ++ replied.0.queue) ++ pending env replied.0.in_pc)
            ≡ expected env (request shutdown none ∷ [])))
unfolding in_start signal published
answers_in_order_example = answers_in_order memory-IsAllocated replied.1 (omega arith)

leaves_after_shutdown_example : told left.0.control ≡ down
unfolding in_start signal published
leaves_after_shutdown_example =
    leaves_after_shutdown memory-IsAllocated left.1 (omega arith) (inl refl)

codes_differ : nx.callback_stop ≢ nx.callback_continue
codes_differ e = cc

shut-Flows : Flows env shut.0
unfolding in_start signal published
shut-Flows = record { queued = tt; next = omega arith; sent = refl; connected = refl }

shutdown_is_short_example : 1 ≤ 8
unfolding in_start signal published wineing.Ctrl.Copy.copied
shutdown_is_short_example =
    shutdown_is_short memory-IsAllocated codes_differ shut.1 refl
      (next here (
        Step.control (
          InStep.answers (pos 0) (respond (request shutdown none) shutdown_ok) _ refl refl (
            reply-sent env (respond (request shutdown none) shutdown_ok)
              (signal (published cmd_shutdown s₀))))))
      (omega arith)

threads_obey_example :
    (act : Action) × (r' : Reader) × (code : ℤ) × (st : NxTape) × (market_turn left.0.control.shared
        left.0.market
      ≡ some (act, r'))
    × (nxtape_process nx env.codec left.0.control.shared 0 (pos 0) left.0.tape ≡ some (code, st))
    × Does down act
    × Says nx down code
unfolding in_start signal published wineing.Ctrl.Copy.copied
threads_obey_example = threads_obey memory-IsAllocated left.1 (omega arith) 0 (pos 0)

-- The response is lost.
reply-lost :
    reply env (negsuc 0) (respond (request shutdown none) shutdown_ok, shut.0.control)
    ≡ some shut.0.control
unfolding reply chan_send in_start
reply-lost = refl

abbrev lost : (s : World) × Reach env nx w₀ 2 s
unfolding in_start
lost = (
  _,
  next shut.1 (
      Step.control (
        InStep.answers (negsuc 0) (respond (request shutdown none) shutdown_ok) _ refl refl
          reply-lost)),
)

stop_is_prompt_example : 0 ≤ 0 + 1
unfolding in_start signal published wineing.Ctrl.Copy.copied
stop_is_prompt_example =
    stop_is_prompt memory-IsAllocated codes_differ shut.1 (inr refl)
      (next here (
        Step.control (
          InStep.answers (pos 0) (respond (request shutdown none) shutdown_ok) _ refl refl (
            reply-sent env (respond (request shutdown none) shutdown_ok)
              (signal (published cmd_shutdown s₀))))))
      (omega arith) refl

uses_calls_example :
    Ran (begin (w_ctrl_init memory) (w_ctrl_init memory) (readers_data memory memory memory)) left.0
unfolding in_start signal published
uses_calls_example = uses_calls memory memory memory memory memory left.1
