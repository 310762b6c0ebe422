-- ===== src/Tests/Threads.antt =====
-- The market thread, the callback and the outgoing thread at concrete states.
use wineing.Prelude.{ℤ, pos, negsuc, inr, ◌≡◌, refl, List, [], ◌∷◌, none, some, arith, replicate}
use wineing.Prelude.Memory.{Bytes}
use wineing.Ctrl.{WCtrl, cmd_shutdown}
use wineing.Conc.{Shared}
use wineing.Proto.{Request, Response, market_start, shutdown, market_start_ok, shutdown_ok, err}
use wineing.Control.{signal, InState, process, respond, respond_err, not_found, in_start}
use wineing.Control.Owner.{no_tape, published}
use wineing.Control.Cases.{tape_path}
use wineing.Reader.{Reader}
use wineing.Reader.Behind.{Behind-InSync}
use wineing.Startup.{Progress}
use wineing.Market.Loop.{Serves, market_thread_lem}
use wineing.Market.{Action, market_thread, market_turn, running}
use wineing.Out.{OutTurn, OutState, out_turn, out_loop, cchan_out_thread}
use wineing.Out.Start.{Passes, cchan_out_thread_lem}
use wineing.Out.Forward.{forwarded, out_loop-forwarded}
use wineing.System.Delivery.{live_replays}
use wineing.System.Unanswered.{shutdown_unanswered}
use wineing.Control.Outcome.{process-shutdown}
use wineing.System.Overflow.{missing_overflows}
use wineing.Tests.Data.{
  request, env, empty_disk, memory, length-memory, s₀, s₀-IsOwner, s₀-Later, reader, reader-Behind,
  codec, codec-HoldsText,
}

abbrev stream : Request
stream = request market_start none

live_replays_example :
    (s' : InState) × (r' : Reader) × (process env stream s₀
      ≡ some (respond stream market_start_ok, s'))
    × (market_turn s'.shared reader ≡ some (running reader.t_data.buffer, r'))
    × (s'.shared.value.size ≡ 0)
unfolding in_start
live_replays_example =
    live_replays env stream s₀ 1 reader s₀-IsOwner
      (record { starts = refl; not_running = λ e. omega arith; asked = refl }) reader-Behind
      (omega arith)

-- One message, and a round after it.
abbrev out_turn_at : Bytes → OutTurn
out_turn_at m = record {
  shared = s₀.shared;
  memory = memory;
  received = record { rc = pos 0; message = m };
  send_rc = pos 0;
}

abbrev out_state : OutState
out_state = record { reader = reader; sent = [] }

abbrev two_rounds : List OutTurn
two_rounds = out_turn_at (1 ∷ 2 ∷ []) ∷ out_turn_at (3 ∷ []) ∷ []

two_rounds-Chain : wineing.Out.Forward.Chain two_rounds
two_rounds-Chain = (
  s₀-IsOwner.ready.shared_valid,
  length-memory,
  inr (refl, omega arith),
  s₀-Later,
  (s₀-IsOwner.ready.shared_valid, length-memory, inr (refl, omega arith), tt, tt),
)

-- A file name of 1100 bytes.
abbrev long_name : Bytes
long_name = replicate 1100 b'x'

abbrev long_request : Request
long_request = request market_start (some long_name)

abbrev long_response : Response
long_response = respond_err long_request err (not_found (tape_path empty_disk long_name))

missing_overflows_example :
    (process empty_disk long_request s₀ ≡ some (long_response, no_tape s₀))
    × (out_turn (out_turn_at (codec.serialize_response long_response)) out_state ≡ none)
unfolding in_start
missing_overflows_example =
    missing_overflows empty_disk long_request s₀ long_name
      (out_turn_at (codec.serialize_response long_response)) out_state s₀-IsOwner.ready
      codec-HoldsText
      (record { starts = refl; not_running = λ e. omega arith; asked = refl; absent = refl })
      (omega arith)
      (record {
        received = refl;
        message = refl;
        small = omega arith;
        allocated = length-memory;
        valid = s₀-IsOwner.ready.shared_valid;
        synced = Behind-InSync reader-Behind;
        goes_on = λ e. omega arith;
      })

-- The inproc channel is there at the second attempt, and the block is read twice.
abbrev attempts : List ℤ
attempts = negsuc 0 ∷ pos 0 ∷ []

abbrev reads : List (Shared WCtrl)
reads = s₀.shared ∷ s₀.shared ∷ []

market_thread_lem_example :
    (p : Progress (List Action)) × (market_thread (pos 0) attempts memory reads ≡ some p)
    × Serves (pos 0) attempts reads p
unfolding in_start
market_thread_lem_example =
    market_thread_lem (pos 0) attempts memory reads length-memory
      (s₀-IsOwner.ready.shared_valid, s₀-Later, (s₀-IsOwner.ready.shared_valid, tt, tt))
      (λ e. omega (arith, e))

cchan_out_thread_lem_example :
    (p : Progress OutState) × (cchan_out_thread (pos 0) (pos 0) memory two_rounds ≡ some p)
    × Passes (pos 0) (pos 0) two_rounds p
unfolding in_start
cchan_out_thread_lem_example =
    cchan_out_thread_lem (pos 0) (pos 0) memory two_rounds length-memory two_rounds-Chain
      (λ e. omega (arith, e))

-- The response waits, and the round reads the block that the shutdown left.
abbrev shut_at : OutTurn
shut_at = record {
  shared = (published cmd_shutdown s₀).shared;
  memory = memory;
  received = record { rc = pos 0; message = 2 ∷ [] };
  send_rc = pos 0;
}

shutdown_unanswered_example :
    (st' : OutState) × (respond (request shutdown none) shutdown_ok
      ≡ respond (request shutdown none) shutdown_ok)
    × (out_loop (shut_at ∷ two_rounds) out_state ≡ some st')
    × (st'.sent ≡ [])
unfolding in_start signal
shutdown_unanswered_example =
    shutdown_unanswered env (request shutdown none) s₀ (signal (published cmd_shutdown s₀))
      (respond (request shutdown none) shutdown_ok) 1 shut_at two_rounds out_state s₀-IsOwner refl
      (process-shutdown env (request shutdown none) s₀ s₀-IsOwner.ready refl) refl reader-Behind
      (omega arith)
