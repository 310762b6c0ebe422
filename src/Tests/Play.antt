-- ===== src/Tests/Play.antt =====
-- The whole program: a start request for a tape.
use wineing.Program.Delivery.{Delivered, answers_get_out}
use wineing.Control.{signal}
use wineing.Control.Owner.{published, with_tape}
use wineing.Prelude.{[], pos, ◌≡◌, refl, ◌∷◌, some, arith}
use wineing.Prelude.Memory.{Bytes, codes, c_string}
use wineing.Chan.{ZmqRecv}
use wineing.Proto.{Request, market_start, market_start_ok}
use wineing.Control.{respond, in_start}
use wineing.Control.Outcome.{IsTapeStart, after_tape, process-tape}
use wineing.Control.Round.{recv-request}
use wineing.Reader.{Reader}
use wineing.Market.{running, market_turn}
use wineing.Program.{World, InStep, Step, Reach, here, next, start}
use wineing.Program.Plays.{tape_plays}
use wineing.Tests.Data.{request, env, memory, memory-IsAllocated, s₀, s₀-IsOwner, nx, codec}

abbrev path : Bytes
path = codes "C:\\a.nx"

abbrev asks : Request
asks = request market_start (some (codes "a.nx"))

abbrev arrived : ZmqRecv
arrived = record { rc = pos 0; message = 3 ∷ codes "a.nx" }

asks-IsTapeStart : IsTapeStart env asks s₀ (codes "a.nx")
unfolding in_start
asks-IsTapeStart = record {
  starts = refl;
  not_running = λ e. omega arith;
  asked = refl;
  found = refl;
  fits = omega arith;
}

-- The request is processed.
abbrev tape_asked : (s : World) × Reach env nx (start memory memory memory memory memory) 1 s
unfolding in_start
tape_asked = (
  _,
  next here (
      Step.control (
        InStep.hears arrived (pos 5) asks (respond asks market_start_ok) (after_tape path s₀) refl
          refl (recv-request codec arrived asks refl refl (omega arith)) refl
          (process-tape env asks s₀ s₀-IsOwner.ready (codes "a.nx") asks-IsTapeStart))),
)

tape_plays_example :
    (m : Bytes) × (r : Reader) × (market_turn tape_asked.0.control.shared tape_asked.0.market
      ≡ some (running m, r))
    × (c_string m ≡ path)
unfolding in_start
tape_plays_example =
    tape_plays memory-IsAllocated path tape_asked.1 (omega arith) refl
      (λ e. cc, (λ e. cc, (λ e. cc, (λ e. cc, (λ e. cc, (λ e. cc, (λ e. cc, tt)))))))

-- The response to the start is delivered.
answers_get_out_example :
    Delivered env nx tape_asked.0 (codec.serialize_response (respond asks market_start_ok) ∷ [])
unfolding in_start signal published with_tape wineing.Ctrl.Copy.copied
answers_get_out_example =
    answers_get_out memory-IsAllocated tape_asked.1 (omega arith) (λ e. cc)
      (record { queued = tt; next = omega arith })
