-- ===== src/Tests/Control.antt =====
-- The control thread at concrete requests.
use wineing.Prelude.{◌≡◌, List, [], ◌∷◌, Option, none, some, arith}
use wineing.Proto.{Request, market_start, market_stop, shutdown}
use wineing.Control.{Turn, InState, process}
use wineing.Control.Owner.{IsOwner}
use wineing.Control.Spec.{told, answer, process-answer}
use wineing.Tests.Data.{request, env, s₀, s₀-IsOwner, turn}

-- A start for a tape, a message that does not parse, a stop, a shutdown, and a start after it.
abbrev turns : List Turn
turns = turn (3 ∷ b'a' ∷ []) ∷ turn (9 ∷ []) ∷ turn (1 ∷ []) ∷ turn (2 ∷ []) ∷ turn (0 ∷ []) ∷ []

abbrev heard : List (Option Request)
heard =
    some (request market_start (some (b'a' ∷ [])))
    ∷ none
    ∷ some (request market_stop none)
    ∷ some (request shutdown none)
    ∷ some (request market_start none)
    ∷ []

abbrev tape_request : Request
tape_request = request market_start (some (b'a' ∷ []))

process-answer_example :
    (s' : InState) × (process env tape_request s₀
      ≡ some ((answer env (told s₀) tape_request).0, s'))
    × (told s' ≡ (answer env (told s₀) tape_request).1)
    × IsOwner s'
    × (s'.sent ≡ s₀.sent)
process-answer_example = process-answer env tape_request s₀ s₀-IsOwner (omega arith)
