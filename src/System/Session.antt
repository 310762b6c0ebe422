-- ===== src/System/Session.antt =====
-- impl/all/core/wineing.cc: what the market thread does after a whole conversation of the control
-- thread with its clients, most of which it may have missed.
use wineing.Prelude.{ℕ, ◌+◌, ◌^◌, ◌<◌, ◌≡◌, subst, List, Option, some, length, ne→==}
use native.Mathlib.Decide.{ℕ_discrete}
use wineing.Prelude.Memory.{Bytes}
use wineing.Ctrl.{WCtrl, cmd_market_run, cmd_market_stop, cmd_shutdown}
use wineing.Proto.{Request}
use wineing.Control.{Env, Turn, InState, in_loop}
use wineing.Control.Owner.{IsOwner}
use wineing.Control.Spec.{Phase, waiting, streaming, stopped, down, phase, told}
use wineing.Control.Updates.{Behind-Advanced}
use wineing.Control.Loop.{AllHear, reached, in_loop-converse}
use wineing.Reader.{Reader}
use wineing.Reader.Fresh.{read_shared-IsFresh}
use wineing.Reader.Behind.{Behind, Behind-InSync}
use wineing.Market.{Action, stopping, leaving, sleeping, running, action, market_turn}
use wineing.System.Delivery.{market_turn-read}

-- What a phase of the control protocol means to the market thread.
pub data Does : Phase → Action → Type 0 where
  sleeps : Does waiting sleeping
  plays : (m : Bytes) → Does streaming (running m)
  halts : Does stopped stopping
  leaves : Does down leaving

pub action-Does : (d : WCtrl) → Does (phase d.cmd) (action d)
action-Does d = elim (ℕ_discrete d.cmd cmd_market_run) [
  | yes p ↦ rw p (plays d.buffer)
  | no n ↦ elim (ℕ_discrete d.cmd cmd_market_stop) [
    | yes p ↦ rw p halts
    | no k ↦ elim (ℕ_discrete d.cmd cmd_shutdown) [
      | yes p ↦ rw p leaves
      | no l ↦
          rw
            (
              ne→== d.cmd cmd_market_run n,
              ne→== d.cmd cmd_market_stop k,
              ne→== d.cmd cmd_shutdown l,
            )
            sleeps
    ]
  ]
]

-- After any conversation of the control thread the market thread does at its next read what the
-- last phase of the abstract machine asks: it sleeps before the first accepted start, runs NxCore
-- while the market streams, stops after a stop, and leaves after a shutdown. It does so although it
-- may have missed all the updates, if with the earlier ones that it missed these are fewer than
-- 2^32, every receive gives an error or a message below 2^31 bytes, every send succeeds, and every
-- tape path fits in the buffer.
pub session_obeyed :
    (env : Env) (ts : List Turn) (qs : List (Option Request)) (s : InState) (k : ℕ) (r : Reader)
    → IsOwner s
    → s.shared.version < 2 ^ 32
    → AllHear env ts qs
    → Behind k s.shared r
    → k + length qs < 2 ^ 32
    → (s' : InState) × (a : Action) × (r' : Reader) × (in_loop env ts s ≡ some s')
      × (market_turn s'.shared r ≡ some (a, r'))
      × Does (reached env (told s) qs) a
session_obeyed env ts qs s k r w v h b l =
    let (s', o, w', _, p, a) = in_loop-converse env ts qs s w v h in
    let (r', e, f) =
      read_shared-IsFresh s'.shared r w'.ready.shared_valid
        (Behind-InSync (Behind-Advanced b a l)) in
    (
      s',
      action r'.t_data,
      r',
      o,
      market_turn-read s'.shared r r' e,
      subst (λ q. Does q (action r'.t_data)) p
          (subst (λ c. Does (phase c) (action r'.t_data)) f.shows.same_cmd (action-Does r'.t_data)),
    )
