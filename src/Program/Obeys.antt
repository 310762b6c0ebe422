-- ===== src/Program/Obeys.antt =====
-- impl/all/core/wineing.cc and impl/wine/nx/nxtape.cc: the market thread and the NxCore callback
-- against the requests that the control thread has processed.
use native.Mathlib.Decide.{ℕ_discrete}
use wineing.Prelude.{ℕ, ℤ, ◌≡◌, subst, some, ne→==, ltb, if◌then◌else◌}
use wineing.Prelude.Memory.{Bytes}
use wineing.Ctrl.{cmd_market_run, cmd_market_stop, cmd_shutdown}
use wineing.Control.{Env}
use wineing.Control.Spec.{Phase, waiting, streaming, stopped, down, phase}
use wineing.Control.Loop.{reached}
use wineing.Reader.{Reader}
use wineing.Reader.Fresh.{read_shared-IsFresh}
use wineing.Reader.Behind.{Behind-InSync}
use wineing.Market.{Action, action, market_turn, NxCore, NxTape, nxtape_process}
use wineing.Market.Callback.{nxtape_process_lem}
use wineing.System.Delivery.{market_turn-read}
use wineing.System.Session.{Does, action-Does}
use wineing.Program.{World, Reach, start}
use wineing.Program.Invariant.{Bounded}
use wineing.Program.Answers.{asked}
use wineing.Program.Safety.{IsAllocated, reached-Inv, Reach-Told}

-- What the callback answers to NxCore in a phase. Before the first start NxCore does not run.
pub data Says (nx : NxCore) : Phase → ℤ → Type 0 where
  says_any : (c : ℤ) → Says nx waiting c
  says_continue : Says nx streaming nx.callback_continue
  says_stop : Says nx stopped nx.callback_stop
  says_leave : Says nx down nx.callback_stop

code-Says :
    (nx : NxCore) (c : ℕ)
    → Says nx (phase c) (if ltb c cmd_market_run then nx.callback_stop else nx.callback_continue)
code-Says nx c = elim (ℕ_discrete c cmd_market_run) [
  | yes p ↦ rw p Says.says_continue
  | no n ↦ elim (ℕ_discrete c cmd_market_stop) [
    | yes p ↦ rw p Says.says_stop
    | no k ↦ elim (ℕ_discrete c cmd_shutdown) [
      | yes p ↦ rw p Says.says_leave
      | no l ↦
          rw (ne→== c cmd_market_run n, ne→== c cmd_market_stop k, ne→== c cmd_shutdown l)
            (Says.says_any _)
    ]
  ]
]

module _ {env : Env} {nx : NxCore} {g i o m t : Bytes} (a : IsAllocated g i o m t) {n : ℕ}
    {s : World} (r : Reach env nx (start g i o m t) n s) (b : Bounded s) where
  -- In every order of the threads' actions, the market thread does at its next read what the last
  -- phase of the abstract machine asks for, after the requests that were processed: it sleeps before
  -- the first accepted start, runs NxCore while the market streams, stops after a stop, and leaves
  -- after a shutdown. The callback, at its next call, lets NxCore go on while the market streams and
  -- tells it to stop after a stop or a shutdown. Neither faults. Fewer than 2^32 - 1 requests have been
  -- processed.
  pub threads_obey :
      (message : ℕ) (rc : ℤ)
      → (act : Action) × (r' : Reader) × (code : ℤ) × (st : NxTape) × (market_turn s.control.shared
            s.market
          ≡ some (act, r'))
        × (nxtape_process nx env.codec s.control.shared message rc s.tape ≡ some (code, st))
        × Does (reached env waiting (asked s.heard)) act
        × Says nx (reached env waiting (asked s.heard)) code
  threads_obey message rc =
      let v = reached-Inv a r b in
      let p = (Reach-Told a r b).in_phase in
      let (r', e, f) =
        read_shared-IsFresh s.control.shared s.market v.owner.ready.shared_valid
          (Behind-InSync v.market_near.behind) in
      let (st, c, _, _) =
        nxtape_process_lem nx env.codec s.control.shared message rc s.tape
          v.owner.ready.shared_valid (Behind-InSync v.tape_near.behind) in
      let code : ℤ =
        if ltb s.control.shared.value.cmd cmd_market_run
        then nx.callback_stop
        else nx.callback_continue in
      (
        action r'.t_data,
        r',
        code,
        st,
        market_turn-read s.control.shared s.market r' e,
        c,
        subst (λ q. Does q (action r'.t_data)) p
            (subst (λ k. Does (phase k) (action r'.t_data)) f.shows.same_cmd
              (action-Does r'.t_data)),
        subst (λ q. Says nx q code) p (code-Says nx s.control.shared.value.cmd),
      )
