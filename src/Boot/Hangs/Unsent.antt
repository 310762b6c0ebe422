-- ===== src/Boot/Hangs/Unsent.antt =====
-- impl/all/core/wineing.cc: the send of the response to a shutdown, when the inproc channel is closed.
use wineing.Prelude.{ℕ, ◌≡◌, ◌≢◌, ◌∙◌, inl, inr}
use wineing.Proto.{Response}
use wineing.Control.{Env}
use wineing.Market.{NxCore}
use wineing.Program.{answering, World, out_done, InStep}
use wineing.Boot.Safety.{Returned}
use wineing.Boot.{inside, Boot, Endpoints, Step, Reach, here, next}
use wineing.Boot.Invariant.{Opens-outside}
use wineing.Boot.Sockets.Places.{MarketStep-in_pc}
use wineing.Boot.Hangs.{MarketStep-out_pc, out_left}

-- The control thread has a response to send when the inproc channel is closed.
pub record Unsendable (res : Response) (s : Boot) : Type 0 where
  pub in_inside : s.in_stage ≡ inside
  pub to_send : s.program.in_pc ≡ answering res
  pub closed : s.program.out_pc ≡ out_done

InStep-Unsendable :
    {env : Env} {res : Response} {s t : World}
    → InStep env s t
    → s.in_pc ≡ answering res
    → s.out_pc ≢ out_done
InStep-Unsendable (InStep.hears z n req res c i g h o p) w d = cc
InStep-Unsendable (InStep.hears_nothing z n req i g h o) w d = cc
InStep-Unsendable (InStep.answers rc res c i h e) w d = cc (d, h)
InStep-Unsendable (InStep.in_leaves i g) w d = cc

Step-Unsendable :
    {env : Env} {nx : NxCore} {e : Endpoints} {res : Response} {s t : Boot}
    → Step env nx e s t
    → Unsendable res s
    → Unsendable res t
Step-Unsendable (Step.in_opens o) u = absurd (Opens-outside o u.in_inside)
Step-Unsendable (Step.out_opens o) u = record {
  in_inside = u.in_inside;
  to_send = u.to_send;
  closed = u.closed;
}
Step-Unsendable (Step.market_opens o) u = record {
  in_inside = u.in_inside;
  to_send = u.to_send;
  closed = u.closed;
}
Step-Unsendable (Step.in_runs p st) u = absurd (InStep-Unsendable st u.to_send u.closed)
Step-Unsendable (Step.out_runs p st) u = absurd (out_left st u.closed)
Step-Unsendable (Step.market_runs p st) u = record {
  in_inside = u.in_inside;
  to_send = MarketStep-in_pc st ∙ u.to_send;
  closed = MarketStep-out_pc st ∙ u.closed;
}

Reach-Unsendable :
    {env : Env} {nx : NxCore} {e : Endpoints} {res : Response} {s t : Boot} {n : ℕ}
    → Reach env nx e s n t
    → Unsendable res s
    → Unsendable res t
Reach-Unsendable here u = u
Reach-Unsendable (next r st) u = Step-Unsendable st (Reach-Unsendable r u)

-- If the response thread has read a shutdown and closed the inproc channel before the control thread
-- sends the response to it, then the control thread never leaves that send, so no action takes the
-- response over and `wineing_run` never returns.
pub late_response_hangs :
    {env : Env} {nx : NxCore} {e : Endpoints} {res : Response} {s t : Boot} {n : ℕ}
    → Unsendable res s
    → Reach env nx e s n t
    → Unsendable res t × (¬ Returned t)
late_response_hangs u r = let v = Reach-Unsendable r u in (v, λ d. not_back v d)
  where
    not_back : {res : Response} {t : Boot} → Unsendable res t → Returned t → ⊥
    not_back v d = elim d.of_in [ inl q ↦ cc (v.in_inside, q) | inr q ↦ cc (v.to_send, q.1) ]
