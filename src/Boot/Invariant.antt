-- ===== src/Boot/Invariant.antt =====
-- impl/all/core/wineing.cc: what holds in every state that `wineing_run` reaches, and its runs as runs
-- of the loops.
use wineing.Prelude.{ℕ, ◌≡◌, ◌≢◌, refl, ap, ◌∙◌, ◌⊎◌, inl, inr, true, false, arith, Bool-cases}
use wineing.Prelude.Memory.{Bytes}
use wineing.Control.{Env, InState, in_start}
use wineing.Control.Spec.{waiting, told}
use wineing.Market.{NxCore}
use wineing.Chan.Socket.{Zmq, chan_init, chan_bind, chan_type_push_connect}
use wineing.Chan.Sockets.{ichan_name}
use wineing.Program.{World, OutStep, MarketStep}
use wineing.Boot.{
  Stage, inside, OutStage, out_inside, out_failed, Boot, Endpoints, has_inproc, bind_fails,
  IsInproc, Opens, OutOpens, Step, Reach, here, next, boot,
}

-- A connect succeeds only while the inproc channel is bound.
pub connects-has_inproc :
    (z : Zmq) (s : Boot)
    → IsInproc z s
    → bind_fails z ichan_name chan_type_push_connect ≡ false
    → has_inproc s ≡ true
unfolding chan_bind chan_init
connects-has_inproc z s h e = elim (Bool-cases (has_inproc s)) [
  | inl b ↦ b
  | inr b ↦ absurd (ground (arith, e, h b))
]

has_inproc-inside : (s : Boot) → has_inproc s ≡ true → s.out_stage ≡ out_inside
has_inproc-inside s h = ground arith

-- A thread that has passed its connect found the inproc channel, and before the control thread is
-- past its own no command was published.
pub record Inv (s : Boot) : Type 0 where
  pub in_linked : s.in_stage ≡ inside → s.out_stage ≡ out_inside
  pub market_linked : s.market_stage ≡ inside → s.out_stage ≡ out_inside
  pub quiet : (s.in_stage ≡ inside) ⊎ (told s.program.control ≡ waiting)

pub boot-Inv : (g i o m t : Bytes) → Inv (boot g i o m t)
unfolding in_start
boot-Inv g i o m t = record { in_linked = λ e. cc; market_linked = λ e. cc; quiet = inr refl }

-- A thread that opens its channels gets inside only with the inproc channel.
pub Opens-inside :
    {fqcn : Bytes} {type : ℕ} {s : Boot} {a b : Stage}
    → Opens fqcn type s a b
    → a ≢ inside
    → b ≡ inside
    → has_inproc s ≡ true
Opens-inside (Opens.binds z p q) n e = absurd (ground arith)
Opens-inside (Opens.gives_up z p q) n e = absurd (ground arith)
Opens-inside {s} (Opens.connects z p h q) n e = connects-has_inproc z s h q
Opens-inside (Opens.sleeps z p h q) n e = absurd (ground arith)

pub Opens-outside :
    {fqcn : Bytes} {type : ℕ} {s : Boot} {a b : Stage} → Opens fqcn type s a b → a ≢ inside
Opens-outside (Opens.binds z p q) e = cc
Opens-outside (Opens.gives_up z p q) e = cc
Opens-outside (Opens.connects z p h q) e = cc
Opens-outside (Opens.sleeps z p h q) e = cc

pub OutOpens-outside : {fqcn : Bytes} {a b : OutStage} → OutOpens fqcn a b → a ≢ out_inside
OutOpens-outside (OutOpens.binds_out z p q) e = cc
OutOpens-outside (OutOpens.gives_up_out z p q) e = cc
OutOpens-outside (OutOpens.binds_inproc z p q) e = cc
OutOpens-outside (OutOpens.gives_up_inproc z p q) e = cc

pub OutOpens-running : {fqcn : Bytes} {a b : OutStage} → OutOpens fqcn a b → a ≢ out_failed
OutOpens-running (OutOpens.binds_out z p q) e = cc
OutOpens-running (OutOpens.gives_up_out z p q) e = cc
OutOpens-running (OutOpens.binds_inproc z p q) e = cc
OutOpens-running (OutOpens.gives_up_inproc z p q) e = cc

OutStep-control : {s t : World} → OutStep s t → t.control ≡ s.control
OutStep-control (OutStep.out_reads r p e c) = refl
OutStep-control (OutStep.out_leaves r p e c) = refl
OutStep-control (OutStep.out_closes p) = refl
OutStep-control (OutStep.passes t m rest st p q a z l e) = refl
OutStep-control (OutStep.fails t st p a z e) = refl

MarketStep-control :
    {env : Env} {nx : NxCore} {s t : World} → MarketStep env nx s t → t.control ≡ s.control
MarketStep-control (MarketStep.market_reads a r p e) = refl
MarketStep-control (MarketStep.nx_calls message rc n p e) = refl
MarketStep-control (MarketStep.nx_stops message rc n p e) = refl
MarketStep-control (MarketStep.nx_ends p) = refl
MarketStep-control (MarketStep.nx_obeys p) = refl

-- The program's part of the invariant, when another thread than the control thread acts.
still_quiet :
    {a : Stage} (c d : InState)
    → d ≡ c
    → (a ≡ inside) ⊎ (told c ≡ waiting)
    → (a ≡ inside) ⊎ (told d ≡ waiting)
still_quiet c d e (inl i) = inl i
still_quiet c d e (inr q) = inr (ap told e ∙ q)

in_opens-Inv :
    {fqcn : Bytes} {type : ℕ} {s : Boot} {a : Stage}
    → Opens fqcn type s s.in_stage a
    → Inv s
    → Inv (record s { in_stage = a })
in_opens-Inv {s} o v = record {
  in_linked = λ p. has_inproc-inside s (Opens-inside o (Opens-outside o) p);
  market_linked = v.market_linked;
  quiet = elim v.quiet [ inl i ↦ absurd (Opens-outside o i) | inr q ↦ inr q ];
}

-- Every action keeps the invariant.
pub Step-Inv :
    {env : Env} {nx : NxCore} {e : Endpoints} {s t : Boot} → Step env nx e s t → Inv s → Inv t
Step-Inv (Step.in_opens o) v = in_opens-Inv o v
Step-Inv (Step.out_opens o) v = record {
  in_linked = λ p. absurd (OutOpens-outside o (v.in_linked p));
  market_linked = λ p. absurd (OutOpens-outside o (v.market_linked p));
  quiet = v.quiet;
}
Step-Inv {s} (Step.market_opens o) v = record {
  in_linked = v.in_linked;
  market_linked = λ p. has_inproc-inside s (Opens-inside o (Opens-outside o) p);
  quiet = v.quiet;
}
Step-Inv (Step.in_runs i m) v = record {
  in_linked = v.in_linked;
  market_linked = v.market_linked;
  quiet = inl i;
}
Step-Inv (Step.out_runs i m) v = record {
  in_linked = v.in_linked;
  market_linked = v.market_linked;
  quiet = still_quiet _ _ (OutStep-control m) v.quiet;
}
Step-Inv (Step.market_runs i m) v = record {
  in_linked = v.in_linked;
  market_linked = v.market_linked;
  quiet = still_quiet _ _ (MarketStep-control m) v.quiet;
}

pub Reach-Inv :
    {env : Env} {nx : NxCore} {e : Endpoints} {s t : Boot} {n : ℕ}
    → Inv s
    → Reach env nx e s n t
    → Inv t
Reach-Inv v here = v
Reach-Inv v (next r st) = Step-Inv st (Reach-Inv v r)
