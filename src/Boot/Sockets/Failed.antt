-- ===== src/Boot/Sockets/Failed.antt =====
-- impl/all/core/wineing.cc: a thread that gave up has failed to open a channel.
use wineing.Prelude.{ℕ, ◌<◌, ◌≡◌, arith}
use wineing.Prelude.Memory.{Bytes}
use wineing.Control.{Env}
use wineing.Market.{NxCore}
use wineing.Boot.{Stage, failed, Boot, Endpoints, Opens, Step, Reach, here, next, boot}
use wineing.Boot.Sockets.{open_failures, failures}

Opens-failed :
    {fqcn : Bytes} {type : ℕ} {s : Boot} {a b : Stage} (o : Opens fqcn type s a b)
    → b ≡ failed
    → 0 < open_failures o
Opens-failed (Opens.binds z p q) e = absurd (cc e)
Opens-failed (Opens.gives_up z p q) e = omega arith
Opens-failed (Opens.connects z p h q) e = absurd (cc e)
Opens-failed (Opens.sleeps z p h q) e = absurd (cc e)

module _ (g i o m t : Bytes) {env : Env} {nx : NxCore} {e : Endpoints} where
  pub in_stage-failed :
      {n : ℕ} {s : Boot} (r : Reach env nx e (boot g i o m t) n s)
      → s.in_stage ≡ failed
      → 0 < failures r
  unfolding failures
  in_stage-failed here q = absurd (cc q)
  in_stage-failed (next r (Step.in_opens x)) q = omega (arith, Opens-failed x q)
  in_stage-failed (next r (Step.out_opens x)) q = omega (arith, in_stage-failed r q)
  in_stage-failed (next r (Step.market_opens x)) q = omega (arith, in_stage-failed r q)
  in_stage-failed (next r (Step.in_runs p st)) q = omega (arith, in_stage-failed r q)
  in_stage-failed (next r (Step.out_runs p st)) q = omega (arith, in_stage-failed r q)
  in_stage-failed (next r (Step.market_runs p st)) q = omega (arith, in_stage-failed r q)

  pub market_stage-failed :
      {n : ℕ} {s : Boot} (r : Reach env nx e (boot g i o m t) n s)
      → s.market_stage ≡ failed
      → 0 < failures r
  unfolding failures
  market_stage-failed here q = absurd (cc q)
  market_stage-failed (next r (Step.in_opens x)) q = omega (arith, market_stage-failed r q)
  market_stage-failed (next r (Step.out_opens x)) q = omega (arith, market_stage-failed r q)
  market_stage-failed (next r (Step.market_opens x)) q = omega (arith, Opens-failed x q)
  market_stage-failed (next r (Step.in_runs p st)) q = omega (arith, market_stage-failed r q)
  market_stage-failed (next r (Step.out_runs p st)) q = omega (arith, market_stage-failed r q)
  market_stage-failed (next r (Step.market_runs p st)) q = omega (arith, market_stage-failed r q)
