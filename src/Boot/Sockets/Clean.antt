-- ===== src/Boot/Sockets/Clean.antt =====
-- impl/all/net/chan.cc: runs in which no attempt to open a channel fails.
use wineing.Prelude.{ℕ, suc, ◌≡◌, refl, subst, arith}
use wineing.Control.{Env}
use wineing.Market.{NxCore}
use wineing.Boot.{Boot, Endpoints, Step, Reach, here, next}
use wineing.Boot.Sockets.{step_failures, failures, StepSocket, AllSockets}

module _ {env : Env} {nx : NxCore} {e : Endpoints} where
  -- No attempt fails, and ZeroMQ gives a socket at each.
  pub record Clean {b : Boot} {n : ℕ} {s : Boot} (r : Reach env nx e b n s) : Type 0 where
    pub fails : failures r ≡ 0
    pub gives : AllSockets r

  pub here-Clean : {b : Boot} → Clean {b = b} here
  unfolding failures
  here-Clean = record { fails = refl; gives = tt }

  pub next-Clean :
      {b : Boot} {n : ℕ} {s t : Boot} {r : Reach env nx e b n s} (st : Step env nx e s t)
      → step_failures st ≡ 0
      → StepSocket st
      → Clean r
      → Clean (next r st)
  unfolding failures
  next-Clean st f h c = record { fails = omega (arith, c.fails, f); gives = (c.gives, h) }

  pub still-Clean : {b s : Boot} → b ≡ s → (r : Reach env nx e b 0 s) × Clean r
  still-Clean {b} p = subst (λ t. (r : Reach env nx e b 0 t) × Clean r) p (here, here-Clean)

  before-Clean :
      {b : Boot} {n : ℕ} {s t : Boot} {r : Reach env nx e b n s} (st : Step env nx e s t)
      → Clean (next r st)
      → Clean r × ((step_failures st ≡ 0) × StepSocket st)
  unfolding failures
  before-Clean st c = (
    record { fails = omega (arith, c.fails); gives = c.gives.0 },
    (omega (arith, c.fails), c.gives.1),
  )

  -- One run after another.
  pub Clean-trans :
      {b : Boot} {n : ℕ} {s : Boot} {k : ℕ} {u : Boot} (r : Reach env nx e b n s)
      (q : Reach env nx e s k u)
      → Clean r
      → Clean q
      → (j : ℕ) × (p : Reach env nx e b j u) × Clean p
  Clean-trans {n = n} r here c d = (n, r, c)
  Clean-trans r (next q st) c d =
      let (x, (f, h)) = before-Clean st d in
      let (j, p, y) = Clean-trans r q c x in (suc j, next p st, next-Clean st f h y)
