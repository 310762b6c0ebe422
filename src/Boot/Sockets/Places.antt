-- ===== src/Boot/Sockets/Places.antt =====
-- impl/all/core/wineing.cc: a thread that is not in its loop has not ended it.
use wineing.Prelude.{◌≡◌, ◌≢◌, refl, ◌⊎◌, inl, inr}
use wineing.Control.{Env}
use wineing.Market.{NxCore}
use wineing.Program.{World, in_done, out_done, market_done, InStep, OutStep, MarketStep}
use wineing.Boot.{Boot, Endpoints, inside, out_inside, Step}
use wineing.Boot.Invariant.{Opens-outside, OutOpens-outside}
use wineing.Boot.Hangs.{InStep-out_pc, MarketStep-out_pc}

pub record Placed (s : Boot) : Type 0 where
  pub in_placed : (s.in_stage ≡ inside) ⊎ (s.program.in_pc ≢ in_done)
  pub out_placed : (s.out_stage ≡ out_inside) ⊎ (s.program.out_pc ≢ out_done)
  pub market_placed : (s.market_stage ≡ inside) ⊎ (s.program.market_pc ≢ market_done)

pub InStep-market_pc : {env : Env} {s t : World} → InStep env s t → t.market_pc ≡ s.market_pc
InStep-market_pc (InStep.hears z n req res c i g h o p) = refl
InStep-market_pc (InStep.hears_nothing z n req i g h o) = refl
InStep-market_pc (InStep.answers rc res c i h e) = refl
InStep-market_pc (InStep.in_leaves i g) = refl

pub OutStep-in_pc : {s t : World} → OutStep s t → t.in_pc ≡ s.in_pc
OutStep-in_pc (OutStep.out_reads r p e c) = refl
OutStep-in_pc (OutStep.out_leaves r p e c) = refl
OutStep-in_pc (OutStep.out_closes p) = refl
OutStep-in_pc (OutStep.passes t m rest st p q a z l e) = refl
OutStep-in_pc (OutStep.fails t st p a z e) = refl

pub OutStep-market_pc : {s t : World} → OutStep s t → t.market_pc ≡ s.market_pc
OutStep-market_pc (OutStep.out_reads r p e c) = refl
OutStep-market_pc (OutStep.out_leaves r p e c) = refl
OutStep-market_pc (OutStep.out_closes p) = refl
OutStep-market_pc (OutStep.passes t m rest st p q a z l e) = refl
OutStep-market_pc (OutStep.fails t st p a z e) = refl

pub MarketStep-in_pc :
    {env : Env} {nx : NxCore} {s t : World} → MarketStep env nx s t → t.in_pc ≡ s.in_pc
MarketStep-in_pc (MarketStep.market_reads a r p e) = refl
MarketStep-in_pc (MarketStep.nx_calls message rc n p e) = refl
MarketStep-in_pc (MarketStep.nx_stops message rc n p e) = refl
MarketStep-in_pc (MarketStep.nx_ends p) = refl
MarketStep-in_pc (MarketStep.nx_obeys p) = refl

-- What a thread does outside its loop does not end the loop.
moved :
    {S : Type 0} {a b i : S} {P : Type 0} {p d : P} → a ≢ i → (a ≡ i) ⊎ (p ≢ d) → (b ≡ i) ⊎ (p ≢ d)
moved o (inl e) = absurd (o e)
moved o (inr n) = inr n

kept :
    {S : Type 0} {a i : S} {P : Type 0} {p q d : P} → q ≡ p → (a ≡ i) ⊎ (p ≢ d) → (a ≡ i) ⊎ (q ≢ d)
kept e (inl h) = inl h
kept e (inr n) = inr (λ z. n (cc (e, z)))

pub Step-Placed :
    {env : Env} {nx : NxCore} {e : Endpoints} {s t : Boot} → Step env nx e s t → Placed s → Placed t
Step-Placed (Step.in_opens o) v = record {
  in_placed = moved (Opens-outside o) v.in_placed;
  out_placed = v.out_placed;
  market_placed = v.market_placed;
}
Step-Placed (Step.out_opens o) v = record {
  in_placed = v.in_placed;
  out_placed = moved (OutOpens-outside o) v.out_placed;
  market_placed = v.market_placed;
}
Step-Placed (Step.market_opens o) v = record {
  in_placed = v.in_placed;
  out_placed = v.out_placed;
  market_placed = moved (Opens-outside o) v.market_placed;
}
Step-Placed (Step.in_runs p st) v = record {
  in_placed = inl p;
  out_placed = kept (InStep-out_pc st) v.out_placed;
  market_placed = kept (InStep-market_pc st) v.market_placed;
}
Step-Placed (Step.out_runs p st) v = record {
  in_placed = kept (OutStep-in_pc st) v.in_placed;
  out_placed = inl p;
  market_placed = kept (OutStep-market_pc st) v.market_placed;
}
Step-Placed (Step.market_runs p st) v = record {
  in_placed = kept (MarketStep-in_pc st) v.in_placed;
  out_placed = kept (MarketStep-out_pc st) v.out_placed;
  market_placed = inl p;
}
