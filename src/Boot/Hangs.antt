-- ===== src/Boot/Hangs.antt =====
-- impl/all/core/wineing.cc: a thread that waits for the inproc channel when it is gone.
pub mod Unsent
use wineing.Prelude.{◌≡◌, ◌≢◌, refl, ◌⊎◌}
use wineing.Control.{Env}
use wineing.Market.{NxCore}
use wineing.Program.{World, out_done, InStep, OutStep, MarketStep}
use wineing.Boot.{connecting, out_inside, out_failed, Boot}

-- The inproc channel is gone for ever: the response thread has given up or has left.
abbrev pub Gone : Boot → Type 0
Gone s = (s.out_stage ≡ out_failed) ⊎ ((s.out_stage ≡ out_inside) × (s.program.out_pc ≡ out_done))

-- A thread still waits for it.
abbrev pub Waits : Boot → Type 0
Waits s = (s.in_stage ≡ connecting) ⊎ (s.market_stage ≡ connecting)

pub InStep-out_pc : {env : Env} {s t : World} → InStep env s t → t.out_pc ≡ s.out_pc
InStep-out_pc (InStep.hears z n req res c i g h o p) = refl
InStep-out_pc (InStep.hears_nothing z n req i g h o) = refl
InStep-out_pc (InStep.answers rc res c i h e) = refl
InStep-out_pc (InStep.in_leaves i g) = refl

pub MarketStep-out_pc :
    {env : Env} {nx : NxCore} {s t : World} → MarketStep env nx s t → t.out_pc ≡ s.out_pc
MarketStep-out_pc (MarketStep.market_reads a r p e) = refl
MarketStep-out_pc (MarketStep.nx_calls message rc n p e) = refl
MarketStep-out_pc (MarketStep.nx_stops message rc n p e) = refl
MarketStep-out_pc (MarketStep.nx_ends p) = refl
MarketStep-out_pc (MarketStep.nx_obeys p) = refl

pub out_left : {s t : World} → OutStep s t → s.out_pc ≢ out_done
out_left (OutStep.out_reads r p e c) q = cc
out_left (OutStep.out_leaves r p e c) q = cc
out_left (OutStep.out_closes p) q = cc
out_left (OutStep.passes t m rest st p q a z l e) d = cc
out_left (OutStep.fails t st p a z e) q = cc
