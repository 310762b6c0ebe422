-- ===== src/Program/Ending/Bound.antt =====
-- impl/all/core/wineing.cc: after a shutdown request the program ends, and soon.
use native.Mathlib.Decide.{dec_lt}
use wineing.Prelude.{ℕ, zero, suc, ◌+◌, ◌≤◌, ◌≡◌, ◌≢◌, refl, ap, arith, length}
use wineing.Prelude.Memory.{Bytes}
use wineing.Control.{Env}
use wineing.Control.Spec.{down, told}
use wineing.Market.{NxCore}
use wineing.Program.{
  InPc, listening, answering, in_done, OutPc, out_reading, out_receiving, out_closing, out_done,
  MarketPc, market_reading, in_nxcore, nx_stopping, market_done, World, Step, Reach, here, next,
  start,
}
use wineing.Program.Invariant.{Inv, Bounded}
use wineing.Program.Moves.{Step-Inv, Step-heard}
use wineing.Program.Safety.{IsAllocated, Reach-Inv, reached-Inv}
use wineing.Program.Ending.{in_work, out_work, market_work, work, Step-Less}
use wineing.Program.Ending.Onward.{Flows, Onward, goes_on}

work_le : (s : World) → work s ≤ 8
work_le s = omega (arith, of_in s.in_pc, of_out s.out_pc, of_market s.market_pc)
  where
    of_in : (pc : InPc) → in_work pc ≤ 2
    of_in listening = omega arith
    of_in (answering res) = omega arith
    of_in in_done = omega arith

    of_out : (pc : OutPc) → out_work pc ≤ 3
    of_out out_reading = omega arith
    of_out out_receiving = omega arith
    of_out out_closing = omega arith
    of_out out_done = omega arith

    of_market : (pc : MarketPc) → market_work pc ≤ 3
    of_market market_reading = omega arith
    of_market in_nxcore = omega arith
    of_market nx_stopping = omega arith
    of_market market_done = omega arith

-- A run after a shutdown.
Reach-Less :
    {env : Env} {nx : NxCore} {s : World} {n : ℕ} {t : World}
    → nx.callback_stop ≢ nx.callback_continue
    → Inv s
    → told s.control ≡ down
    → Reach env nx s n t
    → Bounded t
    → (told t.control ≡ down) × (n + work t ≤ work s)
Reach-Less x v d here b = (d, omega arith)
Reach-Less x v d (next {s = u} r st) b =
    let c : Bounded u = omega (arith, Step-heard st) in
    let (e, l) = Reach-Less x v d r c in
    let (e', l', _) = Step-Less x (Reach-Inv v r c) e st in (e', omega (arith, l, l'))

-- Every thread has left its loop.
pub record Ended (s : World) : Type 0 where
  pub of_in : s.in_pc ≡ in_done
  pub of_out : s.out_pc ≡ out_done
  pub of_market : s.market_pc ≡ market_done

no_work : (s : World) → work s ≡ 0 → Ended s
no_work s h = record {
  of_in = of_in s.in_pc refl;
  of_out = of_out s.out_pc refl;
  of_market = of_market s.market_pc refl;
}
  where
    of_in : (pc : InPc) → s.in_pc ≡ pc → s.in_pc ≡ in_done
    of_in in_done e = e
    of_in listening e = absurd (omega (arith, h, ap in_work e))
    of_in (answering res) e = absurd (omega (arith, h, ap in_work e))

    of_out : (pc : OutPc) → s.out_pc ≡ pc → s.out_pc ≡ out_done
    of_out out_done e = e
    of_out out_reading e = absurd (omega (arith, h, ap out_work e))
    of_out out_closing e = absurd (omega (arith, h, ap out_work e))
    of_out out_receiving e = absurd (omega (arith, h, ap out_work e))

    of_market : (pc : MarketPc) → s.market_pc ≡ pc → s.market_pc ≡ market_done
    of_market market_done e = e
    of_market market_reading e = absurd (omega (arith, h, ap market_work e))
    of_market in_nxcore e = absurd (omega (arith, h, ap market_work e))
    of_market nx_stopping e = absurd (omega (arith, h, ap market_work e))

pub Reach-heard :
    {env : Env} {nx : NxCore} {s : World} {n : ℕ} {t : World}
    → Reach env nx s n t
    → length s.heard ≤ length t.heard
Reach-heard here = omega arith
Reach-heard (next r st) = omega (arith, Reach-heard r, Step-heard st)

-- One action in front of a run.
Reach-front :
    {env : Env} {nx : NxCore} {s t : World} {n : ℕ} {u : World}
    → Step env nx s t
    → Reach env nx t n u
    → Reach env nx s (suc n) u
Reach-front st here = next here st
Reach-front st (next r m) = next (Reach-front st r) m

ends_within :
    {env : Env} {nx : NxCore} (fuel : ℕ) (s : World)
    → nx.callback_stop ≢ nx.callback_continue
    → Inv s
    → told s.control ≡ down
    → Bounded s
    → Flows env s
    → work s ≤ fuel
    → (n : ℕ) × (t : World) × Reach env nx s n t × Ended t
ends_within zero s x v d b f h = (0, s, here, no_work s (omega arith))
ends_within {env} {nx} (suc fuel) s x v d b f h = elim (dec_lt 0 (work s)) [
  | no l ↦ (0, s, here, no_work s (omega (arith, l)))
  | yes l ↦
      (let o : Onward env nx s = goes_on s v d f l in
        let (e, less, q) = Step-Less x v d o.step in
        let same : Bounded o.after = omega (arith, ap (λ l. length l) q) in
        let (n, t, r, z) =
          ends_within fuel o.after x (Step-Inv o.step same v) e same o.flows
            (omega (arith, less)) in
        (suc n, t, Reach-front o.step r, z))
]

module _ {env : Env} {nx : NxCore} {g i o m t : Bytes} (a : IsAllocated g i o m t)
    (x : nx.callback_stop ≢ nx.callback_continue) where
  -- Termination: once a shutdown request has been processed, the threads and NxCore's callback take
  -- at most eight actions more, in every order and whatever the sockets do. Fewer than 2^32 - 1
  -- requests are processed, and NxCore's two return codes differ.
  pub shutdown_is_short :
      {n k : ℕ} {s u : World}
      → Reach env nx (start g i o m t) n s
      → told s.control ≡ down
      → Reach env nx s k u
      → Bounded u
      → k ≤ 8
  shutdown_is_short {s} r d q b =
      omega
        (arith, (Reach-Less x (reached-Inv a r (omega (arith, Reach-heard q))) d q b).1, work_le s)

  -- Liveness: once a shutdown request has been processed, the program is never stuck before its end:
  -- from every state that it reaches it can go on until all three threads have left their loops. No
  -- response was lost on its way to the inproc channel or comes to it after it was closed, and those
  -- on their way have at most 1024 bytes. Fewer than 2^32 - 1 requests have been processed, and NxCore's two return codes differ.
  pub shutdown_ends :
      {n : ℕ} {s : World}
      → Reach env nx (start g i o m t) n s
      → Bounded s
      → told s.control ≡ down
      → Flows env s
      → (k : ℕ) × (u : World) × Reach env nx s k u × Ended u
  shutdown_ends {s} r b d f = ends_within (work s) s x (reached-Inv a r b) d b f (omega arith)
