-- ===== src/Boot/Safety.antt =====
-- impl/all/core/wineing.cc: when `wineing_run` returns from its `pthread_join`s, and when it never does.
use wineing.Prelude.{ℕ, suc, ◌≤◌, ◌≡◌, ◌⊎◌, inl, inr, arith}
use wineing.Prelude.Memory.{Bytes}
use wineing.Control.{Env}
use wineing.Control.Spec.{down, waiting, told}
use wineing.Market.{NxCore}
use wineing.Program
use wineing.Program.{
  World, InPc, in_done, OutPc, out_done, MarketPc, market_done, InStep, OutStep, MarketStep, start,
}
use wineing.Program.Invariant.{Bounded}
use wineing.Program.Safety.{IsAllocated, leaves_after_shutdown}
use wineing.Boot.{
  inside, failed, out_inside, out_failed, Boot, Endpoints, Step, Reach, here, next, boot,
}
use wineing.Boot.Invariant.{Inv, boot-Inv, Reach-Inv}

-- Whatever the order in which the threads open their channels, what their loops do is a run of the
-- loops from the start of all three, with no more actions.
pub loops_refined :
    (g i o m t : Bytes) {env : Env} {nx : NxCore} {e : Endpoints} {n : ℕ} {s : Boot}
    → Reach env nx e (boot g i o m t) n s
    → (k : ℕ) × (k ≤ n) × Program.Reach env nx (start g i o m t) k s.program
loops_refined g i o m t here = (0, omega arith, Program.Reach.here)
loops_refined g i o m t (next r (Step.in_opens _)) =
    let (k, l, q) = loops_refined g i o m t r in (k, omega (arith, l), q)
loops_refined g i o m t (next r (Step.out_opens _)) =
    let (k, l, q) = loops_refined g i o m t r in (k, omega (arith, l), q)
loops_refined g i o m t (next r (Step.market_opens _)) =
    let (k, l, q) = loops_refined g i o m t r in (k, omega (arith, l), q)
loops_refined g i o m t (next r (Step.in_runs p st)) =
    let (k, l, q) = loops_refined g i o m t r in
    (suc k, omega (arith, l), Program.Reach.next q (Program.Step.control st))
loops_refined g i o m t (next r (Step.out_runs p st)) =
    let (k, l, q) = loops_refined g i o m t r in
    (suc k, omega (arith, l), Program.Reach.next q (Program.Step.out st))
loops_refined g i o m t (next r (Step.market_runs p st)) =
    let (k, l, q) = loops_refined g i o m t r in
    (suc k, omega (arith, l), Program.Reach.next q (Program.Step.market st))

-- The three threads have returned, so that `wineing_run` does.
pub record Returned (s : Boot) : Type 0 where
  pub of_in : (s.in_stage ≡ failed) ⊎ ((s.in_stage ≡ inside) × (s.program.in_pc ≡ in_done))
  pub of_out :
      (s.out_stage ≡ out_failed) ⊎ ((s.out_stage ≡ out_inside) × (s.program.out_pc ≡ out_done))
  pub of_market :
      (s.market_stage ≡ failed) ⊎ ((s.market_stage ≡ inside) × (s.program.market_pc ≡ market_done))

-- Every thread has returned since a bind failed: for the response thread, of `cchan_out` or of the
-- inproc channel.
pub record AllFailed (s : Boot) : Type 0 where
  pub in_failed : s.in_stage ≡ failed
  pub out_failed : s.out_stage ≡ out_failed
  pub market_failed : s.market_stage ≡ failed

-- The control thread has served a shutdown, and the response thread has left after it.
pub record IsShutDown (s : Boot) : Type 0 where
  pub in_inside : s.in_stage ≡ inside
  pub out_inside : s.out_stage ≡ out_inside
  pub told_down : told s.program.control ≡ down

module _ {env : Env} {nx : NxCore} {e : Endpoints} {g i o m t : Bytes}
    (a : IsAllocated g i o m t) where
  -- `wineing_run` returns only if the control thread has served a shutdown request and is in its loop
  -- with the response thread, or each of the three threads has given up: the control thread and the
  -- market thread since their first bind failed, the response thread since one of its two binds did.
  -- The buffers have their size, and fewer than 2^32 - 1 requests have been processed.
  pub returns_when :
      {n : ℕ} {s : Boot}
      → Reach env nx e (boot g i o m t) n s
      → Bounded s.program
      → Returned s
      → AllFailed s ⊎ IsShutDown s
  returns_when {n} {s} r b w = by_out w.of_out
    where
      v : Inv s
      v = Reach-Inv (boot-Inv g i o m t) r

      no_in :
          s.out_stage ≡ out_failed
          → (s.in_stage ≡ failed) ⊎ ((s.in_stage ≡ inside) × (s.program.in_pc ≡ in_done))
          → s.in_stage ≡ failed
      no_in f (inl p) = p
      no_in f (inr p) = absurd (cc (v.in_linked p.0, f))

      no_market :
          s.out_stage ≡ out_failed
          → (s.market_stage ≡ failed)
            ⊎ ((s.market_stage ≡ inside) × (s.program.market_pc ≡ market_done))
          → s.market_stage ≡ failed
      no_market f (inl p) = p
      no_market f (inr p) = absurd (cc (v.market_linked p.0, f))

      by_quiet :
          s.out_stage ≡ out_inside
          → told s.program.control ≡ down
          → (s.in_stage ≡ inside) ⊎ (told s.program.control ≡ waiting)
          → IsShutDown s
      by_quiet f d (inl p) = record { in_inside = p; out_inside = f; told_down = d }
      by_quiet f d (inr q) = absurd (cc (d, q))

      by_out :
          (s.out_stage ≡ out_failed) ⊎ ((s.out_stage ≡ out_inside) × (s.program.out_pc ≡ out_done))
          → AllFailed s ⊎ IsShutDown s
      by_out (inl f) = inl record {
        in_failed = no_in f w.of_in;
        out_failed = f;
        market_failed = no_market f w.of_market;
      }
      by_out (inr f) =
          let (k, _, q) = loops_refined g i o m t r in
          inr (by_quiet f.0 (leaves_after_shutdown a q b (inr (inl f.1))) v.quiet)
