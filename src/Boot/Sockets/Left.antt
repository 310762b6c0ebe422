-- ===== src/Boot/Sockets/Left.antt =====
-- impl/all/net/chan.cc and impl/all/core/wineing.cc: the sockets that are open when the threads have
-- returned.
use wineing.Prelude.{ℕ, ◌+◌, ◌≡◌, ◌↔◌, refl, ◌⊎◌, inl, inr, true, arith, Bool, ◌==◌, ◌&&◌}
use wineing.Prelude.Memory.{Bytes}
use wineing.Control.{Env}
use wineing.Market.{NxCore}
use wineing.Chan.Sockets.{chan_shutdown}
use wineing.Boot.{
  Stage, inside, failed, OutStage, out_inside, out_failed, Boot, Endpoints, Reach, here, next, boot,
}
use wineing.Boot.Safety.{Returned}
use wineing.Boot.Sockets.{sockets, failures, AllSockets}
use wineing.Boot.Sockets.Places.{Placed, Step-Placed}
use wineing.Boot.Sockets.Held.{
  in_held, out_held, market_held, stage_held, out_stage_held, of_in, of_out, of_market, Step-held,
}

boot-Placed : (g i o m t : Bytes) → Placed (boot g i o m t)
boot-Placed g i o m t = record {
  in_placed = inr (λ e. cc);
  out_placed = inr (λ e. cc);
  market_placed = inr (λ e. cc);
}

Reach-Placed :
    (g i o m t : Bytes) {env : Env} {nx : NxCore} {e : Endpoints} {n : ℕ} {s : Boot}
    → Reach env nx e (boot g i o m t) n s
    → Placed s
Reach-Placed g i o m t here = boot-Placed g i o m t
Reach-Placed g i o m t (next r st) = Step-Placed st (Reach-Placed g i o m t r)

-- The open sockets are those that the threads hold and those of the failed attempts.
Reach-held :
    (g i o m t : Bytes) {env : Env} {nx : NxCore} {e : Endpoints} {n : ℕ} {s : Boot}
    (r : Reach env nx e (boot g i o m t) n s)
    → AllSockets r
    → sockets r ≡ of_in s + of_out s + of_market s + failures r
unfolding sockets failures
Reach-held g i o m t here h = refl
Reach-held g i o m t (next r st) h =
    Step-held st (sockets r) (failures r) (Reach-Placed g i o m t r) h.1
      (Reach-held g i o m t r h.0)

stage-left :
    (x : ℕ) (a : Stage) {P : Type 0} {p d : P}
    → (p ≡ d → x ≡ 0)
    → (a ≡ failed) ⊎ ((a ≡ inside) × (p ≡ d))
    → stage_held x a ≡ 0
stage-left x a f (inl e) = rw e refl
stage-left x a f (inr (e, q)) = rw e (f q)

out_stage-left :
    (x : ℕ) (a : OutStage) {P : Type 0} {p d : P}
    → (p ≡ d → x ≡ 0)
    → (a ≡ out_failed) ⊎ ((a ≡ out_inside) × (p ≡ d))
    → out_stage_held x a ≡ 0
out_stage-left x a f (inl e) = rw e refl
out_stage-left x a f (inr (e, q)) = rw e (f q)

closes : (n : ℕ) (b : Bool) → ((n == 0 && b) ≡ true) ↔ ((n ≡ 0) × (b ≡ true))
closes n b = ((λ q. (ground (arith, q), ground (arith, q))), (λ q. ground (arith, q.0, q.1)))

-- When the three threads have returned, the sockets that are still open are one for each attempt to
-- open a channel that failed, and one more if it was the bind of the inproc channel. So `zmq_term`
-- returns exactly if no attempt failed and the messages of the closed sockets come to be sent. ZeroMQ
-- gave a socket at every attempt, and the threads opened their channels in any order.
pub shutdown_waits :
    (g i o m t : Bytes) {env : Env} {nx : NxCore} {e : Endpoints} {n : ℕ} {s : Boot}
    (r : Reach env nx e (boot g i o m t) n s) (sent : Bool)
    → AllSockets r
    → Returned s
    → (sockets r ≡ failures r)
      × ((chan_shutdown (sockets r) sent ≡ true) ↔ ((failures r ≡ 0) × (sent ≡ true)))
unfolding chan_shutdown
shutdown_waits g i o m t {s} r sent h w =
    let a = stage-left (in_held s.program.in_pc) s.in_stage (λ e. rw e refl) w.of_in in
    let b = out_stage-left (out_held s.program.out_pc) s.out_stage (λ e. rw e refl) w.of_out in
    let c =
      stage-left (market_held s.program.market_pc) s.market_stage (λ e. rw e refl) w.of_market in
    let k = Reach-held g i o m t r h in
    let l : sockets r ≡ failures r = omega (arith, a, b, c, k) in
    (l, rw l (closes (failures r) sent))
