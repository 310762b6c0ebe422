-- ===== src/Boot/Ending.antt =====
-- impl/all/core/wineing.cc: after a shutdown request `wineing_run` can return.
use wineing.Prelude.{ℕ, pos, suc, ◌≡◌, ◌≢◌, refl, ap, ◌⊎◌, inl, inr, true, false, arith}
use wineing.Prelude.Memory.{Bytes}
use wineing.Control.{Env}
use wineing.Control.Spec.{down, waiting, told}
use wineing.Market.{NxCore}
use wineing.Chan.Socket.{Zmq, chan_init, chan_bind, attach, chan_type_pub, chan_type_push_connect}
use wineing.Chan.Sockets.{ichan_name}
use wineing.Program
use wineing.Program.{World, OutPc, out_reading, out_receiving, out_closing, out_done, start}
use wineing.Program.Invariant.{Bounded}
use wineing.Program.Safety.{IsAllocated}
use wineing.Program.Ending.Onward.{Flows}
use wineing.Program.Ending.Bound.{shutdown_ends}
use wineing.Boot.{
  Stage, starting, connecting, inside, failed, out_inside, Boot, Endpoints, has_inproc, bind_fails,
  IsInproc, Opens, Step, Reach, here, next, boot,
}
use wineing.Boot.Invariant.{boot-Inv, Reach-Inv}
use wineing.Boot.Safety.{loops_refined, Returned}
use wineing.Boot.Sockets.{HasSocket}
use wineing.Boot.Sockets.Clean.{Clean, here-Clean, next-Clean, still-Clean, Clean-trans}

-- ZeroMQ at an attempt that succeeds.
abbrev pub open_zmq : Zmq
open_zmq = record {
  types = record { zmq_pub = 1; zmq_sub = 2; zmq_push = 8; zmq_pull = 7; zmq_req = 3; zmq_rep = 4 };
  has_socket = λ t. true;
  bind_rc = λ e. pos 0;
  connect_rc = λ e. pos 0;
}

pub open_zmq-opens : (fqcn : Bytes) (type : ℕ) → bind_fails open_zmq fqcn type ≡ false
unfolding chan_bind chan_init attach
open_zmq-opens fqcn type = ground arith

pub open_zmq-IsInproc : (s : Boot) → has_inproc s ≡ true → IsInproc open_zmq s
open_zmq-IsInproc s h f = absurd (ground (arith, f, h))

open-has_inproc :
    (s : Boot) → s.out_stage ≡ out_inside → s.program.out_pc ≢ out_done → has_inproc s ≡ true
open-has_inproc s e n = at s.program.out_pc refl
  where
    at : (p : OutPc) → s.program.out_pc ≡ p → has_inproc s ≡ true
    at out_reading q = ground (arith, e, q)
    at out_receiving q = ground (arith, e, q)
    at out_closing q = ground (arith, e, q)
    at out_done q = absurd (n q)

-- The market thread is in its loop, or can still get there.
abbrev pub CanJoin : Boot → Type 0
CanJoin s = (s.market_stage ≡ inside) ⊎ ((s.market_stage ≢ failed) × (s.program.out_pc ≢ out_done))

-- What the loops do is done by threads that are in them.
lifts :
    {env : Env} {nx : NxCore} {e : Endpoints} (s : Boot) {w : World} {k : ℕ} {u : World}
    → s.in_stage ≡ inside
    → s.out_stage ≡ out_inside
    → s.market_stage ≡ inside
    → Program.Reach env nx w k u
    → (r : Reach env nx e (record s { program = w }) k (record s { program = u })) × Clean r
lifts s a b c Program.Reach.here = (here, here-Clean)
lifts s a b c (Program.Reach.next r (Program.Step.control st)) =
    let (q, y) = lifts s a b c r in let x = Step.in_runs a st in (next q x, next-Clean x refl tt y)
lifts s a b c (Program.Reach.next r (Program.Step.out st)) =
    let (q, y) = lifts s a b c r in let x = Step.out_runs b st in (next q x, next-Clean x refl tt y)
lifts s a b c (Program.Reach.next r (Program.Step.market st)) =
    let (q, y) = lifts s a b c r in
    let x = Step.market_runs c st in (next q x, next-Clean x refl tt y)

joined :
    {env : Env} {nx : NxCore} {e : Endpoints} (s : Boot)
    → s.market_stage ≡ inside
    → (k : ℕ) × (r : Reach env nx e s k (record s { market_stage = inside })) × Clean r
joined s p = let (r, c) = still-Clean (ap (λ x. record s { market_stage = x }) p) in (0, r, c)

open_zmq-HasSocket : (fqcn : Bytes) (type : ℕ) → HasSocket open_zmq fqcn type
unfolding chan_bind chan_init
open_zmq-HasSocket fqcn type = refl

-- The market thread gets into its loop at once, and nothing else changes.
joins :
    {env : Env} {nx : NxCore} {e : Endpoints} (s : Boot)
    → s.out_stage ≡ out_inside
    → CanJoin s
    → (k : ℕ) × (r : Reach env nx e s k (record s { market_stage = inside })) × Clean r
joins s o (inl p) = joined s p
joins {env} {nx} {e} s o (inr n) = at s.market_stage refl
  where
    bound : has_inproc s ≡ true
    bound = open-has_inproc s o n.1

    connect :
        {k : ℕ} (t : Boot) (r : Reach env nx e s k t)
        → Clean r
        → t.market_stage ≡ connecting
        → has_inproc t ≡ true
        → (q : Reach env nx e s (suc k) (record t { market_stage = inside })) × Clean q
    connect t r c p h =
        let x : Step env nx e t (record t { market_stage = inside }) = Step.market_opens (
          Opens.connects open_zmq p (open_zmq-IsInproc t h)
            (open_zmq-opens ichan_name chan_type_push_connect)) in
        (next r x, next-Clean x refl (open_zmq-HasSocket ichan_name chan_type_push_connect) c)

    at :
        (a : Stage)
        → s.market_stage ≡ a
        → (k : ℕ) × (r : Reach env nx e s k (record s { market_stage = inside })) × Clean r
    at starting p =
        let x : Step env nx e s (record s { market_stage = connecting }) =
          Step.market_opens (Opens.binds open_zmq p (open_zmq-opens e.mchan chan_type_pub)) in
        let (r, c) =
          connect (record s { market_stage = connecting }) (next here x)
            (next-Clean x refl (open_zmq-HasSocket e.mchan chan_type_pub) here-Clean) refl bound in
        (2, r, c)
    at connecting p = let (r, c) = connect s here here-Clean p bound in (1, r, c)
    at inside p = joined s p
    at failed p = absurd (n.0 p)

module _ {env : Env} {nx : NxCore} {e : Endpoints} {g i o m t : Bytes} (a : IsAllocated g i o m t)
    (x : nx.callback_stop ≢ nx.callback_continue) where
  -- `wineing_run` can return after a shutdown: once a shutdown request has been processed, from every
  -- state that the threads reach they can go on until all three have returned, and no attempt to open a
  -- channel fails on the way, if the market thread is in its loop, or its bind has not failed and the
  -- response thread has not closed the inproc channel. No response was lost on its way there or comes
  -- after it was closed, and those on their way have at most 1024 bytes. Fewer than 2^32 - 1 requests have been processed, and
  -- NxCore's two return codes differ.
  pub run_returns :
      {n : ℕ} {s : Boot}
      → Reach env nx e (boot g i o m t) n s
      → Bounded s.program
      → told s.program.control ≡ down
      → CanJoin s
      → Flows env s.program
      → (k : ℕ) × (u : Boot) × Returned u × (q : Reach env nx e s k u) × Clean q
  run_returns {n} {s} r b d c f =
      let v = Reach-Inv (boot-Inv g i o m t) r in
      let p : s.in_stage ≡ inside = in_loop v.quiet in
      let q = v.in_linked p in
      let (_, _, l) = loops_refined g i o m t r in
      let (_, w, h, z) = shutdown_ends a x l b d f in
      let (_, j, c₁) = joins {env = env} {nx = nx} {e = e} s q c in
      let (y, c₂) = lifts (record s { market_stage = inside }) p q refl h in
      let (k, x, c₃) = Clean-trans j y c₁ c₂ in
      (
        k,
        _,
        record {
          of_in = inr (p, z.of_in);
          of_out = inr (q, z.of_out);
          of_market = inr (refl, z.of_market);
        },
        x,
        c₃,
      )
    where
      in_loop : (s.in_stage ≡ inside) ⊎ (told s.program.control ≡ waiting) → s.in_stage ≡ inside
      in_loop (inl p) = p
      in_loop (inr q) = absurd (cc (d, q))
