-- ===== src/Boot/Sockets/Held.antt =====
-- impl/all/net/chan.cc and impl/all/core/wineing.cc: the sockets that each thread holds, over one
-- action.
use wineing.Prelude.{ℕ, suc, ◌+◌, ◌≡◌, ◌≢◌, refl, ◌⊎◌, inl, inr, arith}
use wineing.Prelude.Memory.{Bytes}
use wineing.Control.{Env}
use wineing.Market.{NxCore}
use wineing.Chan.Socket.{Zmq, chan_type_pub, chan_type_pull_bind, chan_type_push_connect}
use wineing.Chan.Sockets.{ichan_name, open_chan, chan_destroy}
use wineing.Program.{
  InPc, in_done, OutPc, out_done, MarketPc, market_reading, market_done, in_nxcore, nx_stopping,
  World, InStep, OutStep, MarketStep, after,
}
use wineing.Boot.{
  Stage, starting, connecting, inside, failed, OutStage, out_starting, out_half, out_inside,
  out_failed, Boot, Endpoints, Opens, OutOpens, Step,
}
use wineing.Boot.Sockets.{
  after_bind, open_sockets, out_open_sockets, close_both, in_runs_sockets, out_runs_sockets,
  market_done_sockets, market_runs_sockets, step_sockets, HasSocket, OpenSocket, OutOpenSocket,
  open_failures, out_open_failures, step_failures, StepSocket,
}
use wineing.Boot.Sockets.Places.{
  Placed, InStep-market_pc, OutStep-in_pc, OutStep-market_pc, MarketStep-in_pc,
}
use wineing.Boot.Hangs.{InStep-out_pc, MarketStep-out_pc}
use wineing.Boot.Invariant.{Opens-outside, OutOpens-outside}

-- The sockets that a thread holds in its loop.
abbrev pub in_held : InPc → ℕ
in_held in_done = 0
in_held _ = 2

abbrev pub out_held : OutPc → ℕ
out_held out_done = 0
out_held _ = 2

abbrev pub market_held : MarketPc → ℕ
market_held market_done = 0
market_held _ = 2

-- The sockets that a thread holds, which holds `n` in its loop.
abbrev pub stage_held : ℕ → Stage → ℕ
stage_held n starting = 0
stage_held n connecting = 1
stage_held n inside = n
stage_held n failed = 0

abbrev pub out_stage_held : ℕ → OutStage → ℕ
out_stage_held n out_starting = 0
out_stage_held n out_half = 1
out_stage_held n out_inside = n
out_stage_held n out_failed = 0

abbrev pub of_in : Boot → ℕ
of_in s = stage_held (in_held s.program.in_pc) s.in_stage

abbrev pub of_out : Boot → ℕ
of_out s = out_stage_held (out_held s.program.out_pc) s.out_stage

abbrev pub of_market : Boot → ℕ
of_market s = stage_held (market_held s.program.market_pc) s.market_stage

open_in_held : (p : InPc) → p ≢ in_done → in_held p ≡ 2
open_in_held in_done n = absurd (n refl)
open_in_held InPc.listening n = refl
open_in_held (InPc.answering r) n = refl

open_out_held : (p : OutPc) → p ≢ out_done → out_held p ≡ 2
open_out_held out_done n = absurd (n refl)
open_out_held OutPc.out_reading n = refl
open_out_held OutPc.out_receiving n = refl
open_out_held OutPc.out_closing n = refl

open_market_held : (p : MarketPc) → p ≢ market_done → market_held p ≡ 2
open_market_held market_done n = absurd (n refl)
open_market_held market_reading n = refl
open_market_held in_nxcore n = refl
open_market_held nx_stopping n = refl

-- An attempt opens one socket.
after_bind-suc :
    (z : Zmq) (fqcn : Bytes) (type : ℕ) (n : ℕ)
    → HasSocket z fqcn type
    → after_bind z fqcn type n ≡ suc n
unfolding open_chan
after_bind-suc z fqcn type n h = rw h

Opens-held :
    {fqcn : Bytes} {type : ℕ} {s : Boot} {a b : Stage} (o : Opens fqcn type s a b) (x n r : ℕ)
    → OpenSocket o
    → x ≡ 2
    → n ≡ stage_held x a + r
    → open_sockets o n ≡ stage_held x b + r + open_failures o
Opens-held {fqcn} {type} (Opens.binds z p q) x n r h d e =
    let k = after_bind-suc z fqcn type n h in let w : n ≡ 0 + r = rw p at e in omega (arith, k, w)
Opens-held {fqcn} {type} (Opens.gives_up z p q) x n r h d e =
    let k = after_bind-suc z fqcn type n h in let w : n ≡ 0 + r = rw p at e in omega (arith, k, w)
Opens-held (Opens.connects z p i q) x n r h d e =
    let k = after_bind-suc z ichan_name chan_type_push_connect n h in
    let w : n ≡ 1 + r = rw p at e in omega (arith, k, w, d)
Opens-held (Opens.sleeps z p i q) x n r h d e =
    let k = after_bind-suc z ichan_name chan_type_push_connect n h in
    let w : n ≡ 1 + r = rw p at e in omega (arith, k, w)

OutOpens-held :
    {fqcn : Bytes} {a b : OutStage} (o : OutOpens fqcn a b) (x n r : ℕ)
    → OutOpenSocket o
    → x ≡ 2
    → n ≡ out_stage_held x a + r
    → out_open_sockets o n ≡ out_stage_held x b + r + out_open_failures o
OutOpens-held {fqcn} (OutOpens.binds_out z p q) x n r h d e =
    let k = after_bind-suc z fqcn chan_type_pub n h in
    let w : n ≡ 0 + r = rw p at e in omega (arith, k, w)
OutOpens-held {fqcn} (OutOpens.gives_up_out z p q) x n r h d e =
    let k = after_bind-suc z fqcn chan_type_pub n h in
    let w : n ≡ 0 + r = rw p at e in omega (arith, k, w)
OutOpens-held (OutOpens.binds_inproc z p q) x n r h d e =
    let k = after_bind-suc z ichan_name chan_type_pull_bind n h in
    let w : n ≡ 1 + r = rw p at e in omega (arith, k, w, d)
OutOpens-held (OutOpens.gives_up_inproc z p q) x n r h d e =
    let k = after_bind-suc z ichan_name chan_type_pull_bind n h in
    let w : n ≡ 1 + r = rw p at e in omega (arith, k, w)

close_both-held : (n r : ℕ) → n ≡ 2 + r → close_both n ≡ 0 + r
unfolding close_both chan_destroy
close_both-held n r e = ground (arith, e)

InStep-held :
    {env : Env} {s t : World} (st : InStep env s t) (n r : ℕ)
    → n ≡ in_held s.in_pc + r
    → in_runs_sockets st n ≡ in_held t.in_pc + r
InStep-held (InStep.hears z m req res c i g h o p) n r e = rw i at e
InStep-held (InStep.hears_nothing z m req i g h o) n r e = e
InStep-held (InStep.answers rc res c i h k) n r e = rw i at e
InStep-held (InStep.in_leaves i g) n r e = close_both-held n r (rw i at e)

OutStep-held :
    {s t : World} (st : OutStep s t) (n r : ℕ)
    → n ≡ out_held s.out_pc + r
    → out_runs_sockets st n ≡ out_held t.out_pc + r
OutStep-held (OutStep.out_reads a p k c) n r e = rw p at e
OutStep-held (OutStep.out_leaves a p k c) n r e = rw p at e
OutStep-held (OutStep.out_closes p) n r e = close_both-held n r (rw p at e)
OutStep-held (OutStep.passes t m rest st p q a z l k) n r e = rw p at e
OutStep-held (OutStep.fails t st p a z k) n r e = rw p at e

-- Where the market thread goes on.
market_done-held :
    (p : MarketPc) (n r : ℕ) → n ≡ 2 + r → market_done_sockets p n ≡ market_held p + r
market_done-held market_done n r e = close_both-held n r e
market_done-held market_reading n r e = e
market_done-held in_nxcore n r e = e
market_done-held nx_stopping n r e = e

MarketStep-held :
    {env : Env} {nx : NxCore} {s t : World} (st : MarketStep env nx s t) (n r : ℕ)
    → n ≡ market_held s.market_pc + r
    → market_runs_sockets st n ≡ market_held t.market_pc + r
MarketStep-held (MarketStep.market_reads a x p k) n r e = market_done-held (after a) n r (rw p at e)
MarketStep-held (MarketStep.nx_calls message rc m p k) n r e = e
MarketStep-held (MarketStep.nx_stops message rc m p k) n r e = rw p at e
MarketStep-held (MarketStep.nx_ends p) n r e = rw p at e
MarketStep-held (MarketStep.nx_obeys p) n r e = rw p at e

-- A thread that opens its channels will hold two sockets in its loop.
outside : {S : Type 0} {a i : S} {P : Type 0} {p d : P} → a ≢ i → (a ≡ i) ⊎ (p ≢ d) → p ≢ d
outside o (inl e) = absurd (o e)
outside o (inr n) = n

pub Step-held :
    {env : Env} {nx : NxCore} {e : Endpoints} {s t : Boot} (st : Step env nx e s t) (n l : ℕ)
    → Placed s
    → StepSocket st
    → n ≡ of_in s + of_out s + of_market s + l
    → step_sockets st n ≡ of_in t + of_out t + of_market t + (l + step_failures st)
Step-held {s} (Step.in_opens o) n l v h e =
    let d = open_in_held s.program.in_pc (outside (Opens-outside o) v.in_placed) in
    let k =
      Opens-held o (in_held s.program.in_pc) n (of_out s + of_market s + l) h d
        (omega (arith, e)) in
    omega (arith, k)
Step-held {s} (Step.out_opens o) n l v h e =
    let d = open_out_held s.program.out_pc (outside (OutOpens-outside o) v.out_placed) in
    let k =
      OutOpens-held o (out_held s.program.out_pc) n (of_in s + of_market s + l) h d
        (omega (arith, e)) in
    omega (arith, k)
Step-held {s} (Step.market_opens o) n l v h e =
    let d = open_market_held s.program.market_pc (outside (Opens-outside o) v.market_placed) in
    let k =
      Opens-held o (market_held s.program.market_pc) n (of_in s + of_out s + l) h d
        (omega (arith, e)) in
    omega (arith, k)
Step-held {s} (Step.in_runs p st) n l v h e =
    let k = InStep-held st n (of_out s + of_market s + l) (omega (arith, rw p at e)) in
    rw (p, InStep-out_pc st, InStep-market_pc st) (omega (arith, k))
Step-held {s} (Step.out_runs p st) n l v h e =
    let k = OutStep-held st n (of_in s + of_market s + l) (omega (arith, rw p at e)) in
    rw (p, OutStep-in_pc st, OutStep-market_pc st) (omega (arith, k))
Step-held {s} (Step.market_runs p st) n l v h e =
    let k = MarketStep-held st n (of_in s + of_out s + l) (omega (arith, rw p at e)) in
    rw (p, MarketStep-in_pc st, MarketStep-out_pc st) (omega (arith, k))
