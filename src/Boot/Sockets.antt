-- ===== src/Boot/Sockets.antt =====
-- impl/all/net/chan.cc and impl/all/core/wineing.cc: the sockets that the threads open and close, over
-- a run of `wineing_run`. `chan_shutdown`, which follows it, waits for those that are left.
pub mod Places
pub mod Clean
pub mod Failed
pub mod Held
pub mod Left
use wineing.Prelude.{ℕ, ◌+◌, ◌≡◌, Bool, true, false, if◌then◌else◌, arith, is_neg}
use wineing.Prelude.Memory.{Bytes}
use wineing.Control.{Env}
use wineing.Market.{NxCore}
use wineing.Chan.Socket.{
  Zmq, Chan, chan_init, chan_bind, attach, chan_type_pub, chan_type_pull_bind,
  chan_type_push_connect,
}
use wineing.Chan.Sockets.{ichan_name, open_chan, chan_destroy}
use wineing.Program.{
  InPc, in_done, OutPc, out_done, MarketPc, market_done, World, InStep, OutStep, MarketStep, after,
}
use wineing.Boot.{
  Stage, starting, connecting, inside, failed, OutStage, out_starting, out_half, out_inside,
  out_failed, Boot, Endpoints, bind_fails, Opens, OutOpens, Step, Reach, here, next,
}

-- The open sockets after `chan_bind` of a new channel.
abbrev pub after_bind : Zmq → Bytes → ℕ → ℕ → ℕ
after_bind z fqcn type n = (open_chan z (chan_init fqcn type) n).2

abbrev pub open_sockets :
    {fqcn : Bytes} {type : ℕ} {s : Boot} {a b : Stage} → Opens fqcn type s a b → ℕ → ℕ
open_sockets {fqcn} {type} (Opens.binds z p q) n = after_bind z fqcn type n
open_sockets {fqcn} {type} (Opens.gives_up z p q) n = after_bind z fqcn type n
open_sockets (Opens.connects z p h q) n = after_bind z ichan_name chan_type_push_connect n
open_sockets (Opens.sleeps z p h q) n = after_bind z ichan_name chan_type_push_connect n

abbrev pub out_open_sockets : {fqcn : Bytes} {a b : OutStage} → OutOpens fqcn a b → ℕ → ℕ
out_open_sockets {fqcn} (OutOpens.binds_out z p q) n = after_bind z fqcn chan_type_pub n
out_open_sockets {fqcn} (OutOpens.gives_up_out z p q) n = after_bind z fqcn chan_type_pub n
out_open_sockets (OutOpens.binds_inproc z p q) n = after_bind z ichan_name chan_type_pull_bind n
out_open_sockets (OutOpens.gives_up_inproc z p q) n = after_bind z ichan_name chan_type_pull_bind n

-- ZeroMQ gave a socket at the attempt.
abbrev pub HasSocket : Zmq → Bytes → ℕ → Type 0
HasSocket z fqcn type = (chan_bind z (chan_init fqcn type)).1.sock ≡ true

abbrev pub OpenSocket :
    {fqcn : Bytes} {type : ℕ} {s : Boot} {a b : Stage} → Opens fqcn type s a b → Type 0
OpenSocket {fqcn} {type} (Opens.binds z p q) = HasSocket z fqcn type
OpenSocket {fqcn} {type} (Opens.gives_up z p q) = HasSocket z fqcn type
OpenSocket (Opens.connects z p h q) = HasSocket z ichan_name chan_type_push_connect
OpenSocket (Opens.sleeps z p h q) = HasSocket z ichan_name chan_type_push_connect

abbrev pub OutOpenSocket : {fqcn : Bytes} {a b : OutStage} → OutOpens fqcn a b → Type 0
OutOpenSocket {fqcn} (OutOpens.binds_out z p q) = HasSocket z fqcn chan_type_pub
OutOpenSocket {fqcn} (OutOpens.gives_up_out z p q) = HasSocket z fqcn chan_type_pub
OutOpenSocket (OutOpens.binds_inproc z p q) = HasSocket z ichan_name chan_type_pull_bind
OutOpenSocket (OutOpens.gives_up_inproc z p q) = HasSocket z ichan_name chan_type_pull_bind

-- The failed attempts, where that of the inproc bind counts twice: the thread leaves its first
-- channel open too.
abbrev pub open_failures :
    {fqcn : Bytes} {type : ℕ} {s : Boot} {a b : Stage} → Opens fqcn type s a b → ℕ
open_failures (Opens.binds z p q) = 0
open_failures (Opens.gives_up z p q) = 1
open_failures (Opens.connects z p h q) = 0
open_failures (Opens.sleeps z p h q) = 1

abbrev pub out_open_failures : {fqcn : Bytes} {a b : OutStage} → OutOpens fqcn a b → ℕ
out_open_failures (OutOpens.binds_out z p q) = 0
out_open_failures (OutOpens.gives_up_out z p q) = 1
out_open_failures (OutOpens.binds_inproc z p q) = 0
out_open_failures (OutOpens.gives_up_inproc z p q) = 2

-- The two `chan_destroy` after a loop. Both channels have a socket there.
abbrev an_open : Chan
an_open = record { fqcn = ichan_name; type = chan_type_push_connect; sock = true }

unfoldable pub close_both : ℕ → ℕ
unfolding chan_destroy
close_both n = chan_destroy an_open (chan_destroy an_open n)

abbrev pub in_runs_sockets : {env : Env} {s t : World} → InStep env s t → ℕ → ℕ
in_runs_sockets (InStep.in_leaves i g) n = close_both n
in_runs_sockets _ n = n

abbrev pub out_runs_sockets : {s t : World} → OutStep s t → ℕ → ℕ
out_runs_sockets (OutStep.out_closes p) n = close_both n
out_runs_sockets _ n = n

abbrev pub market_done_sockets : MarketPc → ℕ → ℕ
market_done_sockets market_done n = close_both n
market_done_sockets _ n = n

abbrev pub market_runs_sockets :
    {env : Env} {nx : NxCore} {s t : World} → MarketStep env nx s t → ℕ → ℕ
market_runs_sockets (MarketStep.market_reads a r p e) n = market_done_sockets (after a) n
market_runs_sockets _ n = n

abbrev pub step_sockets :
    {env : Env} {nx : NxCore} {e : Endpoints} {s t : Boot} → Step env nx e s t → ℕ → ℕ
step_sockets (Step.in_opens o) n = open_sockets o n
step_sockets (Step.out_opens o) n = out_open_sockets o n
step_sockets (Step.market_opens o) n = open_sockets o n
step_sockets (Step.in_runs p st) n = in_runs_sockets st n
step_sockets (Step.out_runs p st) n = out_runs_sockets st n
step_sockets (Step.market_runs p st) n = market_runs_sockets st n

unfoldable pub sockets :
    {env : Env} {nx : NxCore} {e : Endpoints} {b : Boot} {n : ℕ} {s : Boot}
    → Reach env nx e b n s
    → ℕ
sockets here = 0
sockets (next r st) = step_sockets st (sockets r)

abbrev pub step_failures :
    {env : Env} {nx : NxCore} {e : Endpoints} {s t : Boot} → Step env nx e s t → ℕ
step_failures (Step.in_opens o) = open_failures o
step_failures (Step.out_opens o) = out_open_failures o
step_failures (Step.market_opens o) = open_failures o
step_failures _ = 0

unfoldable pub failures :
    {env : Env} {nx : NxCore} {e : Endpoints} {b : Boot} {n : ℕ} {s : Boot}
    → Reach env nx e b n s
    → ℕ
failures here = 0
failures (next r st) = failures r + step_failures st

abbrev pub StepSocket :
    {env : Env} {nx : NxCore} {e : Endpoints} {s t : Boot} → Step env nx e s t → Type 0
StepSocket (Step.in_opens o) = OpenSocket o
StepSocket (Step.out_opens o) = OutOpenSocket o
StepSocket (Step.market_opens o) = OpenSocket o
StepSocket _ = Unit {0}

-- ZeroMQ gave a socket at every attempt of the run.
abbrev pub AllSockets :
    {env : Env} {nx : NxCore} {e : Endpoints} {b : Boot} {n : ℕ} {s : Boot}
    → Reach env nx e b n s
    → Type 0
AllSockets here = Unit {0}
AllSockets (next r st) = AllSockets r × StepSocket st
