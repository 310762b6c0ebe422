-- ===== src/Boot.antt =====
-- impl/all/core/wineing.cc: `wineing_run` from its `pthread_create`s on. The three threads open their
-- channels, in any order and each at its own pace, and then run their loops as in `Program`.
pub mod Invariant
pub mod Safety
pub mod Hangs
pub mod Ending
pub mod Sockets
use wineing.Prelude.{ℕ, ℤ, suc, ◌≡◌, Bool, true, false, not, ◌&&◌, is_neg}
use wineing.Prelude.Memory.{Bytes}
use wineing.Control.{Env}
use wineing.Market.{NxCore}
use wineing.Chan.Socket.{
  Zmq, chan_init, chan_bind, chan_type_pub, chan_type_pull_bind, chan_type_push_connect,
}
use wineing.Chan.Sockets.{ichan_name}
use wineing.Program.{World, has_pull, InStep, OutStep, MarketStep, start}

-- `cchan_in_thread` and `market_thread`: before the bind of their first channel, in
-- `while(0 > chan_bind(...)) sleep(1)`, past it, or returned since the bind failed.
pub data Stage : Type 0 where
  starting connecting inside failed : Stage

-- `cchan_out_thread`: before its first bind, before the bind of the inproc channel, past both, or
-- returned since one of them failed.
pub data OutStage : Type 0 where
  out_starting out_half out_inside out_failed : OutStage

pub record Boot : Type 0 where
  pub program : World
  pub in_stage : Stage
  pub out_stage : OutStage
  pub market_stage : Stage

-- The endpoints of the configuration.
pub record Endpoints : Type 0 where
  pub cchan_in : Bytes
  pub cchan_out : Bytes
  pub mchan : Bytes

abbrev is_past : OutStage → Bool
is_past out_inside = true
is_past _ = false

-- `cchan_out_thread` has bound the inproc channel, and has not closed it again.
abbrev pub has_inproc : Boot → Bool
has_inproc s = is_past s.out_stage && has_pull s.program.out_pc

-- Whether `chan_bind` of a new channel fails, and where the thread goes on.
abbrev pub bind_fails : Zmq → Bytes → ℕ → Bool
bind_fails z fqcn type = is_neg (chan_bind z (chan_init fqcn type)).0

-- As ZeroMQ documents, a connect to an inproc endpoint fails while it is not bound.
abbrev pub IsInproc : Zmq → Boot → Type 0
IsInproc z s = has_inproc s ≡ false → is_neg (z.connect_rc ichan_name) ≡ true

-- How `cchan_in_thread` and `market_thread` open their channels, the first with the endpoint `fqcn`.
-- `z` is what ZeroMQ's calls give at the attempt.
pub data Opens (fqcn : Bytes) (type : ℕ) (s : Boot) (a : Stage) : Stage → Type 0 where
  binds : (z : Zmq) → a ≡ starting → bind_fails z fqcn type ≡ false → Opens fqcn type s a connecting
  gives_up : (z : Zmq) → a ≡ starting → bind_fails z fqcn type ≡ true → Opens fqcn type s a failed
  connects :
      (z : Zmq)
      → a ≡ connecting
      → IsInproc z s
      → bind_fails z ichan_name chan_type_push_connect ≡ false
      → Opens fqcn type s a inside
  sleeps :
      (z : Zmq)
      → a ≡ connecting
      → IsInproc z s
      → bind_fails z ichan_name chan_type_push_connect ≡ true
      → Opens fqcn type s a connecting

-- How `cchan_out_thread` opens its channels.
pub data OutOpens (fqcn : Bytes) (a : OutStage) : OutStage → Type 0 where
  binds_out :
      (z : Zmq)
      → a ≡ out_starting
      → bind_fails z fqcn chan_type_pub ≡ false
      → OutOpens fqcn a out_half
  gives_up_out :
      (z : Zmq)
      → a ≡ out_starting
      → bind_fails z fqcn chan_type_pub ≡ true
      → OutOpens fqcn a out_failed
  binds_inproc :
      (z : Zmq)
      → a ≡ out_half
      → bind_fails z ichan_name chan_type_pull_bind ≡ false
      → OutOpens fqcn a out_inside
  gives_up_inproc :
      (z : Zmq)
      → a ≡ out_half
      → bind_fails z ichan_name chan_type_pull_bind ≡ true
      → OutOpens fqcn a out_failed

-- One action of a thread: of its start, or of its loop.
pub data Step (env : Env) (nx : NxCore) (e : Endpoints) (s : Boot) : Boot → Type 0 where
  in_opens :
      {a : Stage}
      → Opens e.cchan_in chan_type_pull_bind s s.in_stage a
      → Step env nx e s (record s { in_stage = a })
  out_opens :
      {a : OutStage}
      → OutOpens e.cchan_out s.out_stage a
      → Step env nx e s (record s { out_stage = a })
  market_opens :
      {a : Stage}
      → Opens e.mchan chan_type_pub s s.market_stage a
      → Step env nx e s (record s { market_stage = a })
  in_runs :
      {w : World}
      → s.in_stage ≡ inside
      → InStep env s.program w
      → Step env nx e s (record s { program = w })
  out_runs :
      {w : World}
      → s.out_stage ≡ out_inside
      → OutStep s.program w
      → Step env nx e s (record s { program = w })
  market_runs :
      {w : World}
      → s.market_stage ≡ inside
      → MarketStep env nx s.program w
      → Step env nx e s (record s { program = w })

-- After the three `pthread_create`s. The arguments are the memories of `g_data` and the `t_data`.
abbrev pub boot : Bytes → Bytes → Bytes → Bytes → Bytes → Boot
boot g i o m t = record {
  program = start g i o m t;
  in_stage = starting;
  out_stage = out_starting;
  market_stage = starting;
}

-- The states that `wineing_run` reaches from `b`, and in how many actions.
pub data Reach (env : Env) (nx : NxCore) (e : Endpoints) (b : Boot) : ℕ → Boot → Type 0 where
  here : Reach env nx e b 0 b
  next :
      {n : ℕ} {s t : Boot} → Reach env nx e b n s → Step env nx e s t → Reach env nx e b (suc n) t
