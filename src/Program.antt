-- ===== src/Program.antt =====
-- impl/all/core/wineing.cc and impl/wine/nx/nxtape.cc: the three threads and the NxCore callback as
-- one program, in any order of their actions. An action of a thread is what it does between two
-- accesses to what the threads share: the control block and the inproc channel. A read or an update
-- of the block is one action; `Threads` looks inside it.
pub mod Invariant
pub mod Moves
pub mod Answers
pub mod Safety
pub mod Obeys
pub mod Plays
pub mod Leaks
pub mod Prompt
pub mod Delivery
pub mod Calls
pub mod Ending
use wineing.Prelude.{
  ℕ, suc, ◌^◌, ◌<◌, ◌≡◌, Bool, true, false, List, [], ◌∷◌, ◌++◌, Option, some, ◌==◌, ltb,
  if◌then◌else◌, length, is_neg, is_pos, ℤ, pos,
}
use wineing.Prelude.Memory.{Bytes}
use wineing.Ctrl.{cmd_shutdown}
use wineing.Proto.{Request, Response}
use wineing.Chan.{ZmqRecv, chan_recv}
use wineing.Control.{Env, InState, cleared, recv_ctrl, process, reply, in_start}
use wineing.Reader.{Reader, reader_init, read_shared}
use wineing.Market.{
  Action, stopping, leaving, sleeping, running, market_turn, NxCore, NxTape, nxtape_process,
}
use wineing.Out.{OutTurn, OutState, out_buffer_size, pass_on}

-- `cchan_in_thread`: at the head of its loop, before `chan_send`, or ended.
pub data InPc : Type 0 where
  listening in_done : InPc
  answering : Response → InPc

-- `cchan_out_thread`: before its read of the block, in `chan_recv`, past its loop with its channels
-- still open, or ended.
pub data OutPc : Type 0 where
  out_reading out_receiving out_closing out_done : OutPc

-- The PULL end of the inproc channel is open.
abbrev pub has_pull : OutPc → Bool
has_pull out_done = false
has_pull _ = true

-- `market_thread`: before its read of the block, in `wininf_nxcore_run`, the same after the callback
-- has told NxCore to stop, or ended.
pub data MarketPc : Type 0 where
  market_reading in_nxcore nx_stopping market_done : MarketPc

-- `queue` holds what the inproc channel has taken over and not yet delivered. `heard`, `unsent` and
-- `dropped` only record the requests that were processed, and the responses whose send to the inproc
-- channel, or to the clients, failed.
pub record World : Type 0 where
  pub control : InState
  pub in_pc : InPc
  pub queue : List Bytes
  pub out : OutState
  pub out_pc : OutPc
  pub market : Reader
  pub tape : NxTape
  pub market_pc : MarketPc
  pub heard : List Request
  pub unsent : ℕ
  pub dropped : ℕ

abbrev pub enqueue : ℤ → Bytes → List Bytes → List Bytes
enqueue rc m queue = if is_neg rc then queue else queue ++ m ∷ []

-- As ZeroMQ documents, `zmq_send` on a PUSH socket blocks while no PULL end is there: the response
-- is sent only before `cchan_out_thread` closes its end.
pub data InStep (env : Env) (s : World) : World → Type 0 where
  hears :
      (z : ZmqRecv) (n : ℤ) (req : Request) (res : Response) (c : InState)
      → s.in_pc ≡ listening
      → ltb cmd_shutdown s.control.t_data.cmd ≡ true
      → chan_recv z (recv_ctrl env.codec) cleared ≡ some (n, req)
      → is_pos n ≡ true
      → process env req s.control ≡ some (res, c)
      → InStep env s (record s { control = c; in_pc = answering res; heard = s.heard ++ req ∷ [] })
  hears_nothing :
      (z : ZmqRecv) (n : ℤ) (req : Request)
      → s.in_pc ≡ listening
      → ltb cmd_shutdown s.control.t_data.cmd ≡ true
      → chan_recv z (recv_ctrl env.codec) cleared ≡ some (n, req)
      → is_pos n ≡ false
      → InStep env s s
  answers :
      (rc : ℤ) (res : Response) (c : InState)
      → s.in_pc ≡ answering res
      → has_pull s.out_pc ≡ true
      → reply env rc (res, s.control) ≡ some c
      → InStep env s (record s {
        control = c;
        in_pc = listening;
        queue = enqueue rc (env.codec.serialize_response res) s.queue;
        unsent = if is_neg rc then suc s.unsent else s.unsent;
      })
  in_leaves :
      s.in_pc ≡ listening
      → ltb cmd_shutdown s.control.t_data.cmd ≡ false
      → InStep env s (record s { in_pc = in_done })

-- protobuf makes no message of 2^31 bytes or more.
pub data OutStep (s : World) : World → Type 0 where
  out_reads :
      (r : Reader)
      → s.out_pc ≡ out_reading
      → read_shared s.control.shared s.out.reader ≡ some r
      → (r.t_data.cmd == cmd_shutdown) ≡ false
      → OutStep s (record s { out = record s.out { reader = r }; out_pc = out_receiving })
  out_leaves :
      (r : Reader)
      → s.out_pc ≡ out_reading
      → read_shared s.control.shared s.out.reader ≡ some r
      → (r.t_data.cmd == cmd_shutdown) ≡ true
      → OutStep s (record s { out = record s.out { reader = r }; out_pc = out_closing })
  out_closes : s.out_pc ≡ out_closing → OutStep s (record s { out_pc = out_done })
  passes :
      (t : OutTurn) (m : Bytes) (rest : List Bytes) (st : OutState)
      → s.out_pc ≡ out_receiving
      → s.queue ≡ m ∷ rest
      → length t.memory ≡ out_buffer_size
      → t.received ≡ record { rc = pos 0; message = m }
      → length m < 2 ^ 31
      → pass_on t s.out.reader s.out.sent ≡ some st
      → OutStep s (record s {
        queue = rest;
        out = st;
        out_pc = out_reading;
        dropped = if is_neg t.send_rc then suc s.dropped else s.dropped;
      })
  fails :
      (t : OutTurn) (st : OutState)
      → s.out_pc ≡ out_receiving
      → length t.memory ≡ out_buffer_size
      → is_neg t.received.rc ≡ true
      → pass_on t s.out.reader s.out.sent ≡ some st
      → OutStep s (record s { out = st; out_pc = out_reading })

-- Where the market thread goes on after a read. After `stopping` the outer loop starts again.
abbrev pub after : Action → MarketPc
after (running m) = in_nxcore
after leaving = market_done
after _ = market_reading

-- NxCore calls the callback any number of times until that returns `callback_stop`, and
-- `wininf_nxcore_run` returns after that, at the end of the tape, or at once.
pub data MarketStep (env : Env) (nx : NxCore) (s : World) : World → Type 0 where
  market_reads :
      (a : Action) (r : Reader)
      → s.market_pc ≡ market_reading
      → market_turn s.control.shared s.market ≡ some (a, r)
      → MarketStep env nx s (record s { market = r; market_pc = after a })
  nx_calls :
      (message : ℕ) (rc : ℤ) (n : NxTape)
      → s.market_pc ≡ in_nxcore
      → nxtape_process nx env.codec s.control.shared message rc s.tape
        ≡ some (nx.callback_continue, n)
      → MarketStep env nx s (record s { tape = n })
  nx_stops :
      (message : ℕ) (rc : ℤ) (n : NxTape)
      → s.market_pc ≡ in_nxcore
      → nxtape_process nx env.codec s.control.shared message rc s.tape ≡ some (nx.callback_stop, n)
      → MarketStep env nx s (record s { tape = n; market_pc = nx_stopping })
  nx_ends : s.market_pc ≡ in_nxcore → MarketStep env nx s (record s { market_pc = market_reading })
  nx_obeys :
      s.market_pc ≡ nx_stopping → MarketStep env nx s (record s { market_pc = market_reading })

pub data Step (env : Env) (nx : NxCore) (s t : World) : Type 0 where
  control : InStep env s t → Step env nx s t
  out : OutStep s t → Step env nx s t
  market : MarketStep env nx s t → Step env nx s t

-- Every thread has opened its channels and stands before its loop. The arguments are the memories of
-- `g_data` and of the four `t_data`.
abbrev pub start : Bytes → Bytes → Bytes → Bytes → Bytes → World
start g_memory in_memory out_memory market_memory tape_memory = record {
  control = in_start g_memory in_memory;
  in_pc = listening;
  queue = [];
  out = record { reader = reader_init out_memory; sent = [] };
  out_pc = out_reading;
  market = reader_init market_memory;
  tape = record { reader = reader_init tape_memory; sent = [] };
  market_pc = market_reading;
  heard = [];
  unsent = 0;
  dropped = 0;
}

-- The states that the program reaches from `w`, and in how many actions.
pub data Reach (env : Env) (nx : NxCore) (w : World) : ℕ → World → Type 0 where
  here : Reach env nx w 0 w
  next : {n : ℕ} {s t : World} → Reach env nx w n s → Step env nx s t → Reach env nx w (suc n) t
