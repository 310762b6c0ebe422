-- ===== src/Control.antt =====
-- impl/all/core/wineing.cc, `cchan_in_thread`: the thread that serves control requests. It is the
-- only one that writes the shared control block.
pub mod Owner
pub mod Cases
pub mod Outcome
pub mod Faults
pub mod Spec
pub mod Updates
pub mod Round
pub mod Loop
pub mod Start
pub mod Tape
use wineing.Prelude.{
  ℕ, ℤ, pos, negsuc, is_neg, is_pos, suc, ◌+◌, List, [], ◌∷◌, ◌++◌, Option, none, some, ltb, ◌==◌,
  if◌then◌else◌, length, take,
}
use wineing.Prelude.Memory.{Bytes, codes, c_str, memcpy, ◌>>=◌}
use wineing.Ctrl.{
  WCtrl, w_ctrl_init, copy_local_to_shared, cmd_market_run, cmd_market_stop, cmd_shutdown,
  shared_version_init,
}
use wineing.Conc.{Shared, lazy_update_global_if_owner}
use wineing.Proto.{
  Request, RequestType, market_start, market_stop, shutdown, Response, ResponseType,
  market_start_ok, market_stop_ok, shutdown_ok, err, market_start_err_running, Codec,
}
use wineing.Chan.{ZmqRecv, chan_recv, chan_send}
use wineing.Startup.{Progress, unbound, connecting, looping, connects}

-- What the thread works with: `ctx->conf->tape_basedir`, `wininf_file_exists` (given the memory of
-- a C string) and the generated message code.
pub record Env : Type 0 where
  pub tape_basedir : Bytes
  pub file_exists : Bytes → ℤ
  pub codec : Codec

pub record InState : Type 0 where
  pub t_version : ℕ
  pub t_data : WCtrl
  pub shared : Shared WCtrl
  pub signals : ℕ  -- calls of `pthread_cond_signal` on `g_market_sync_cond`
  pub sent : List Bytes  -- messages taken over by the inproc channel, oldest first

-- Set `t_data.cmd` and call `lazy_update_global_if_owner`.
unfoldable pub publish : ℕ → InState → Option InState
publish c s =
    let local = record s.t_data { cmd = c } in
    lazy_update_global_if_owner copy_local_to_shared s.t_version local s.shared >>= λ r.
    some (record s { t_version = r.0; t_data = local; shared = r.1 })

unfoldable pub signal : InState → InState
signal s = record s { signals = suc s.signals }

abbrev pub respond : Request → ResponseType → Response
respond req t = record { request_id = req.request_id; type = t; err_text = none }

abbrev pub respond_err : Request → ResponseType → Bytes → Response
respond_err req t text = record { request_id = req.request_id; type = t; err_text = some text }

abbrev pub already_running : Bytes
already_running = codes "Already in RUNNING state."

abbrev pub not_found : Bytes → Bytes
not_found tape = codes "File '" ++ tape ++ codes "' not found."

-- The tape's path goes to `t_data`, with its NUL byte.
unfoldable pub set_tape : Bytes → InState → Option InState
set_tape tape s = memcpy s.t_data.buffer (c_str tape) (length tape + 1) >>= λ b.
    some (record s { t_data = record s.t_data { buffer = b; size = length tape + 1 } })

unfoldable pub start_market : Request → InState → Option (Response × InState)
start_market req s =
    publish cmd_market_run s >>= λ s'. some (respond req market_start_ok, signal s')

-- `case Request::MARKET_START`
unfoldable pub on_market_start : Env → Request → InState → Option (Response × InState)
unfolding start_market
on_market_start env req s =
    if s.t_data.cmd == cmd_market_run
    then some (respond_err req market_start_err_running already_running, s)
    else (let s' = record s { t_data = record s.t_data { size = 0 } } in
        elim req.tape_file [
          | none ↦ start_market req s'
          | some file ↦
              (let tape = env.tape_basedir ++ file in
                if is_neg (env.file_exists (c_str tape))
                then some (respond_err req err (not_found tape), s')
                else (set_tape tape s' >>= start_market req))
        ])

-- `case Request::MARKET_STOP`
unfoldable pub on_market_stop : Request → InState → Option (Response × InState)
on_market_stop req s = publish cmd_market_stop s >>= λ s'. some (respond req market_stop_ok, s')

-- `case Request::SHUTDOWN`
unfoldable pub on_shutdown : Request → InState → Option (Response × InState)
on_shutdown req s = publish cmd_shutdown s >>= λ s'. some (respond req shutdown_ok, signal s')

abbrev pub dispatch : RequestType → Env → Request → InState → Option (Response × InState)
dispatch market_start env req s = on_market_start env req s
dispatch market_stop env req s = on_market_stop req s
dispatch shutdown env req s = on_shutdown req s

-- The `switch(req.type())`.
unfoldable pub process : Env → Request → InState → Option (Response × InState)
unfolding on_market_start on_market_stop on_shutdown
process env req s = dispatch req.type env req s

-- A request after `req.Clear()`.
abbrev pub cleared : Request
cleared = record { request_id = pos 0; type = market_start; tape_file = none }

-- `_recv_ctrl`. After a failed parse nobody reads the object. A size of 2^31 or more, which the source
-- hands to protobuf as a negative `int`, counts as a fault.
unfoldable pub recv_ctrl : Codec → Bytes → ℕ → Request → Option (ℤ × Request)
recv_ctrl codec buffer size obj =
    if ltb (length buffer) size then none else elim (codec.parse_request (take size buffer)) [
      | none ↦ some (negsuc 0, obj)
      | some r ↦ some (pos 0, r)
    ]

-- What the sockets give in one round of the loop.
pub record Turn : Type 0 where
  pub received : ZmqRecv
  pub send_rc : ℤ

-- The response is serialised and sent; a failed send is logged and the loop goes on.
unfoldable pub reply : Env → ℤ → Response × InState → Option InState
reply env rc (res, s) =
    let bytes = env.codec.serialize_response res in
    chan_send rc bytes (length bytes) s.sent >>= λ r. some (record s { sent = r.1 })

-- The body of the loop.
unfoldable pub in_turn : Env → Turn → InState → Option InState
in_turn env t s = chan_recv t.received (recv_ctrl env.codec) cleared >>= λ r.
    if is_pos r.0 then (process env r.1 s >>= reply env t.send_rc) else some s

-- `while (WINEING_CTRL_CMD_SHUTDOWN < t_data.cmd)`, over what the sockets give; where that ends,
-- the thread waits in `chan_recv`.
unfoldable pub in_loop : Env → List Turn → InState → Option InState
in_loop env [] s = some s
in_loop env (t ∷ ts) s =
    if ltb cmd_shutdown s.t_data.cmd then (in_turn env t s >>= λ s'. in_loop env ts s') else some s

-- The state in which the loop starts: `lazy_init` has run and the channels are there. The two
-- arguments are the memory of `g_data` and of `t_data`.
unfoldable pub in_start : Bytes → Bytes → InState
in_start g_memory t_memory = record {
  t_version = shared_version_init;
  t_data = w_ctrl_init t_memory;
  shared = record { version = shared_version_init; value = w_ctrl_init g_memory };
  signals = 0;
  sent = [];
}

-- `cchan_in_thread`, given the code of the bind to `cchan_in`, those of the attempts at the inproc
-- channel, and the two memories.
unfoldable pub cchan_in_thread :
    Env → ℤ → List ℤ → Bytes → Bytes → List Turn → Option (Progress InState)
cchan_in_thread env bind_rc connect_rcs g_memory t_memory ts =
    if is_neg bind_rc
    then some unbound
    else if connects connect_rcs
    then (in_loop env ts (in_start g_memory t_memory) >>= λ s. some (looping s))
    else some connecting
