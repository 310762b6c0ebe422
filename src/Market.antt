-- ===== src/Market.antt =====
-- impl/all/core/wineing.cc, `market_thread`, and impl/wine/nx/nxtape.cc: the thread that runs NxCore
-- and the callback that NxCore calls. Both read the shared control block through copies of their own.
pub mod Callback
pub mod Loop
pub mod Replay
use wineing.Prelude.{
  ℕ, ℤ, pos, List, [], ◌∷◌, ◌++◌, Option, none, some, ◌==◌, ltb, if◌then◌else◌, length, is_neg,
  Bool, true, false,
}
use wineing.Prelude.Memory.{Bytes, ◌>>=◌}
use wineing.Ctrl.{WCtrl, cmd_market_run, cmd_market_stop, cmd_shutdown}
use wineing.Conc.{Shared}
use wineing.Reader.{Reader, reader_init, read_shared}
use wineing.Proto.{MarketDataType, status, Codec}
use wineing.Chan.{chan_send}
use wineing.Startup.{Progress, unbound, connecting, looping, connects}

-- What a round of the inner loop does after its read: it leaves the inner loop, jumps to
-- `shutdown`, calls `wininf_nxcore_run` with the memory that `t_data.data` points to, or sleeps.
pub data Action : Type 0 where
  stopping leaving sleeping : Action
  running : Bytes → Action

abbrev pub action : WCtrl → Action
action d =
    if d.cmd == cmd_market_stop
    then stopping
    else if d.cmd == cmd_shutdown
    then leaving
    else if d.cmd == cmd_market_run
    then running d.buffer
    else sleeping

-- The body of the inner loop, at the shared state that the read finds.
unfoldable pub market_turn : Shared WCtrl → Reader → Option (Action × Reader)
market_turn g r = read_shared g r >>= λ r'. some (action r'.t_data, r')

abbrev pub is_leaving : Action → Bool
is_leaving leaving = true
is_leaving _ = false

-- Both loops, over the shared states that the reads find. After `stopping` the inner loop ends, and
-- the outer one starts it again at once.
unfoldable pub market_loop : List (Shared WCtrl) → Reader → Option (List Action)
market_loop [] r = some []
market_loop (g ∷ gs) r = market_turn g r >>= λ p.
    if is_leaving p.0 then some (p.0 ∷ []) else (market_loop gs p.1 >>= λ rest. some (p.0 ∷ rest))

-- `market_thread`, given the code of the bind to `mchan`, those of the attempts at the inproc
-- channel, the memory of `t_data` and the shared states.
unfoldable pub market_thread :
    ℤ → List ℤ → Bytes → List (Shared WCtrl) → Option (Progress (List Action))
market_thread bind_rc connect_rcs memory gs =
    if is_neg bind_rc
    then some unbound
    else if connects connect_rcs
    then (market_loop gs (reader_init memory) >>= λ acts. some (looping acts))
    else some connecting

-- The constants of NxCoreAPI.h that the callback uses.
pub record NxCore : Type 0 where
  pub msg_status : ℕ
  pub callback_stop : ℤ
  pub callback_continue : ℤ

-- The static variables of `nxtape_process`, and what the socket of `g_mchan` has taken over.
pub record NxTape : Type 0 where
  pub reader : Reader
  pub sent : List Bytes

abbrev pub next_step : NxCore → WCtrl → ℤ
next_step nx d = if ltb d.cmd cmd_market_run then nx.callback_stop else nx.callback_continue

-- `nxtape_process`, at a message of type `message_type`; `send_rc` is what `zmq_send` returns.
unfoldable pub nxtape_process : NxCore → Codec → Shared WCtrl → ℕ → ℤ → NxTape → Option (ℤ × NxTape)
nxtape_process nx codec g message_type send_rc st = read_shared g st.reader >>= λ r.
    if message_type == nx.msg_status
    then (let bytes = codec.serialize_market status in
        chan_send send_rc bytes (length bytes) st.sent >>= λ p.
        some (next_step nx r.t_data, record { reader = r; sent = p.1 }))
    else some (next_step nx r.t_data, record { reader = r; sent = st.sent })
