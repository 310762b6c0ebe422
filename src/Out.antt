-- ===== src/Out.antt =====
-- impl/all/core/wineing.cc, `cchan_out_thread`: the thread that passes responses on to the clients.
pub mod Forward
pub mod Start
use wineing.Prelude.{
  ℕ, ℤ, pos, is_neg, size_of_int, Bool, true, false, List, [], ◌∷◌, Option, none, some, ◌==◌,
  if◌then◌else◌,
}
use wineing.Prelude.Memory.{Bytes, memcpy, ◌>>=◌}
use wineing.Ctrl.{WCtrl, cmd_shutdown}
use wineing.Conc.{Shared}
use wineing.Reader.{Reader, reader_init, read_shared}
use wineing.Chan.{ZmqRecv, chan_recv, chan_send}
use wineing.Startup.{Progress, unbound, connecting, looping}

-- `new char[1024]` in the loop
abbrev pub out_buffer_size : ℕ
out_buffer_size = 1024

-- `_cchan_in_mem_copy`
unfoldable pub cchan_in_mem_copy : Bytes → ℕ → Bytes → Option (ℤ × Bytes)
cchan_in_mem_copy buffer size out_buffer = memcpy out_buffer buffer size >>= λ b. some (pos 0, b)

pub record OutState : Type 0 where
  pub reader : Reader
  pub sent : List Bytes  -- messages taken over by `cchan_out`, oldest first

-- One round: the shared state at the read, the memory of the new buffer, and what the sockets give.
pub record OutTurn : Type 0 where
  pub shared : Shared WCtrl
  pub memory : Bytes
  pub received : ZmqRecv
  pub send_rc : ℤ

-- Receive a message into the buffer and send it on.
unfoldable pub pass_on : OutTurn → Reader → List Bytes → Option OutState
pass_on t r sent = chan_recv t.received cchan_in_mem_copy t.memory >>= λ p.
    if is_neg p.0
    then some (record { reader = r; sent = sent })
    else (chan_send t.send_rc p.1 (size_of_int p.0) sent >>= λ q.
        some (record { reader = r; sent = q.1 }))

-- The body of the loop, and whether it breaks.
unfoldable pub out_turn : OutTurn → OutState → Option (Bool × OutState)
out_turn t st = read_shared t.shared st.reader >>= λ r.
    if r.t_data.cmd == cmd_shutdown
    then some (true, record { reader = r; sent = st.sent })
    else (pass_on t r st.sent >>= λ st'. some (false, st'))

-- `while(1)`
unfoldable pub out_loop : List OutTurn → OutState → Option OutState
out_loop [] st = some st
out_loop (t ∷ ts) st = out_turn t st >>= λ p. if p.0 then some p.1 else out_loop ts p.1

-- `cchan_out_thread`, given the codes of the two binds and the memory of `t_data`.
unfoldable pub cchan_out_thread : ℤ → ℤ → Bytes → List OutTurn → Option (Progress OutState)
cchan_out_thread out_rc in_mem_rc memory ts =
    if is_neg out_rc
    then some unbound
    else if is_neg in_mem_rc
    then some unbound
    else (out_loop ts (record { reader = reader_init memory; sent = [] }) >>= λ st.
        some (looping st))
