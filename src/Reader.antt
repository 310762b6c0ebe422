-- ===== src/Reader.antt =====
-- impl/all/core/wineing.cc and impl/wine/nx/nxtape.cc: how a thread reads the shared control block,
-- in `market_thread`, `cchan_out_thread` and `nxtape_process`.
pub mod Fresh
pub mod Behind
pub mod Skip
pub mod Wrap
use wineing.Prelude.{ℕ, Option, none, some}
use wineing.Prelude.Memory.{Bytes, ◌>>=◌}
use wineing.Ctrl.{WCtrl, w_ctrl_init, copy_shared_to_local, shared_version_read_init}
use wineing.Conc.{Shared, lazy_update_local_if_changed}

-- The variables `t_version` and `t_data` of a thread that only reads.
pub record Reader : Type 0 where
  pub t_version : ℕ
  pub t_data : WCtrl

-- Their initial values, with the memory that `new char[...]` returned.
unfoldable pub reader_init : Bytes → Reader
reader_init memory = record { t_version = shared_version_read_init; t_data = w_ctrl_init memory }

-- `t_version = lazy_update_local_if_changed(t_version, &t_data, &g_data, _copy_shared_to_local)`
unfoldable pub read_shared : Shared WCtrl → Reader → Option Reader
read_shared g r = lazy_update_local_if_changed copy_shared_to_local r.t_version r.t_data g >>= λ p.
    some (record { t_version = p.0; t_data = p.1 })
