-- ===== src/Control/Faults.antt =====
-- impl/all/core/wineing.cc, `cchan_in_thread`: when the copy of a tape's path overflows the buffer.
use wineing.Prelude.{◌≤◌, ◌≡◌, ◌≢◌, some, length, false, is_neg}
use wineing.Prelude.Memory.{Bytes, c_str}
use wineing.Ctrl.{default_data_size, cmd_market_run}
use wineing.Proto.{Request, market_start}
use wineing.Control.{Env, InState}
use wineing.Control.Cases.{tape_path}

-- A start request, while the market is not running, for a tape that is there and whose path leaves
-- no room for its NUL byte.
pub record Overflows (env : Env) (req : Request) (s : InState) : Type 0 where
  pub file : Bytes
  pub starts : req.type ≡ market_start
  pub not_running : s.t_data.cmd ≢ cmd_market_run
  pub asked : req.tape_file ≡ some file
  pub found : is_neg (env.file_exists (c_str (tape_path env file))) ≡ false
  pub long : default_data_size ≤ length (tape_path env file)
