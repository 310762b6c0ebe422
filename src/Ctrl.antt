-- ===== src/Ctrl.antt =====
-- inc/core/wineing.h: the control block `w_ctrl` that the threads share, the values of its `cmd`,
-- and the two functions that copy it between a thread's memory and the shared memory.
pub mod Copy
use wineing.Prelude.{ℕ, ◌-◌, ◌^◌, ◌≡◌, Option, none, some, ltb, if◌then◌else◌, length}
use wineing.Prelude.Memory.{Bytes, memcpy, ◌>>=◌}

-- DEFAULTS_SHARED_VERSION_INIT
abbrev pub shared_version_init : ℕ
shared_version_init = 0

-- DEFAULTS_SHARED_VERSION_READ_INIT: the `int` -1, as its bit pattern
abbrev pub shared_version_read_init : ℕ
shared_version_read_init = 2 ^ 32 - 1

-- WINEING_CTRL_CMD_*
abbrev pub cmd_init : ℕ
cmd_init = 4

abbrev pub cmd_market_run : ℕ
cmd_market_run = 3

abbrev pub cmd_market_stop : ℕ
cmd_market_stop = 2

abbrev pub cmd_market_init : ℕ
cmd_market_init = 1

abbrev pub cmd_shutdown : ℕ
cmd_shutdown = 0

-- WINEING_CTRL_DEFAULT_DATA_SIZE
abbrev pub default_data_size : ℕ
default_data_size = 1024

-- `w_ctrl`; `buffer` is the memory that its field `data` points to.
pub record WCtrl : Type 0 where
  pub cmd : ℕ
  pub buffer : Bytes
  pub size : ℕ

-- The initial value of every `w_ctrl`; `memory` is what `new char[...]` returned, not initialised.
abbrev pub w_ctrl_init : Bytes → WCtrl
w_ctrl_init memory = record { cmd = cmd_init; buffer = memory; size = 0 }

unfoldable pub copy_local_to_shared : WCtrl → WCtrl → Option WCtrl
copy_local_to_shared local shared =
    if ltb 0 local.size
    then (memcpy shared.buffer local.buffer local.size >>= λ b.
        some (record { cmd = local.cmd; buffer = b; size = local.size }))
    else some (record { cmd = local.cmd; buffer = shared.buffer; size = local.size })

unfoldable pub copy_shared_to_local : WCtrl → WCtrl → Option WCtrl
copy_shared_to_local local shared =
    if ltb 0 shared.size
    then (memcpy local.buffer shared.buffer shared.size >>= λ b.
        some (record { cmd = shared.cmd; buffer = b; size = shared.size }))
    else some (record { cmd = shared.cmd; buffer = local.buffer; size = shared.size })
