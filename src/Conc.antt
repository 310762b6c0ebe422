-- ===== src/Conc.antt =====
-- impl/all/conc/conc.cc: state shared among threads behind a version number, run without
-- interference. `D` is the type of the data, `none` stands for a memory fault in the copy
-- function `fn`. The global version `g_version` is an `int`, kept as its bit pattern below 2^32.
pub mod Owners
use wineing.Prelude.{ℕ, ◌+◌, ◌%◌, ◌^◌, Option, some, ◌==◌, if◌then◌else◌}
use wineing.Prelude.Memory.{◌>>=◌}

-- `g_version` and the memory `*g_data`
pub record Shared {ℓ} (D : Type ℓ) : Type ℓ where
  pub version : ℕ
  pub value : D

-- `++t_version` on an `int`. C++ leaves the overflow at 2^31 - 1 undefined; the value is that of a machine that
-- wraps.
abbrev pub next_version : ℕ → ℕ
next_version v = (v + 1) % 2 ^ 32

module _ {ℓ} {D : Type ℓ} where
  unfoldable pub lazy_init : ℕ → Shared D → Shared D
  lazy_init initial_version g = record g { version = initial_version }

  -- The result is the version that the function returns, and the shared state after the call.
  unfoldable pub lazy_update_global_if_owner :
      (fn : D → D → Option D) → ℕ → D → Shared D → Option (ℕ × Shared D)
  lazy_update_global_if_owner fn t_version t_data g =
      if t_version == g.version
      then (fn t_data g.value >>= λ d.
          some (next_version t_version, record { version = next_version t_version; value = d }))
      else some (g.version, g)

  -- The result is the version that the function returns, and the thread's data after the call.
  unfoldable pub lazy_update_local_if_changed :
      (fn : D → D → Option D) → ℕ → D → Shared D → Option (ℕ × D)
  lazy_update_local_if_changed fn t_version t_data g =
      if t_version == g.version
      then some (t_version, t_data)
      else (fn t_data g.value >>= λ d. some (g.version, d))
