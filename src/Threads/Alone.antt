-- ===== src/Threads/Alone.antt =====
-- impl/all/conc/conc.cc: a thread that runs a function of conc.cc with no other thread in between
-- makes the steps that come to the function of Conc.
pub mod Writer
pub mod Reader
use mathlib.Core.Logic.{if_pos}
use native.Mathlib.Decide.{ℕ_discrete}
use wineing.Prelude.{
  subst, eq→==, ne→==, ◌==◌, ℕ, suc, ◌≡◌, ◌≢◌, refl, ◌∙◌, sym, ap, Bool, true, false, Option, some,
  ltb, if◌then◌else◌, arith,
}
use wineing.Prelude.Memory.{Bytes, ◌>>=◌, >>=-eq-some, memcpy}
use wineing.Ctrl.{WCtrl, copy_local_to_shared, copy_shared_to_local}
use wineing.Ctrl.Copy.{copy_shared_to_local-swap}
use wineing.Conc.{next_version, Shared, lazy_update_global_if_owner, lazy_update_local_if_changed}
use wineing.Threads.{
  Pc, idle, waiting, entered, Lock, free, Memory, Local, copy_data, WriterMove, ReaderMove, World,
  update, record_value, Step,
}

pub data Steps (s : World) : World → Type 0 where
  done : Steps s s
  more : {t u : World} → Steps s t → Step t u → Steps s u

-- The copy functions, as the stores that the steps make.
if-bind :
    (c : Bool) (x y : Option Bytes) (f : Bytes → Option WCtrl)
    → (if c then (x >>= f) else (y >>= f)) ≡ ((if c then x else y) >>= f)
if-bind true x y f = refl
if-bind false x y f = refl

pub copy_local_to_shared-copy_data :
    (local shared : WCtrl)
    → copy_local_to_shared local shared ≡ (
        copy_data shared local >>= λ b.
        some (record { cmd = local.cmd; buffer = b; size = local.size }))
unfolding copy_local_to_shared copy_data
copy_local_to_shared-copy_data local shared =
    if-bind (ltb 0 local.size) (memcpy shared.buffer local.buffer local.size) (some shared.buffer)
      (λ b. some (record { cmd = local.cmd; buffer = b; size = local.size }))

-- The block as the fields of the memory.
abbrev pub shared_of : Memory → Shared WCtrl
shared_of m = record { version = m.version; value = m.value }
