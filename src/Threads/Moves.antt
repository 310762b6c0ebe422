-- ===== src/Threads/Moves.antt =====
-- impl/all/conc/conc.cc: every step of a thread keeps the invariant.
pub mod Writer
pub mod Reader
use wineing.Prelude.{
  ℕ, suc, ◌≤◌, ◌<◌, ◌≡◌, ◌≢◌, refl, ◌∙◌, ◌⊎◌, inl, inr, some, take, arith, sym, subst,
}
use mathlib.Core.Logic.{if_pos, if_neg}
use native.Mathlib.Decide.{ℕ_discrete}
use wineing.Prelude.Memory.{Bytes}
use wineing.Conc.{next_version}
use wineing.Ctrl.{shared_version_read_init}
use wineing.Ctrl.Copy.{Shows, Shows-trans}
use wineing.Threads.{
  entered, versioned, size_copied, data_copied, free, by_writer, by_reader, Memory, Local, World,
  copy_data, WriterMove, ReaderMove, Step, update, record_value,
}
use wineing.Threads.Invariant.{
  Known, Writing, Reading, Inv, take-copy_data, Writing-frame, Writing-Shows, Reading-frame,
}
use wineing.Threads.Moves.Writer.{WriterMove-Inv, store_version-Inv}
use wineing.Threads.Moves.Reader.{ReaderMove-Inv}

-- A step of any thread keeps the invariant, if fewer than 2^32 - 1 updates are made.
pub Step-Inv : {s t : World} → Step s t → t.updates < shared_version_read_init → Inv s → Inv t
Step-Inv {s} (Step.writes mv) b v = WriterMove-Inv s v mv
Step-Inv {s} (Step.store_version e) b v = store_version-Inv s v e b
Step-Inv {s} (Step.reads i mv) b v = ReaderMove-Inv i s v mv

-- The number of updates never falls.
pub Step-updates : {s t : World} → Step s t → s.updates ≤ t.updates
Step-updates (Step.writes mv) = omega arith
Step-updates (Step.store_version e) = omega arith
Step-updates (Step.reads i mv) = omega arith
