-- ===== src/Threads/Atomic.antt =====
-- impl/all/conc/conc.cc: the two functions as single actions, which is how the other modules take
-- them, on the state that one writer and any number of readers share.
pub mod Simulation
pub mod Inside
pub mod Updates
pub mod Calls
pub mod Runs
use mathlib.Core.Logic.{ite}
use native.Mathlib.Decide.{ℕ_discrete}
use wineing.Prelude.{ℕ, ◌≡◌, Option, none, some, List, [], ◌∷◌}
use wineing.Ctrl.{WCtrl, copy_local_to_shared, shared_version_init, shared_version_read_init}
use wineing.Conc.{Shared, lazy_update_global_if_owner}
use wineing.Threads.{World, Memory, Local, WriterMove, ReaderMove, Step, Reach, here, next}
use wineing.Threads.Alone.{Steps, done, more}
use wineing.Reader.{Reader, read_shared}

-- `t_version` and `t_data` of the writer have the form of a reader's.
pub record Atoms : Type 0 where
  pub shared : Shared WCtrl
  pub writer : Reader
  pub readers : ℕ → Reader

abbrev pub set : (ℕ → Reader) → ℕ → Reader → ℕ → Reader
set f i r j = ite (ℕ_discrete i j) r (f j)

-- One action: the writer's work on its `t_data`, a call of the writer, or a call of a reader.
pub data Act (a : Atoms) : Atoms → Type 0 where
  prepares : (d : WCtrl) → Act a (record a { writer = record a.writer { t_data = d } })
  updates :
      (v : ℕ) (g : Shared WCtrl)
      → lazy_update_global_if_owner copy_local_to_shared a.writer.t_version a.writer.t_data a.shared
        ≡ some (v, g)
      → Act a (record a { shared = g; writer = record a.writer { t_version = v } })
  reads :
      (i : ℕ) (r : Reader)
      → read_shared a.shared (a.readers i) ≡ some r
      → Act a (record a { readers = set a.readers i r })

-- What an action stands for.
pub data Event : Type 0 where
  prepared updated : Event
  was_read : ℕ → Event

abbrev pub event : {a b : Atoms} → Act a b → Event
event (Act.prepares d) = prepared
event (Act.updates v g e) = updated
event (Act.reads i r e) = was_read i

-- A run of single actions, with what they stand for, the last one first.
pub data Acts (a : Atoms) : List Event → Atoms → Type 0 where
  none_yet : Acts a [] a
  then_act : {es : List Event} {b c : Atoms} → Acts a es b → (x : Act b c) → Acts a (event x ∷ es) c

-- The steps that count as the calls: the writer's last store, and a reader's last load, or its test
-- where that finds the same version.
abbrev pub writer_event : {m n : Memory} {l k : Local} → WriterMove m l n k → Option Event
writer_event (WriterMove.prepare d e) = some prepared
writer_event (WriterMove.store_data b e c) = some updated
writer_event _ = none

abbrev pub reader_event : {i : ℕ} {m n : Memory} {l k : Local} → ReaderMove i m l n k → Option Event
reader_event {i} (ReaderMove.same e o) = some (was_read i)
reader_event {i} (ReaderMove.load_data b e c) = some (was_read i)
reader_event _ = none

abbrev pub step_event : {s t : World} → Step s t → Option Event
step_event (Step.writes mv) = writer_event mv
step_event (Step.store_version e) = none
step_event (Step.reads i mv) = reader_event mv

abbrev pub log_event : Option Event → List Event → List Event
log_event none es = es
log_event (some e) es = e ∷ es

-- The calls of a run of the threads, the last one first.
unfoldable pub calls : {s t : World} → Steps s t → List Event
calls done = []
calls (more st x) = log_event (step_event x) (calls st)

unfoldable pub history :
    {g_data t_data : WCtrl} {r_data : ℕ → WCtrl} {s : World}
    → Reach g_data t_data r_data s
    → List Event
history here = []
history (next r x) = log_event (step_event x) (history r)

abbrev pub begin : WCtrl → WCtrl → (ℕ → WCtrl) → Atoms
begin g_data t_data r_data = record {
  shared = record { version = shared_version_init; value = g_data };
  writer = record { t_version = shared_version_init; t_data = t_data };
  readers = λ i. record { t_version = shared_version_read_init; t_data = r_data i };
}
