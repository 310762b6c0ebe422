-- ===== src/Tests/Calls.antt =====
-- A reader that waits for the lock while the writer holds it.
use wineing.Prelude.{ℕ, ◌≤◌, ◌≡◌, refl, some, arith}
use wineing.Ctrl.{shared_version_read_init, WCtrl, cmd_init}
use wineing.Ctrl.Copy.{IsValid}
use wineing.Threads.{Local, World, WriterMove, ReaderMove, Step, Reach, here, next, idle}
use wineing.Threads.Safety.{place}
use wineing.Threads.Progress.{Sound, update-allocated}
use wineing.Threads.Progress.Returns.{Runs, call_returns}
use wineing.Tests.Data.{memory, length-memory}

abbrev empty : WCtrl
empty = record { cmd = cmd_init; buffer = memory; size = 0 }

empty-IsValid : IsValid empty
empty-IsValid = record { allocated = length-memory; within = omega arith }

-- A reader as it starts.
abbrev fresh_reader : Local
fresh_reader = record { t_version = shared_version_read_init; t_data = empty; pc = idle }

abbrev locked : (s : World) × Reach empty empty (λ i. empty) s
locked = (
  _,
  next
      (next (next here (Step.writes (WriterMove.owns refl refl)))
        (Step.reads 0 (ReaderMove.changed refl (λ e. omega (arith, e)))))
      (Step.writes (WriterMove.lock refl refl)),
)

locked-Sound : Sound locked.0
locked-Sound = record {
  shared_valid = empty-IsValid;
  writer_valid = empty-IsValid;
  allocated = update-allocated (λ i. fresh_reader) 0 _ (λ i. length-memory) length-memory;
}

call_returns_example :
    (k : ℕ) × (t : World) × (k ≤ 11) × Runs locked.0 k t × (place t (some 0) ≡ idle)
call_returns_example = call_returns locked.1 locked-Sound (some 0)
