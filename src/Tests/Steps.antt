-- ===== src/Tests/Steps.antt =====
-- One update of a writer and the read of a reader, step by step.
use wineing.Prelude.{refl, [], ◌∷◌, arith}
use wineing.Prelude.Memory.{memcpy}
use wineing.Ctrl.{WCtrl, cmd_init, cmd_market_run}
use wineing.Threads.{World, copy_data, WriterMove, ReaderMove, Step, Reach, here, next}
use wineing.Threads.Invariant.{Known}
use wineing.Threads.Safety.{read_snapshot}
use wineing.Threads.Atomic.{Atoms, Acts, begin, updated, prepared, was_read, history, calls}
use wineing.Threads.Relaxed.{RelaxedReach, exact, skips, enters, Protected, race_is_harmless}
use wineing.Threads.Atomic.Runs.{Agrees, calls_are_atomic}
use wineing.Threads.Alone.{Steps, done, more}

abbrev blank : WCtrl
blank = record { cmd = cmd_init; buffer = 0 ∷ 0 ∷ 0 ∷ []; size = 0 }

abbrev order : WCtrl
order = record { cmd = cmd_market_run; buffer = 65 ∷ 0 ∷ 9 ∷ []; size = 2 }

-- The block and the reader's copy after the run.
abbrev shown : WCtrl
shown = record { cmd = cmd_market_run; buffer = 65 ∷ 0 ∷ 0 ∷ []; size = 2 }

-- The reader sees the old version while the writer works, and waits for the lock.
abbrev writing : (s : World) × Reach blank blank (λ i. blank) s
unfolding copy_data memcpy native.Mathlib.Decide.ℕ_discrete
writing = (
  _,
  next
      (next
        (next
          (next
            (next
              (next
                (next
                  (next (next here (Step.writes (WriterMove.prepare order refl)))
                    (Step.writes (WriterMove.owns refl refl)))
                  (Step.reads 0 (ReaderMove.changed refl (λ e. omega (arith, e)))))
                (Step.writes (WriterMove.lock refl refl)))
              (Step.store_version refl))
            (Step.writes (WriterMove.store_cmd refl)))
          (Step.writes (WriterMove.store_size refl)))
        (Step.writes (WriterMove.store_data (65 ∷ 0 ∷ 0 ∷ []) refl refl)))
      (Step.writes (WriterMove.unlock refl)),
)

abbrev reading : (s : World) × Reach blank blank (λ i. blank) s
unfolding copy_data memcpy native.Mathlib.Decide.ℕ_discrete
reading = (
  _,
  next
      (next
        (next
          (next (next writing.1 (Step.reads 0 (ReaderMove.lock refl refl)))
            (Step.reads 0 (ReaderMove.load_version refl)))
          (Step.reads 0 (ReaderMove.load_cmd refl)))
        (Step.reads 0 (ReaderMove.load_size refl)))
      (Step.reads 0 (ReaderMove.load_data (65 ∷ 0 ∷ 0 ∷ []) refl refl)),
)

abbrev finished : (s : World) × Reach blank blank (λ i. blank) s
unfolding copy_data memcpy native.Mathlib.Decide.ℕ_discrete
finished = (_, next reading.1 (Step.reads 0 (ReaderMove.unlock refl)))

read_snapshot_example : Known 1 finished.0.values 1 shown
unfolding copy_data memcpy native.Mathlib.Decide.ℕ_discrete
read_snapshot_example = read_snapshot finished.1 (omega arith) 0 refl

-- The reader's steps after the update.
abbrev reads_on : Steps writing.0 finished.0
unfolding copy_data memcpy native.Mathlib.Decide.ℕ_discrete
reads_on =
    more
      (more
        (more
          (more
            (more (more done (Step.reads 0 (ReaderMove.lock refl refl)))
              (Step.reads 0 (ReaderMove.load_version refl)))
            (Step.reads 0 (ReaderMove.load_cmd refl)))
          (Step.reads 0 (ReaderMove.load_size refl)))
        (Step.reads 0 (ReaderMove.load_data (65 ∷ 0 ∷ 0 ∷ []) refl refl)))
      (Step.reads 0 (ReaderMove.unlock refl))

calls_are_atomic_example :
    (a c : Atoms) × Acts (begin blank blank (λ i. blank)) (updated ∷ prepared ∷ []) a
    × Agrees writing.0 a
    × Acts a (was_read 0 ∷ []) c
    × Agrees finished.0 c
unfolding copy_data memcpy native.Mathlib.Decide.ℕ_discrete history calls
calls_are_atomic_example = calls_are_atomic writing.1 reads_on (omega arith)

-- The reader skips although its version is not the shared one, and takes the lock again although it is.
abbrev raced : (s : World) × RelaxedReach blank blank (λ i. blank) s
unfolding copy_data memcpy native.Mathlib.Decide.ℕ_discrete
raced = (
  _,
  RelaxedReach.next
      (RelaxedReach.next
        (RelaxedReach.next
          (RelaxedReach.next
            (RelaxedReach.next
              (RelaxedReach.next
                (RelaxedReach.next
                  (RelaxedReach.next (RelaxedReach.next RelaxedReach.here (skips 0 refl))
                    (enters 0 refl))
                  (exact (Step.reads 0 (ReaderMove.lock refl refl))))
                (exact (Step.reads 0 (ReaderMove.load_version refl))))
              (exact (Step.reads 0 (ReaderMove.load_cmd refl))))
            (exact (Step.reads 0 (ReaderMove.load_size refl))))
          (exact (Step.reads 0 (ReaderMove.load_data (0 ∷ 0 ∷ 0 ∷ []) refl refl))))
        (exact (Step.reads 0 (ReaderMove.unlock refl))))
      (enters 0 refl),
)

race_is_harmless_example : Protected raced.0
unfolding copy_data memcpy native.Mathlib.Decide.ℕ_discrete
race_is_harmless_example = race_is_harmless raced.1 (omega arith)
