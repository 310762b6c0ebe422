-- ===== src/Tests/Reads.antt =====
-- A read that another thread's update overtakes.
use wineing.Prelude.{◌≡◌, ◌≢◌, ◌≤◌, refl, [], ◌∷◌, arith, Bool, true, false}
use wineing.Prelude.Memory.{memcpy}
use wineing.Ctrl.{WCtrl, cmd_init, cmd_market_run}
use wineing.Ctrl.Copy.{Shows}
use wineing.Threads.{Pc, idle, World, copy_data, WriterMove, ReaderMove, Step, Reach, here, next}
use wineing.Threads.Fresh.{Calling, begins, goes_on, call_reads_between}

abbrev blank : WCtrl
blank = record { cmd = cmd_init; buffer = 0 ∷ 0 ∷ 0 ∷ []; size = 0 }

abbrev order : WCtrl
order = record { cmd = cmd_market_run; buffer = 65 ∷ 0 ∷ 9 ∷ []; size = 2 }

-- The reader's copy after the call.
abbrev copy : WCtrl
copy = record { cmd = cmd_market_run; buffer = 65 ∷ 0 ∷ 0 ∷ []; size = 2 }

abbrev is_idle : Pc → Bool
is_idle idle = true
is_idle _ = false

busy : (p : Pc) → is_idle p ≡ false → p ≢ idle
busy p h e = ground (arith, h, e)

-- The writer is about to update the block.
abbrev ready : (s : World) × Reach blank blank (λ i. blank) s
ready = (
  _,
  next (next here (Step.writes (WriterMove.prepare order refl)))
      (Step.writes (WriterMove.owns refl refl)),
)

-- The call begins, the writer updates the block, and the reader waits for the lock.
abbrev overtaken : (u : World) × Calling 0 ready.0 u
unfolding copy_data memcpy native.Mathlib.Decide.ℕ_discrete
overtaken = (
  _,
  goes_on
      (goes_on
        (goes_on
          (goes_on
            (goes_on
              (goes_on (begins refl (λ e. omega (arith, e))) (busy _ refl)
                (Step.writes (WriterMove.lock refl refl)))
              (busy _ refl) (Step.store_version refl))
            (busy _ refl) (Step.writes (WriterMove.store_cmd refl)))
          (busy _ refl) (Step.writes (WriterMove.store_size refl)))
        (busy _ refl) (Step.writes (WriterMove.store_data (65 ∷ 0 ∷ 0 ∷ []) refl refl)))
      (busy _ refl) (Step.writes (WriterMove.unlock refl)),
)

-- The reader copies the block and returns.
abbrev returned : (u : World) × Calling 0 ready.0 u
unfolding copy_data memcpy native.Mathlib.Decide.ℕ_discrete
returned = (
  _,
  goes_on
      (goes_on
        (goes_on
          (goes_on
            (goes_on
              (goes_on (overtaken.1) (busy _ refl) (Step.reads 0 (ReaderMove.lock refl refl)))
              (busy _ refl) (Step.reads 0 (ReaderMove.load_version refl)))
            (busy _ refl) (Step.reads 0 (ReaderMove.load_cmd refl)))
          (busy _ refl) (Step.reads 0 (ReaderMove.load_size refl)))
        (busy _ refl) (Step.reads 0 (ReaderMove.load_data (65 ∷ 0 ∷ 0 ∷ []) refl refl)))
      (busy _ refl) (Step.reads 0 (ReaderMove.unlock refl)),
)

call_reads_between_example : (0 ≤ 1) × (1 ≤ 1) × Shows copy order
unfolding copy_data memcpy native.Mathlib.Decide.ℕ_discrete
call_reads_between_example = call_reads_between ready.1 returned.1 refl (omega arith)
