-- ===== src/Threads/Relaxed.antt =====
-- impl/all/conc/conc.cc: the readers' test of the version without the lock, where it may read anything.
-- In C++ it races with the store under the lock.
use native.Mathlib.Decide.{ℕ_discrete}
use wineing.Prelude.{ℕ, ◌≤◌, ◌<◌, ◌≡◌, ◌∙◌, sym, subst, Option, true, arith}
use wineing.Ctrl.{WCtrl, shared_version_read_init}
use wineing.Threads.{idle, waiting, Local, World, Step, start, update}
use wineing.Threads.Invariant.{Known, Reading, ReadingAt, Inv}
use wineing.Threads.Moves.{Step-Inv, Step-updates}
use wineing.Threads.Progress.{update-same, update-other}
use wineing.Threads.Safety.{start-Inv, is_critical, place, critical-held, held_by-injective}

-- A step, or a call of a reader whose test comes out in either way, whatever the version is.
pub data RelaxedStep (s : World) : World → Type 0 where
  exact : {t : World} → Step s t → RelaxedStep s t
  skips : (i : ℕ) → (s.readers i).pc ≡ idle → RelaxedStep s s
  enters :
      (i : ℕ)
      → (s.readers i).pc ≡ idle
      → RelaxedStep s
          (record s { readers = update s.readers i (record (s.readers i) { pc = waiting }) })

pub data RelaxedReach (g_data t_data : WCtrl) (r_data : ℕ → WCtrl) : World → Type 0 where
  here : RelaxedReach g_data t_data r_data (start g_data t_data r_data)
  next :
      {s t : World}
      → RelaxedReach g_data t_data r_data s
      → RelaxedStep s t
      → RelaxedReach g_data t_data r_data t

enters-Inv :
    (i : ℕ) (s : World)
    → Inv s
    → (s.readers i).pc ≡ idle
    → Inv (record s { readers = update s.readers i (record (s.readers i) { pc = waiting }) })
enters-Inv i s v e = record {
  counted = v.counted;
  owner = v.owner;
  writing = v.writing;
  reading = λ j. elim (ℕ_discrete i j) [
    | yes p ↦
        subst (λ k. Reading k s.memory s.updates s.values (update s.readers i waits k)) p
          (subst (Reading i s.memory s.updates s.values) (sym (update-same s.readers i waits))
            known)
    | no n ↦
        subst (Reading j s.memory s.updates s.values) (sym (update-other s.readers i waits j n))
          (v.reading j)
  ];
}
  where
    waits : Local
    waits = record (s.readers i) { pc = waiting }

    known : Known s.updates s.values (s.readers i).t_version (s.readers i).t_data
    known =
        subst (ReadingAt i s.memory s.updates s.values (s.readers i).t_version (s.readers i).t_data)
          e (v.reading i)

RelaxedStep-updates : {s t : World} → RelaxedStep s t → s.updates ≤ t.updates
RelaxedStep-updates (exact st) = Step-updates st
RelaxedStep-updates (skips i e) = omega arith
RelaxedStep-updates (enters i e) = omega arith

RelaxedStep-Inv :
    {s t : World} → RelaxedStep s t → t.updates < shared_version_read_init → Inv s → Inv t
RelaxedStep-Inv (exact st) b v = Step-Inv st b v
RelaxedStep-Inv (skips i e) b v = v
RelaxedStep-Inv {s} (enters i e) b v = enters-Inv i s v e

-- What the lock alone gives.
pub record Protected (s : World) : Type 0 where
  pub untorn :
      (i : ℕ)
      → (s.readers i).pc ≡ idle
      → Known s.updates s.values (s.readers i).t_version (s.readers i).t_data
  pub exclusive :
      (a b : Option ℕ) → is_critical (place s a) ≡ true → is_critical (place s b) ≡ true → a ≡ b
  pub owned : s.writer.t_version ≡ s.memory.version

module _ {g_data t_data : WCtrl} {r_data : ℕ → WCtrl} where
  RelaxedReach-Inv :
      {s : World}
      → RelaxedReach g_data t_data r_data s
      → s.updates < shared_version_read_init
      → Inv s
  RelaxedReach-Inv here b = start-Inv g_data t_data r_data
  RelaxedReach-Inv (next r st) b =
      RelaxedStep-Inv st b (RelaxedReach-Inv r (omega (arith, b, RelaxedStep-updates st)))

  -- The race on the version does no harm to the data: even if each test that a reader makes without
  -- the lock comes out in any way, in every interleaving at most one thread is inside the critical
  -- section; a reader between two calls has the version of one that never read, or shows (command,
  -- size and data up to the size) the one block that was published under its version; and the writer's
  -- version is the shared one. Fewer than 2^32 - 1 updates
  -- were made.
  pub race_is_harmless :
      {s : World}
      → RelaxedReach g_data t_data r_data s
      → s.updates < shared_version_read_init
      → Protected s
  race_is_harmless {s} r b =
      let v = RelaxedReach-Inv r b in
      record {
        untorn = λ i e.
            subst
              (ReadingAt i s.memory s.updates s.values (s.readers i).t_version (s.readers i).t_data)
              e (v.reading i);
        exclusive =
            λ x y p q. held_by-injective x y (sym (critical-held s v x p) ∙ critical-held s v y q);
        owned = v.owner ∙ sym v.counted;
      }
