-- ===== src/Threads/Progress/Held.antt =====
-- impl/all/conc/conc.cc: the lock is never left behind: who holds it is inside the critical section.
use native.Mathlib.Decide.{ℕ_discrete}
use wineing.Prelude.{ℕ, ◌≡◌, ◌≢◌, refl, sym, ap, ◌∙◌, Option, none, some, true, arith, subst}
use wineing.Ctrl.{WCtrl}
use wineing.Threads.{
  Pc, Lock, free, by_writer, by_reader, Memory, Local, World, WriterMove, ReaderMove, Step, Reach,
  here, next, update,
}
use wineing.Threads.Safety.{is_critical, place, held_by, held_by-injective}
use wineing.Threads.Progress.{update-same, update-other}

abbrev pub Held : World → Type 0
Held s = (a : Option ℕ) → s.memory.lock ≡ held_by a → is_critical (place s a) ≡ true

-- What a move does to the lock: `l` and `m` are the lock before and after it, `p` and `q` the place
-- of the thread that moves, and `h` the lock as that thread holds it.
data Locks (h l m : Lock) (p q : Pc) : Type 0 where
  keeps : m ≡ l → is_critical q ≡ is_critical p → Locks h l m p q
  takes : m ≡ h → is_critical q ≡ true → Locks h l m p q
  frees : m ≡ free → Locks h l m p q

WriterMove-Locks :
    {m m' : Memory} {l l' : Local}
    → WriterMove m l m' l'
    → Locks by_writer m.lock m'.lock l.pc l'.pc
WriterMove-Locks (WriterMove.prepare d e) = Locks.keeps refl refl
WriterMove-Locks (WriterMove.refused e n) = Locks.keeps refl refl
WriterMove-Locks (WriterMove.owns e o) = Locks.keeps refl (ap is_critical (sym e))
WriterMove-Locks (WriterMove.lock e f) = Locks.takes refl refl
WriterMove-Locks (WriterMove.store_cmd e) = Locks.keeps refl (ap is_critical (sym e))
WriterMove-Locks (WriterMove.store_size e) = Locks.keeps refl (ap is_critical (sym e))
WriterMove-Locks (WriterMove.store_data b e c) = Locks.keeps refl (ap is_critical (sym e))
WriterMove-Locks (WriterMove.unlock e) = Locks.frees refl

ReaderMove-Locks :
    {i : ℕ} {m m' : Memory} {l l' : Local}
    → ReaderMove i m l m' l'
    → Locks (by_reader i) m.lock m'.lock l.pc l'.pc
ReaderMove-Locks (ReaderMove.same e o) = Locks.keeps refl refl
ReaderMove-Locks (ReaderMove.changed e o) = Locks.keeps refl (ap is_critical (sym e))
ReaderMove-Locks (ReaderMove.lock e f) = Locks.takes refl refl
ReaderMove-Locks (ReaderMove.load_version e) = Locks.keeps refl (ap is_critical (sym e))
ReaderMove-Locks (ReaderMove.load_cmd e) = Locks.keeps refl (ap is_critical (sym e))
ReaderMove-Locks (ReaderMove.load_size e) = Locks.keeps refl (ap is_critical (sym e))
ReaderMove-Locks (ReaderMove.load_data b e c) = Locks.keeps refl (ap is_critical (sym e))
ReaderMove-Locks (ReaderMove.unlock e) = Locks.frees refl

free-held_by : (a : Option ℕ) → free ≢ held_by a
free-held_by none e = ground arith
free-held_by (some i) e = ground arith

-- The thread that moves, and another one.
mover :
    (a : Option ℕ) {l m : Lock} {p q : Pc}
    → Locks (held_by a) l m p q
    → (l ≡ held_by a → is_critical p ≡ true)
    → m ≡ held_by a
    → is_critical q ≡ true
mover a (Locks.keeps e c) h x = c ∙ h (sym e ∙ x)
mover a (Locks.takes e c) h x = c
mover a (Locks.frees e) h x = absurd (free-held_by a (sym e ∙ x))

other :
    (a b : Option ℕ) (r : Pc) {l m : Lock} {p q : Pc}
    → b ≢ a
    → Locks (held_by a) l m p q
    → (l ≡ held_by b → is_critical r ≡ true)
    → m ≡ held_by b
    → is_critical r ≡ true
other a b r n (Locks.keeps e c) h x = h (sym e ∙ x)
other a b r n (Locks.takes e c) h x = absurd (n (held_by-injective b a (sym x ∙ e)))
other a b r n (Locks.frees e) h x = absurd (free-held_by b (sym e ∙ x))

Step-Held : {s t : World} → Step s t → Held s → Held t
Step-Held (Step.writes mv) h none x = mover none (WriterMove-Locks mv) (h none) x
Step-Held {s} (Step.writes mv) h (some j) x =
    other none (some j) (s.readers j).pc (λ e. cc) (WriterMove-Locks mv) (h (some j)) x
Step-Held (Step.store_version e) h none x = refl
Step-Held (Step.store_version e) h (some j) x = h (some j) x
Step-Held {s} (Step.reads i mv) h none x =
    other (some i) none s.writer.pc (λ e. cc) (ReaderMove-Locks mv) (h none) x
Step-Held {s} (Step.reads i {m} {l} mv) h (some j) x = elim (ℕ_discrete i j) [
  | yes e ↦
      subst (λ k. is_critical (update s.readers i l k).pc ≡ true) e
        (ap (λ k. is_critical k.pc) (update-same s.readers i l)
          ∙ mover (some i) (ReaderMove-Locks mv) (h (some i)) (x ∙ ap by_reader (sym e)))
  | no n ↦
      ap (λ k. is_critical k.pc) (update-other s.readers i l j n)
      ∙ other (some i) (some j) (s.readers j).pc (λ e. n (ground (arith, e))) (ReaderMove-Locks mv)
          (h (some j)) x
]

-- In every interleaving a lock that is held is held by a thread that is inside.
pub Reach-Held :
    {g_data t_data : WCtrl} {r_data : ℕ → WCtrl} {s : World} → Reach g_data t_data r_data s → Held s
Reach-Held here = λ a x. absurd (free-held_by a x)
Reach-Held (next r st) = Step-Held st (Reach-Held r)
