-- ===== src/Threads/Atomic/Inside.antt =====
-- impl/all/conc/conc.cc: the writer inside its critical section, and the readers outside theirs.
use wineing.Prelude.{ℕ, ◌≡◌, inl, inr, true, false, Bool-cases}
use wineing.Threads.{by_writer, by_reader, World}
use wineing.Threads.Invariant.{Inv}
use wineing.Threads.Safety.{is_critical, critical_reader, critical_writer}

-- The readers stay outside while the writer is inside.
pub readers_outside :
    (s : World) → Inv s → s.memory.lock ≡ by_writer → (i : ℕ) → is_critical (s.readers i).pc ≡ false
readers_outside s v h i = elim (Bool-cases (is_critical (s.readers i).pc)) [
  | inl c ↦
      (let e : s.memory.lock ≡ by_reader i =
          critical_reader i s.memory s.updates s.values (s.readers i).t_version (s.readers i).t_data
            (s.readers i).pc c (v.reading i) in
        absurd (cc (h, e)))
  | inr c ↦ c
]

pub writer_inside : (s : World) → Inv s → is_critical s.writer.pc ≡ true → s.memory.lock ≡ by_writer
writer_inside s v c =
    critical_writer s.memory s.writer.t_data (s.values s.updates) s.writer.pc c v.writing
