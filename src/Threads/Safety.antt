-- ===== src/Threads/Safety.antt =====
-- impl/all/conc/conc.cc: what holds in every interleaving of one writer and any number of readers.
use wineing.Prelude.{
  Option, none, some, ℕ, ◌<◌, ◌≡◌, refl, ◌∙◌, sym, subst, inl, inr, arith, Bool, true, false,
}
use wineing.Ctrl.{WCtrl, shared_version_read_init}
use wineing.Ctrl.Copy.{Shows, Shows-refl}
use wineing.Threads.{
  Pc, idle, waiting, entered, versioned, cmd_copied, size_copied, data_copied, Lock, by_writer,
  by_reader, World, Memory, Reach, here, next, start,
}
use wineing.Threads.Invariant.{Known, Inv, WritingAt, ReadingAt}
use wineing.Threads.Moves.{Step-Inv, Step-updates}

pub start-Inv : (g_data t_data : WCtrl) (r_data : ℕ → WCtrl) → Inv (start g_data t_data r_data)
start-Inv g_data t_data r_data = record {
  counted = refl;
  owner = refl;
  writing = Shows-refl g_data;
  reading = λ i. inl refl;
}

-- Inside the critical section.
abbrev pub is_critical : Pc → Bool
is_critical idle = false
is_critical waiting = false
is_critical _ = true

-- The place of a thread: of the writer (`none`) or of a reader.
abbrev pub place : World → Option ℕ → Pc
place s none = s.writer.pc
place s (some i) = (s.readers i).pc

-- The lock as a thread holds it.
abbrev pub held_by : Option ℕ → Lock
held_by none = by_writer
held_by (some i) = by_reader i

pub held_by-injective : (a b : Option ℕ) → held_by a ≡ held_by b → a ≡ b
held_by-injective none none e = refl
held_by-injective none (some j) e = ground arith
held_by-injective (some i) none e = ground arith
held_by-injective (some i) (some j) e = ground arith

pub critical_writer :
    (m : Memory) (t_data d : WCtrl) (pc : Pc)
    → is_critical pc ≡ true
    → WritingAt m t_data d pc
    → m.lock ≡ by_writer
critical_writer m t d idle c w = ground arith
critical_writer m t d waiting c w = ground arith
critical_writer m t d entered c w = w.0
critical_writer m t d versioned c w = w.0
critical_writer m t d cmd_copied c w = w.0
critical_writer m t d size_copied c w = w.0
critical_writer m t d data_copied c w = w.0

pub critical_reader :
    (i : ℕ) (m : Memory) (n : ℕ) (values : ℕ → WCtrl) (version : ℕ) (d : WCtrl) (pc : Pc)
    → is_critical pc ≡ true
    → ReadingAt i m n values version d pc
    → m.lock ≡ by_reader i
critical_reader i m n values version d idle c r = ground arith
critical_reader i m n values version d waiting c r = ground arith
critical_reader i m n values version d entered c r = r
critical_reader i m n values version d versioned c r = r.0
critical_reader i m n values version d cmd_copied c r = r.0
critical_reader i m n values version d size_copied c r = r.0
critical_reader i m n values version d data_copied c r = r.0

pub critical-held :
    (s : World)
    → Inv s
    → (a : Option ℕ) → is_critical (place s a) ≡ true
    → s.memory.lock ≡ held_by a
critical-held s v none c =
    critical_writer s.memory s.writer.t_data (s.values s.updates) s.writer.pc c v.writing
critical-held s v (some i) c =
    critical_reader i s.memory s.updates s.values (s.readers i).t_version (s.readers i).t_data
      (s.readers i).pc c (v.reading i)

Known-current :
    {n version : ℕ} (values : ℕ → WCtrl) {d : WCtrl}
    → n < shared_version_read_init
    → Known n values version d
    → version ≡ n
    → Shows d (values n)
Known-current values b (inl z) e = absurd (omega (arith, z, e, b))
Known-current values {d} b (inr k) e = subst (λ j. Shows d (values j)) e k.1

module _ {g_data t_data : WCtrl} {r_data : ℕ → WCtrl} where
  pub Reach-Inv :
      {s : World} → Reach g_data t_data r_data s → s.updates < shared_version_read_init → Inv s
  Reach-Inv here b = start-Inv g_data t_data r_data
  Reach-Inv (next r st) b = Step-Inv st b (Reach-Inv r (omega (arith, Step-updates st)))

  -- No torn reads: in every interleaving, between two calls, a reader either has the version of one
  -- that never read, or shows (command, size and data up to the size) the one block that was
  -- published under its version, if fewer than 2^32 - 1 updates were made.
  pub read_snapshot :
      {s : World}
      → Reach g_data t_data r_data s
      → s.updates < shared_version_read_init
      → (i : ℕ) → (s.readers i).pc ≡ idle
      → Known s.updates s.values (s.readers i).t_version (s.readers i).t_data
  read_snapshot r b i e = ground (arith, (Reach-Inv r b).reading i, e)

  -- Mutual exclusion: of all threads, the writer and the readers, at most one is inside the
  -- critical section, if fewer than 2^32 - 1 updates were made.
  pub mutual_exclusion :
      {s : World}
      → Reach g_data t_data r_data s
      → s.updates < shared_version_read_init
      → (a b : Option ℕ) → is_critical (place s a) ≡ true
      → is_critical (place s b) ≡ true
      → a ≡ b
  mutual_exclusion {s} r b x y p q =
      held_by-injective x y
        (sym (critical-held s (Reach-Inv r b) x p) ∙ critical-held s (Reach-Inv r b) y q)

  -- A reader between two calls whose version is the shared one, which is what the unlocked test
  -- compares, shows the block that was published last (the initial one before the first update),
  -- if fewer than 2^32 - 1 updates were made.
  pub same_version-Shows :
      {s : World}
      → Reach g_data t_data r_data s
      → s.updates < shared_version_read_init
      → (i : ℕ) → (s.readers i).pc ≡ idle
      → (s.readers i).t_version ≡ s.memory.version
      → Shows (s.readers i).t_data (s.values s.updates)
  same_version-Shows {s} r b i e q =
      Known-current s.values b (read_snapshot r b i e) (q ∙ (Reach-Inv r b).counted)

  -- A single writer always owns the shared block: in every interleaving its version is the shared
  -- one, so `lazy_update_global_if_owner` never takes its `else` branch, if fewer than 2^32 - 1
  -- updates were made.
  pub writer_owns :
      {s : World}
      → Reach g_data t_data r_data s
      → s.updates < shared_version_read_init
      → s.writer.t_version ≡ s.memory.version
  writer_owns r b = (Reach-Inv r b).owner ∙ sym (Reach-Inv r b).counted
