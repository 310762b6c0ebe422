-- ===== src/Threads/Invariant.antt =====
-- impl/all/conc/conc.cc: what holds between the shared control block and the threads' copies, at
-- each place where a thread can stand.
use wineing.Prelude.{
  ℕ, zero, suc, ◌≤◌, ◌≡◌, ◌≢◌, refl, ◌⊎◌, inl, inr, some, take, arith, ltb, if◌then◌else◌, lt→ltb,
  subst, sym,
}
use wineing.Prelude.Memory.{Bytes, memcpy, memcpy-some}
use wineing.Ctrl.{WCtrl, shared_version_read_init}
use wineing.Ctrl.Copy.{Shows}
use wineing.Threads.{
  Pc, idle, waiting, entered, versioned, cmd_copied, size_copied, data_copied, by_writer, by_reader,
  Memory, Local, World, copy_data,
}

-- A copy that was never made, or that shows the control block published under its version.
abbrev pub Known : ℕ → (ℕ → WCtrl) → ℕ → WCtrl → Type 0
Known n values version d =
    (version ≡ shared_version_read_init) ⊎ ((version ≤ n) × Shows d (values version))

-- The writer, at its place, after `n` updates of which the last published `d`.
abbrev pub WritingAt : Memory → WCtrl → WCtrl → Pc → Type 0
WritingAt m t_data d idle = Shows m.value d
WritingAt m t_data d waiting = Shows m.value d
WritingAt m t_data d entered = (m.lock ≡ by_writer) × Shows m.value d
WritingAt m t_data d versioned = (m.lock ≡ by_writer) × (t_data ≡ d)
WritingAt m t_data d cmd_copied = (m.lock ≡ by_writer) × (t_data ≡ d) × (m.value.cmd ≡ d.cmd)
WritingAt m t_data d size_copied =
    (m.lock ≡ by_writer) × (t_data ≡ d) × (m.value.cmd ≡ d.cmd) × (m.value.size ≡ d.size)
WritingAt m t_data d data_copied = (m.lock ≡ by_writer) × Shows m.value d

abbrev pub Writing : Memory → Local → WCtrl → Type 0
Writing m l d = WritingAt m l.t_data d l.pc

-- The reader `i`, at its place.
abbrev pub ReadingAt : ℕ → Memory → ℕ → (ℕ → WCtrl) → ℕ → WCtrl → Pc → Type 0
ReadingAt i m n values version d idle = Known n values version d
ReadingAt i m n values version d waiting = Known n values version d
ReadingAt i m n values version d entered = m.lock ≡ by_reader i
ReadingAt i m n values version d versioned = (m.lock ≡ by_reader i) × (version ≡ m.version)
ReadingAt i m n values version d cmd_copied =
    (m.lock ≡ by_reader i) × (version ≡ m.version) × (d.cmd ≡ m.value.cmd)
ReadingAt i m n values version d size_copied =
    (m.lock ≡ by_reader i) × (version ≡ m.version) × (d.cmd ≡ m.value.cmd) × (d.size ≡ m.value.size)
ReadingAt i m n values version d data_copied =
    (m.lock ≡ by_reader i) × (version ≡ m.version) × Shows d m.value

abbrev pub Reading : ℕ → Memory → ℕ → (ℕ → WCtrl) → Local → Type 0
Reading i m n values l = ReadingAt i m n values l.t_version l.t_data l.pc

pub record Inv (s : World) : Type 0 where
  pub counted : s.memory.version ≡ s.updates
  pub owner : s.writer.t_version ≡ s.updates
  pub writing : Writing s.memory s.writer (s.values s.updates)
  pub reading : (i : ℕ) → Reading i s.memory s.updates s.values (s.readers i)

take-copied :
    (n : ℕ) (dst src b : Bytes)
    → (if ltb 0 n then memcpy dst src n else some dst) ≡ some b
    → take n b ≡ take n src
take-copied zero dst src b e = refl
take-copied (suc n) dst src b e =
    memcpy-some dst src (suc n) (rw (lt→ltb 0 (suc n) (omega arith)) at e)

-- The data that a copy leaves is that of its source.
pub take-copy_data :
    (dst src : WCtrl) (b : Bytes)
    → copy_data dst src ≡ some b
    → take src.size b ≡ take src.size src.buffer
unfolding copy_data
take-copy_data dst src b e = take-copied src.size dst.buffer src.buffer b e

-- A thread outside the critical section keeps what it knows, whatever the others do.
WritingAt-frame :
    (m m' : Memory) (t_data d : WCtrl) (pc : Pc)
    → m.lock ≢ by_writer
    → m'.value ≡ m.value
    → WritingAt m t_data d pc
    → WritingAt m' t_data d pc
WritingAt-frame m m' t d idle n e w = subst (λ v. Shows v d) (sym e) w
WritingAt-frame m m' t d waiting n e w = subst (λ v. Shows v d) (sym e) w
WritingAt-frame m m' t d entered n e w = absurd (n w.0)
WritingAt-frame m m' t d versioned n e w = absurd (n w.0)
WritingAt-frame m m' t d cmd_copied n e w = absurd (n w.0)
WritingAt-frame m m' t d size_copied n e w = absurd (n w.0)
WritingAt-frame m m' t d data_copied n e w = absurd (n w.0)

pub Writing-frame :
    (m m' : Memory) (l : Local) (d : WCtrl)
    → m.lock ≢ by_writer
    → m'.value ≡ m.value
    → Writing m l d
    → Writing m' l d
Writing-frame m m' l d n e w = WritingAt-frame m m' l.t_data d l.pc n e w

-- Outside the critical section of the writer the block shows the last published one.
pub Writing-Shows :
    (m : Memory) (l : Local) (d : WCtrl) → m.lock ≢ by_writer → Writing m l d → Shows m.value d
Writing-Shows m l d n w = at l.pc w
  where
    at : (pc : Pc) → WritingAt m l.t_data d pc → Shows m.value d
    at idle w = w
    at waiting w = w
    at entered w = w.1
    at versioned w = absurd (n w.0)
    at cmd_copied w = absurd (n w.0)
    at size_copied w = absurd (n w.0)
    at data_copied w = w.1

Known-mono :
    {n k : ℕ} {values values' : ℕ → WCtrl} {version : ℕ} {d : WCtrl}
    → n ≤ k
    → ((j : ℕ) → j ≤ n → values' j ≡ values j)
    → Known n values version d
    → Known k values' version d
Known-mono h e (inl z) = inl z
Known-mono {version} {d} h e (inr (l, p)) = inr (omega arith, subst (Shows d) (sym (e version l)) p)

pub Reading-frame :
    (i : ℕ) (m m' : Memory) {n k : ℕ} {values values' : ℕ → WCtrl} (l : Local)
    → m.lock ≢ by_reader i
    → n ≤ k
    → ((j : ℕ) → j ≤ n → values' j ≡ values j)
    → Reading i m n values l
    → Reading i m' k values' l
Reading-frame i m m' {n} {k} {values} {values'} l x h e r = at l.pc r
  where
    at :
        (pc : Pc)
        → ReadingAt i m n values l.t_version l.t_data pc
        → ReadingAt i m' k values' l.t_version l.t_data pc
    at idle r = Known-mono h e r
    at waiting r = Known-mono h e r
    at entered r = absurd (x r)
    at versioned r = absurd (x r.0)
    at cmd_copied r = absurd (x r.0)
    at size_copied r = absurd (x r.0)
    at data_copied r = absurd (x r.0)
