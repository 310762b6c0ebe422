-- ===== src/Threads/Atomic/Calls.antt =====
-- impl/all/conc/conc.cc: a step of a reader is answered by at most one single action.
use mathlib.Core.Logic.{if_pos, if_neg}
use native.Mathlib.Decide.{ℕ_discrete}
use wineing.Prelude.{
  ℕ, ◌≡◌, ◌≢◌, refl, ◌∙◌, sym, subst, ap, ◌⊎◌, inl, inr, true, false, none, some, Bool-cases, ne→==,
}
use wineing.Prelude.Memory.{Bytes}
use wineing.Ctrl.{WCtrl}
use wineing.Ctrl.Copy.{copy_shared_to_local-swap}
use wineing.Conc.{Shared, lazy_update_local_if_changed}
use wineing.Reader.{Reader, read_shared}
use wineing.Reader.Fresh.{read_shared-same}
use wineing.Threads.{
  Pc, idle, waiting, entered, versioned, cmd_copied, size_copied, data_copied, by_reader, Memory,
  Local, World, copy_data, ReaderMove, update,
}
use wineing.Threads.Invariant.{Inv, ReadingAt}
use wineing.Threads.Safety.{is_critical}
use wineing.Threads.Alone.{copy_local_to_shared-copy_data}
use wineing.Threads.Progress.{update-same, update-other}
use wineing.Threads.Atomic.{Atoms, Act, set, was_read, reader_event}
use wineing.Threads.Atomic.Simulation.{
  is_storing, Settled, Reads, Sim, Reads-frame, WritesAt-frame, WritesAt-Settled, Matched, stutters,
  acts, ReadsAt-place,
}
use wineing.Threads.Atomic.Updates.{copy_data-buffer}
use wineing.Threads.Atomic.Inside.{writer_inside}

-- The read as a single action, from the copy of the data.
reads_at :
    (g : Shared WCtrl) (r : Reader) (b : Bytes)
    → r.t_version ≢ g.version
    → copy_data r.t_data g.value ≡ some b
    → read_shared g r
      ≡ some (record {
        t_version = g.version;
        t_data = record { cmd = g.value.cmd; buffer = b; size = g.value.size };
      })
unfolding read_shared lazy_update_local_if_changed
reads_at g r b n c =
    rw
      (
        ne→== r.t_version g.version n,
        copy_shared_to_local-swap r.t_data g.value,
        copy_local_to_shared-copy_data g.value r.t_data,
        c,
      )
      refl

-- A writer that stores is inside.
storing_critical : (w : Pc) → is_storing w ≡ true → is_critical w ≡ true
storing_critical versioned e = refl
storing_critical cmd_copied e = refl
storing_critical size_copied e = refl
storing_critical idle e = absurd (cc e)
storing_critical waiting e = absurd (cc e)
storing_critical entered e = absurd (cc e)
storing_critical data_copied e = absurd (cc e)

module _ (i : ℕ) (s : World) (a : Atoms) (v : Inv s) (z : Sim s a) where
  -- While the reader is inside, no update is on its way.
  not_storing : s.memory.lock ≡ by_reader i → is_storing s.writer.pc ≡ false
  not_storing h = elim (Bool-cases (is_storing s.writer.pc)) [
    | inl k ↦ (let q = writer_inside s v (storing_critical s.writer.pc k) in absurd (cc (h, q)))
    | inr k ↦ k
  ]

  settled :
      is_storing s.writer.pc ≡ false
      → Settled s.memory s.writer.t_version a.shared a.writer.t_version
  settled k = WritesAt-Settled s.writer.t_data s.writer.pc k z.writes

  inside :
      {p : Pc}
      → (s.readers i).pc ≡ p
      → ReadingAt i s.memory s.updates s.values (s.readers i).t_version (s.readers i).t_data p
  inside e =
      subst (ReadingAt i s.memory s.updates s.values (s.readers i).t_version (s.readers i).t_data) e
        (v.reading i)

  -- The reader has moved, and in the single actions it has `f i`.
  moved :
      {m : Memory} (l : Local) (f : ℕ → Reader)
      → m.version ≡ s.memory.version
      → m.value ≡ s.memory.value
      → Reads m s.writer.pc l (f i)
      → ((j : ℕ) → i ≢ j → f j ≡ a.readers j)
      → Sim (record s { memory = m; readers = update s.readers i l }) (record a { readers = f })
  moved {m} l f e q x o = record {
    same_data = z.same_data;
    writes =
        WritesAt-frame s.memory m s.writer.t_version s.writer.t_data a.shared a.writer.t_version
          s.writer.pc e q z.writes;
    reads = λ j. elim (ℕ_discrete i j) [
      | yes p ↦
          subst (λ k. Reads m s.writer.pc (update s.readers i l k) (f k)) p
            (subst (λ k. Reads m s.writer.pc k (f i)) (sym (update-same s.readers i l)) x)
      | no n ↦
          subst (λ k. Reads m s.writer.pc k (f j)) (sym (update-other s.readers i l j n))
            (subst (Reads m s.writer.pc (s.readers j)) (sym (o j n)) (
              Reads-frame s.memory m s.writer.pc s.writer.pc (s.readers j) (a.readers j) e (λ k. k)
                (inr q) (z.reads j)))
    ];
  }

  waits :
      {m : Memory} (l : Local)
      → m.version ≡ s.memory.version
      → m.value ≡ s.memory.value
      → Reads m s.writer.pc l (a.readers i)
      → Matched (record s { memory = m; readers = update s.readers i l }) a none
  waits l e q x = stutters (moved l a.readers e q x (λ j n. refl))

  answers :
      (l : Local) (r : Reader)
      → read_shared a.shared (a.readers i) ≡ some r
      → Reads s.memory s.writer.pc l r
      → Matched (record s { readers = update s.readers i l }) a (some (was_read i))
  answers l r e x = acts (Act.reads i r e) (
      moved l (set a.readers i r) refl refl
        (subst (Reads s.memory s.writer.pc l) (sym (if_pos (ℕ_discrete i i) refl r (a.readers i)))
          x)
        (λ j n. if_neg (ℕ_discrete i j) n r (a.readers j)))

  pub ReaderMove-Matched :
      {m : Memory} {l : Local} (mv : ReaderMove i s.memory (s.readers i) m l)
      → Matched (record s { memory = m; readers = update s.readers i l }) a (reader_event mv)
  ReaderMove-Matched (ReaderMove.same e o) =
      let x = ReadsAt-place i z e in
      let q : (a.readers i).t_version ≡ s.memory.version = ap (λ r. r.t_version) x.0 ∙ o in
      answers _ (a.readers i)
        (read_shared-same a.shared (a.readers i)
          (q ∙ shared_version (Bool-cases (is_storing s.writer.pc)) x.1 o))
        (z.reads i)
    where
      shared_version :
          (is_storing s.writer.pc ≡ true) ⊎ (is_storing s.writer.pc ≡ false)
          → (is_storing s.writer.pc ≡ true → (s.readers i).t_version ≢ s.memory.version)
          → (s.readers i).t_version ≡ s.memory.version
          → s.memory.version ≡ a.shared.version
      shared_version (inl k) n o = absurd (n k o)
      shared_version (inr k) n o = sym (ap (λ g. g.version) (settled k).same_block)
  ReaderMove-Matched (ReaderMove.changed e n) = waits _ refl refl ((ReadsAt-place i z e).0, n)
  ReaderMove-Matched (ReaderMove.lock e f) = waits _ refl refl (ReadsAt-place i z e)
  ReaderMove-Matched (ReaderMove.load_version e) =
      let x = ReadsAt-place i z e in
      waits _ refl refl
        ((λ q. x.1 (sym (ap (λ r. r.t_version) x.0) ∙ q)), sym (ap (λ r. r.t_data) x.0))
  ReaderMove-Matched (ReaderMove.load_cmd e) =
      let x = ReadsAt-place i z e in
      waits _ refl refl (x.0, ap {A = WCtrl} (λ d. record d { cmd = s.memory.value.cmd }) x.1)
  ReaderMove-Matched (ReaderMove.load_size e) =
      let x = ReadsAt-place i z e in
      waits _ refl refl (x.0, ap {A = WCtrl} (λ d. record d { size = s.memory.value.size }) x.1)
  ReaderMove-Matched (ReaderMove.load_data b e c) =
      let x = ReadsAt-place i z e in
      let w = inside e in
      let g = (settled (not_storing w.0)).same_block in
      let version : s.memory.version ≡ a.shared.version = sym (ap (λ k. k.version) g) in
      let value : s.memory.value ≡ a.shared.value = sym (ap (λ k. k.value) g) in
      let copy : copy_data (a.readers i).t_data a.shared.value ≡ some b =
        subst (λ k. copy_data (a.readers i).t_data k ≡ some b) value
          (copy_data-buffer (a.readers i).t_data (s.readers i).t_data s.memory.value
              (sym (ap (λ d. d.buffer) x.1))
            ∙ c) in
      answers _
        (record {
          t_version = a.shared.version;
          t_data = record { cmd = a.shared.value.cmd; buffer = b; size = a.shared.value.size };
        })
        (reads_at a.shared (a.readers i) b (λ q. x.0 (q ∙ sym version)) copy)
        (rw (w.1, w.2, w.3, g) refl)
  ReaderMove-Matched (ReaderMove.unlock e) =
      let w = inside e in
      waits _ refl refl (ReadsAt-place i z e, λ k. absurd (cc (k, not_storing w.0)))
