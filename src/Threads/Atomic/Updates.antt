-- ===== src/Threads/Atomic/Updates.antt =====
-- impl/all/conc/conc.cc: a step of the writer is answered by at most one single action.
use wineing.Prelude.{
  ℕ, suc, ◌<◌, ◌≡◌, ◌≢◌, refl, ◌∙◌, sym, subst, ap, inl, inr, true, false, none, some, arith, eq→==,
}
use wineing.Prelude.Memory.{Bytes}
use wineing.Ctrl.{WCtrl, copy_local_to_shared, shared_version_read_init}
use wineing.Conc.{Shared, next_version, lazy_update_global_if_owner}
use wineing.Threads.{
  Pc, idle, waiting, entered, versioned, cmd_copied, size_copied, data_copied, by_writer, Memory,
  Local, World, copy_data, WriterMove, record_value,
}
use wineing.Threads.Invariant.{Known, Inv, ReadingAt}
use wineing.Threads.Safety.{is_critical}
use wineing.Threads.Alone.{copy_local_to_shared-copy_data}
use wineing.Threads.Atomic.{Atoms, Act, writer_event}
use wineing.Threads.Atomic.Simulation.{
  is_storing, WritesAt, ReadsAt, Reads, Sim, Reads-frame, Matched, stutters, acts, WritesAt-place,
  ReadsAt-place,
}
use wineing.Threads.Atomic.Inside.{readers_outside, writer_inside}

-- A copy reads nothing of its destination but the buffer.
pub copy_data-buffer : (x y src : WCtrl) → x.buffer ≡ y.buffer → copy_data x src ≡ copy_data y src
unfolding copy_data
copy_data-buffer x y src e = rw e refl

-- The update as a single action, from the copy of the data.
updates_at :
    (version : ℕ) (d : WCtrl) (g : Shared WCtrl) (b : Bytes)
    → version ≡ g.version
    → copy_data g.value d ≡ some b
    → lazy_update_global_if_owner copy_local_to_shared version d g
      ≡ some (
        next_version version,
        record {
          version = next_version version;
          value = record { cmd = d.cmd; buffer = b; size = d.size };
        },
      )
unfolding lazy_update_global_if_owner
updates_at version d g b o c =
    rw (eq→== version g.version o, copy_local_to_shared-copy_data d g.value, c) refl

module _ (s : World) (a : Atoms) (v : Inv s) (z : Sim s a) where
  -- The writer moves and stores nothing, and no update has begun to store.
  quiet :
      {m : Memory} {l : Local}
      → m.version ≡ s.memory.version
      → m.value ≡ s.memory.value
      → a.writer.t_data ≡ l.t_data
      → is_storing l.pc ≡ false
      → WritesAt m l.t_version l.t_data a.shared a.writer.t_version l.pc
      → Sim (record s { memory = m; writer = l }) a
  quiet {m} {l} e f d q w = record {
    same_data = d;
    writes = w;
    reads = λ i.
        Reads-frame s.memory m s.writer.pc l.pc (s.readers i) (a.readers i) e
          (λ k. absurd (cc (k, q))) (inr f) (z.reads i);
  }

  -- The writer stores a field of the block.
  stores :
      {m : Memory} {l : Local}
      → s.memory.lock ≡ by_writer
      → m.version ≡ s.memory.version
      → is_storing s.writer.pc ≡ true
      → a.writer.t_data ≡ l.t_data
      → WritesAt m l.t_version l.t_data a.shared a.writer.t_version l.pc
      → Sim (record s { memory = m; writer = l }) a
  stores {m} {l} h e q d w = record {
    same_data = d;
    writes = w;
    reads = λ i.
        Reads-frame s.memory m s.writer.pc l.pc (s.readers i) (a.readers i) e (λ k. q)
          (inl (readers_outside s v h i)) (z.reads i);
  }

  pub WriterMove-Matched :
      {m : Memory} {l : Local} (mv : WriterMove s.memory s.writer m l)
      → Matched (record s { memory = m; writer = l }) a (writer_event mv)
  WriterMove-Matched (WriterMove.prepare d e) = acts (Act.prepares d) (record {
    same_data = refl;
    writes =
        subst (λ p. WritesAt s.memory s.writer.t_version d a.shared a.writer.t_version p) (sym e)
          (WritesAt-place z e);
    reads = z.reads;
  })
  WriterMove-Matched (WriterMove.refused e n) = absurd (n (v.owner ∙ sym v.counted))
  WriterMove-Matched (WriterMove.owns e o) =
      stutters (quiet refl refl z.same_data refl (WritesAt-place z e))
  WriterMove-Matched (WriterMove.lock e f) =
      let w = WritesAt-place z e in
      stutters (
        quiet refl refl z.same_data refl
          (record { same_block = w.same_block; same_version = w.same_version }))
  WriterMove-Matched (WriterMove.store_cmd e) =
      let w = WritesAt-place z e in
      stutters (
        stores (writer_inside s v (ap is_critical e)) refl (ap is_storing e) z.same_data (record {
          owned = w.owned;
          stored = w.stored;
          block = ap {A = WCtrl} (λ x. record x { cmd = s.writer.t_data.cmd }) w.block;
        }))
  WriterMove-Matched (WriterMove.store_size e) =
      let w = WritesAt-place z e in
      stutters (
        stores (writer_inside s v (ap is_critical e)) refl (ap is_storing e) z.same_data (record {
          owned = w.owned;
          stored = w.stored;
          block = ap {A = WCtrl} (λ x. record x { size = s.writer.t_data.size }) w.block;
        }))
  WriterMove-Matched (WriterMove.store_data b e c) =
      let w = WritesAt-place z e in
      acts
        (Act.updates _ _ (
          updates_at a.writer.t_version a.writer.t_data a.shared b w.owned (
            rw z.same_data (
              copy_data-buffer a.shared.value s.memory.value s.writer.t_data
                (ap (λ x. x.buffer) (sym w.block))
              ∙ c))))
        (record {
          same_data = z.same_data;
          writes = record {
            same_block = rw (z.same_data, w.block, w.stored) refl;
            same_version = sym w.stored ∙ (v.counted ∙ sym v.owner);
          };
          reads = λ i.
              Reads-frame s.memory
                (record s.memory { value = record s.memory.value { buffer = b } }) s.writer.pc
                data_copied (s.readers i) (a.readers i) refl (λ k. ap is_storing e)
                (inl (readers_outside s v (writer_inside s v (ap is_critical e)) i)) (z.reads i);
        })
  WriterMove-Matched (WriterMove.unlock e) =
      let w = WritesAt-place z e in
      stutters (
        quiet refl refl z.same_data refl
          (record { same_block = w.same_block; same_version = w.same_version }))

  -- The store of the version counts for nothing yet. A reader outside has another version than the
  -- new one.
  pub store_version-Matched :
      s.writer.pc ≡ entered
      → suc s.updates < shared_version_read_init
      → Matched
          (record s {
            memory = record s.memory { version = next_version s.writer.t_version };
            writer = record s.writer {
              t_version = next_version s.writer.t_version;
              pc = versioned;
            };
            updates = suc s.updates;
            values = record_value s.values (suc s.updates) s.writer.t_data;
          })
          a
          none
  store_version-Matched e b =
      let w = WritesAt-place z e in
      let h = writer_inside s v (ap is_critical e) in
      stutters record {
        same_data = z.same_data;
        writes = record {
          owned =
              w.same_version ∙ (v.owner ∙ (sym v.counted ∙ sym (ap (λ x. x.version) w.same_block)));
          stored = ap next_version (sym w.same_version);
          block = sym (ap (λ x. x.value) w.same_block);
        };
        reads = λ i. outside i (s.readers i).pc refl (readers_outside s v h i);
      }
    where
      new : next_version s.writer.t_version ≡ suc s.updates
      new = omega (arith, v.owner, b)

      unknown :
          {version : ℕ} {d : WCtrl}
          → Known s.updates s.values version d
          → version ≢ next_version s.writer.t_version
      unknown (inl k) q = omega (arith, k, q, new, b)
      unknown (inr k) q = omega (arith, k.0, q, new)

      knows :
          {i : ℕ} {p : Pc}
          → (s.readers i).pc ≡ p
          → ReadingAt i s.memory s.updates s.values (s.readers i).t_version (s.readers i).t_data p
      knows {i} e =
          subst
            (ReadingAt i s.memory s.updates s.values (s.readers i).t_version (s.readers i).t_data) e
            (v.reading i)

      after : Memory
      after = record s.memory { version = next_version s.writer.t_version }

      back :
          {i : ℕ} {p : Pc}
          → (s.readers i).pc ≡ p
          → ReadsAt after versioned (s.readers i).t_version (s.readers i).t_data (a.readers i) p
          → Reads after versioned (s.readers i) (a.readers i)
      back {i} e x =
          subst (ReadsAt after versioned (s.readers i).t_version (s.readers i).t_data (a.readers i))
            (sym e) x

      outside :
          (i : ℕ) (p : Pc)
          → (s.readers i).pc ≡ p
          → is_critical (s.readers i).pc ≡ false
          → Reads after versioned (s.readers i) (a.readers i)
      outside i idle e c = back e ((ReadsAt-place i z e).0, λ k. unknown (knows e))
      outside i waiting e c = back e ((ReadsAt-place i z e).0, unknown (knows e))
      outside i entered e c = absurd (cc (e, c))
      outside i versioned e c = absurd (cc (e, c))
      outside i cmd_copied e c = absurd (cc (e, c))
      outside i size_copied e c = absurd (cc (e, c))
      outside i data_copied e c = absurd (cc (e, c))
