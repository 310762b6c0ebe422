-- ===== src/Threads/Moves/Writer.antt =====
-- impl/all/conc/conc.cc: every step of the writer keeps the invariant.
use wineing.Prelude.{
  ℕ, suc, ◌≤◌, ◌<◌, ◌≡◌, ◌≢◌, refl, ◌∙◌, ◌⊎◌, inl, inr, some, take, arith, sym, subst,
}
use wineing.Prelude.Memory.{Bytes}
use wineing.Conc.{next_version}
use wineing.Ctrl.{shared_version_read_init}
use wineing.Ctrl.Copy.{Shows}
use wineing.Threads.{
  entered, versioned, size_copied, by_writer, by_reader, Memory, Local, World, copy_data,
  WriterMove, record_value,
}
use wineing.Threads.Invariant.{Writing, Reading, Inv, take-copy_data, Reading-frame}

-- What a move of the writer leaves, and that it took nothing from a reader.
record Written (s : World) (m : Memory) (l : Local) : Type 0 where
  same_version : m.version ≡ s.memory.version
  kept : l.t_version ≡ s.updates
  stage : Writing m l (s.values s.updates)
  apart : (m ≡ s.memory) ⊎ ((i : ℕ) → s.memory.lock ≢ by_reader i)

module _ (s : World) (v : Inv s) where
  stored_data :
      (b : Bytes)
      → s.writer.pc ≡ size_copied
      → copy_data s.memory.value s.writer.t_data ≡ some b
      → (s.memory.lock ≡ by_writer)
        × Shows (record s.memory.value { buffer = b }) (s.values s.updates)
  stored_data b e c =
      let w : (s.memory.lock ≡ by_writer)
          × (s.writer.t_data ≡ s.values s.updates)
          × (s.memory.value.cmd ≡ (s.values s.updates).cmd)
          × (s.memory.value.size ≡ (s.values s.updates).size) =
        ground (arith, e, v.writing) in
      (
        w.0,
        record {
          same_cmd = w.2;
          same_size = w.3;
          same_data =
              subst (λ t. take t.size b ≡ take t.size t.buffer) w.1
                (take-copy_data s.memory.value s.writer.t_data b c);
        },
      )

  WriterMove-Written : {m : Memory} {l : Local} → WriterMove s.memory s.writer m l → Written s m l
  WriterMove-Written (WriterMove.prepare d e) = record {
    same_version = refl;
    kept = v.owner;
    stage = ground (arith, v.writing);
    apart = inl refl;
  }
  WriterMove-Written (WriterMove.refused e n) = absurd (n (v.owner ∙ sym v.counted))
  WriterMove-Written (WriterMove.owns e o) = record {
    same_version = refl;
    kept = v.owner;
    stage = ground (arith, v.writing);
    apart = inl refl;
  }
  WriterMove-Written (WriterMove.lock e f) = record {
    same_version = refl;
    kept = v.owner;
    stage = ground (arith, v.writing);
    apart = inr (λ i. ground arith);
  }
  WriterMove-Written (WriterMove.store_cmd e) = record {
    same_version = refl;
    kept = v.owner;
    stage = ground (arith, v.writing);
    apart = inr (λ i. ground (arith, v.writing));
  }
  WriterMove-Written (WriterMove.store_size e) = record {
    same_version = refl;
    kept = v.owner;
    stage = ground (arith, v.writing);
    apart = inr (λ i. ground (arith, v.writing));
  }
  WriterMove-Written (WriterMove.store_data b e c) = record {
    same_version = refl;
    kept = v.owner;
    stage = stored_data b e c;
    apart = inr (λ i. ground (arith, v.writing));
  }
  WriterMove-Written (WriterMove.unlock e) = record {
    same_version = refl;
    kept = v.owner;
    stage = ground (arith, v.writing);
    apart = inr (λ i. ground (arith, v.writing));
  }

-- A step of the writer keeps the invariant.
pub WriterMove-Inv :
    (s : World) {m : Memory} {l : Local}
    → Inv s
    → WriterMove s.memory s.writer m l
    → Inv (record s { memory = m; writer = l })
WriterMove-Inv s {m} {l} v mv = record {
  counted = w.same_version ∙ v.counted;
  owner = w.kept;
  writing = w.stage;
  reading = λ i. others i w.apart;
}
  where
    w : Written s m l
    w = WriterMove-Written s v mv

    others :
        (i : ℕ)
        → (m ≡ s.memory) ⊎ ((i : ℕ) → s.memory.lock ≢ by_reader i)
        → Reading i m s.updates s.values (s.readers i)
    others i (inl e) =
        subst (λ n. Reading i n s.updates s.values (s.readers i)) (sym e) (v.reading i)
    others i (inr f) =
        Reading-frame i s.memory m {values = s.values} {values' = s.values} (s.readers i) (f i)
          (omega arith) (λ j h. refl) (v.reading i)

-- The store of the version publishes the writer's data under the next number.
pub store_version-Inv :
    (s : World)
    → Inv s
    → s.writer.pc ≡ entered
    → suc s.updates < shared_version_read_init
    → Inv (record s {
      memory = record s.memory { version = next_version s.writer.t_version };
      writer = record s.writer { t_version = next_version s.writer.t_version; pc = versioned };
      updates = suc s.updates;
      values = record_value s.values (suc s.updates) s.writer.t_data;
    })
store_version-Inv s v e b = record {
  counted = next;
  owner = next;
  writing = (held, ground arith);
  reading = λ i.
      Reading-frame i s.memory _ {values = s.values} (s.readers i) (λ q. cc (held, q)) (omega arith)
        kept_values (v.reading i);
}
  where
    next : next_version s.writer.t_version ≡ suc s.updates
    next = omega (arith, v.owner, b)

    kept_values :
        (j : ℕ)
        → j ≤ s.updates
        → record_value s.values (suc s.updates) s.writer.t_data j ≡ s.values j
    kept_values j h = ground arith

    held : s.memory.lock ≡ by_writer
    held = ground (arith, e, v.writing)
