-- ===== src/Threads/Moves/Reader.antt =====
-- impl/all/conc/conc.cc: every step of a reader keeps the invariant.
use wineing.Prelude.{ℕ, ◌≡◌, ◌≢◌, refl, ◌∙◌, ◌⊎◌, inl, inr, some, arith, sym, subst}
use mathlib.Core.Logic.{if_pos, if_neg}
use native.Mathlib.Decide.{ℕ_discrete}
use wineing.Prelude.Memory.{Bytes}
use wineing.Ctrl.Copy.{Shows, Shows-trans}
use wineing.Threads.{
  size_copied, data_copied, free, by_reader, Memory, Local, World, copy_data, ReaderMove, update,
}
use wineing.Threads.Invariant.{
  Known, Writing, Reading, Inv, take-copy_data, Writing-frame, Writing-Shows, Reading-frame,
}

-- What a move of the reader `i` leaves.
record Read (i : ℕ) (s : World) (m : Memory) (l : Local) : Type 0 where
  same_version : m.version ≡ s.memory.version
  same_value : m.value ≡ s.memory.value
  stage : Reading i m s.updates s.values l
  apart : (m ≡ s.memory) ⊎ ((s.memory.lock ≡ free) ⊎ (s.memory.lock ≡ by_reader i))

module _ (i : ℕ) (s : World) (v : Inv s) where
  loaded_data :
      (b : Bytes)
      → (s.readers i).pc ≡ size_copied
      → copy_data (s.readers i).t_data s.memory.value ≡ some b
      → (s.memory.lock ≡ by_reader i)
        × ((s.readers i).t_version ≡ s.memory.version)
        × Shows (record (s.readers i).t_data { buffer = b }) s.memory.value
  loaded_data b e c =
      let w : (s.memory.lock ≡ by_reader i)
          × ((s.readers i).t_version ≡ s.memory.version)
          × ((s.readers i).t_data.cmd ≡ s.memory.value.cmd)
          × ((s.readers i).t_data.size ≡ s.memory.value.size) =
        ground (arith, e, v.reading i) in
      (
        w.0,
        w.1,
        record {
          same_cmd = w.2;
          same_size = w.3;
          same_data = take-copy_data (s.readers i).t_data s.memory.value b c;
        },
      )

  released :
      (s.readers i).pc ≡ data_copied
      → Known s.updates s.values (s.readers i).t_version (s.readers i).t_data
  released e =
      let w : (s.memory.lock ≡ by_reader i)
          × ((s.readers i).t_version ≡ s.memory.version)
          × Shows (s.readers i).t_data s.memory.value =
        ground (arith, e, v.reading i) in
      let last : Shows s.memory.value (s.values s.updates) =
        Writing-Shows s.memory s.writer (s.values s.updates) (λ q. cc) v.writing in
      let n = w.1 ∙ v.counted in
      inr (
        omega (arith, n),
        subst (λ k. Shows (s.readers i).t_data (s.values k)) (sym n) (Shows-trans w.2 last),
      )

  ReaderMove-Read :
      {m : Memory} {l : Local} → ReaderMove i s.memory (s.readers i) m l → Read i s m l
  ReaderMove-Read (ReaderMove.same e o) = record {
    same_version = refl;
    same_value = refl;
    stage = v.reading i;
    apart = inl refl;
  }
  ReaderMove-Read (ReaderMove.changed e o) = record {
    same_version = refl;
    same_value = refl;
    stage = ground (arith, v.reading i);
    apart = inl refl;
  }
  ReaderMove-Read (ReaderMove.lock e f) = record {
    same_version = refl;
    same_value = refl;
    stage = refl;
    apart = inr (inl f);
  }
  ReaderMove-Read (ReaderMove.load_version e) = record {
    same_version = refl;
    same_value = refl;
    stage = ground (arith, v.reading i);
    apart = inl refl;
  }
  ReaderMove-Read (ReaderMove.load_cmd e) = record {
    same_version = refl;
    same_value = refl;
    stage = ground (arith, v.reading i);
    apart = inl refl;
  }
  ReaderMove-Read (ReaderMove.load_size e) = record {
    same_version = refl;
    same_value = refl;
    stage = ground (arith, v.reading i);
    apart = inl refl;
  }
  ReaderMove-Read (ReaderMove.load_data b e c) = record {
    same_version = refl;
    same_value = refl;
    stage = loaded_data b e c;
    apart = inl refl;
  }
  ReaderMove-Read (ReaderMove.unlock e) = record {
    same_version = refl;
    same_value = refl;
    stage = released e;
    apart = ground (arith, v.reading i);
  }

-- A step of a reader keeps the invariant.
pub ReaderMove-Inv :
    (i : ℕ) (s : World) {m : Memory} {l : Local}
    → Inv s
    → ReaderMove i s.memory (s.readers i) m l
    → Inv (record s { memory = m; readers = update s.readers i l })
ReaderMove-Inv i s {m} {l} v mv = record {
  counted = r.same_version ∙ v.counted;
  owner = v.owner;
  writing = writer r.apart;
  reading = λ j. elim (ℕ_discrete i j) [
    | yes e ↦
        (let same : update s.readers i l j ≡ l = if_pos (ℕ_discrete i j) e l (s.readers j) in
          subst (Reading j m s.updates s.values) (sym same)
            (subst (λ k. Reading k m s.updates s.values l) e r.stage))
    | no n ↦
        (let same : update s.readers i l j ≡ s.readers j =
            if_neg (ℕ_discrete i j) n l (s.readers j) in
          subst (Reading j m s.updates s.values) (sym same) (others j n r.apart))
  ];
}
  where
    r : Read i s m l
    r = ReaderMove-Read i s v mv

    writer :
        (m ≡ s.memory) ⊎ ((s.memory.lock ≡ free) ⊎ (s.memory.lock ≡ by_reader i))
        → Writing m s.writer (s.values s.updates)
    writer (inl e) = subst (λ n. Writing n s.writer (s.values s.updates)) (sym e) v.writing
    writer (inr h) =
        Writing-frame s.memory m s.writer (s.values s.updates) (λ q. ground arith) r.same_value
          v.writing

    others :
        (j : ℕ)
        → i ≢ j
        → (m ≡ s.memory) ⊎ ((s.memory.lock ≡ free) ⊎ (s.memory.lock ≡ by_reader i))
        → Reading j m s.updates s.values (s.readers j)
    others j n (inl e) =
        subst (λ n. Reading j n s.updates s.values (s.readers j)) (sym e) (v.reading j)
    others j n (inr h) =
        Reading-frame j s.memory m {values = s.values} {values' = s.values} (s.readers j)
          (λ q. ground arith) (omega arith) (λ k l. refl) (v.reading j)
