-- ===== src/Reader/Behind.antt =====
-- impl/all/conc/conc.cc: a reader that is some updates behind the writer notices it. The version is
-- a 32-bit `int`, so a reader that is 2^32 updates behind would not.
use wineing.Prelude.{ℕ, suc, ◌+◌, ◌%◌, ◌^◌, ◌<◌, ◌≡◌, refl, sym, subst, arith, length}
use wineing.Prelude.Memory.{Bytes}
use wineing.Ctrl.{WCtrl, default_data_size, shared_version_init}
use wineing.Ctrl.Copy.{IsValid, Shows}
use wineing.Conc.{Shared, next_version}
use wineing.Reader.{Reader, reader_init}
use wineing.Reader.Fresh.{InSync, IsFresh}

-- The writer has made `k` updates since the reader's last read.
pub record Behind (k : ℕ) (g : Shared WCtrl) (r : Reader) : Type 0 where
  pub small : k < 2 ^ 32
  pub word : r.t_version < 2 ^ 32
  pub distance : g.version ≡ (r.t_version + k) % 2 ^ 32
  pub valid : IsValid r.t_data
  pub shows : k ≡ 0 → Shows r.t_data g.value

pub Behind-InSync : {k : ℕ} {g : Shared WCtrl} {r : Reader} → Behind k g r → InSync g r
Behind-InSync {k} {g} {r} b = record {
  valid = b.valid;
  synced = λ e. b.shows (omega (arith, e, b.distance, b.small, b.word));
}

-- One more update, whatever it writes.
pub Behind-next :
    {k : ℕ} {g : Shared WCtrl} {r : Reader} (v : ℕ) (d : WCtrl)
    → Behind k g r
    → suc k < 2 ^ 32
    → v ≡ g.version
    → Behind (suc k) (record { version = next_version v; value = d }) r
Behind-next v d b h e = record {
  small = h;
  word = b.word;
  distance = omega (arith, b.distance, b.word);
  valid = b.valid;
  shows = λ e. cc;
}

pub IsFresh-Behind :
    {g : Shared WCtrl} {r : Reader} → g.version < 2 ^ 32 → IsFresh g r → Behind 0 g r
IsFresh-Behind h f = record {
  small = omega arith;
  word = omega (arith, f.current);
  distance = omega (arith, f.current);
  valid = f.valid;
  shows = λ _. f.shows;
}

-- At the start every reader is one update behind, so its first read copies.
pub reader_init-Behind :
    (memory : Bytes) (d : WCtrl)
    → length memory ≡ default_data_size
    → Behind 1 (record { version = shared_version_init; value = d }) (reader_init memory)
unfolding reader_init
reader_init-Behind memory d h = record {
  small = omega arith;
  word = omega arith;
  distance = refl;
  valid = record { allocated = h; within = omega arith };
  shows = λ e. cc;
}

-- `h` is the shared state a number of updates after `g`.
pub record Later (g h : Shared WCtrl) : Type 0 where
  pub updates : ℕ
  pub small : updates < 2 ^ 32
  pub word : g.version < 2 ^ 32
  pub distance : h.version ≡ (g.version + updates) % 2 ^ 32
  pub same : updates ≡ 0 → h.value ≡ g.value

-- A reader that is fresh at one state notices any later state.
pub IsFresh-Later : {g h : Shared WCtrl} {r : Reader} → IsFresh g r → Later g h → InSync h r
IsFresh-Later {g} {h} {r} f l = record {
  valid = f.valid;
  synced = λ e.
      subst (Shows r.t_data)
        (sym (l.same (omega (arith, e, f.current, l.distance, l.small, l.word)))) f.shows;
}
