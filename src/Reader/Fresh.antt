-- ===== src/Reader/Fresh.antt =====
-- impl/all/conc/conc.cc: what a reader knows after a read.
use native.Mathlib.Decide.{ℕ_discrete}
use wineing.Prelude.{◌≡◌, ◌≢◌, refl, some, arith}
use wineing.Ctrl.{WCtrl}
use wineing.Ctrl.Copy.{
  IsValid, Shows, copied, copied-IsValid, copied-Shows, copy_local_to_shared-copied,
  copy_shared_to_local-swap,
}
use wineing.Conc.{Shared, lazy_update_local_if_changed}
use wineing.Reader.{Reader, read_shared}

-- A reader whose version is the global one has the data of that version.
pub record InSync (g : Shared WCtrl) (r : Reader) : Type 0 where
  pub valid : IsValid r.t_data
  pub synced : r.t_version ≡ g.version → Shows r.t_data g.value

-- After a read: the global version and its data.
pub record IsFresh (g : Shared WCtrl) (r : Reader) : Type 0 where
  pub valid : IsValid r.t_data
  pub current : r.t_version ≡ g.version
  pub shows : Shows r.t_data g.value

pub IsFresh-InSync : {g : Shared WCtrl} {r : Reader} → IsFresh g r → InSync g r
IsFresh-InSync f = record { valid = f.valid; synced = λ _. f.shows }

-- The value of a read that finds another version.
unfoldable pub refreshed : Shared WCtrl → Reader → Reader
refreshed g r = record { t_version = g.version; t_data = copied g.value r.t_data }

pub refreshed-IsFresh :
    (g : Shared WCtrl) (r : Reader) → IsValid g.value → IsValid r.t_data → IsFresh g (refreshed g r)
unfolding refreshed
refreshed-IsFresh g r v w = record {
  valid = copied-IsValid g.value r.t_data v w;
  current = refl;
  shows = copied-Shows g.value r.t_data v;
}

pub read_shared-same :
    (g : Shared WCtrl) (r : Reader) → r.t_version ≡ g.version → read_shared g r ≡ some r
unfolding read_shared lazy_update_local_if_changed
read_shared-same g r e = ground arith

pub read_shared-changed :
    (g : Shared WCtrl) (r : Reader)
    → IsValid g.value
    → IsValid r.t_data
    → r.t_version ≢ g.version
    → read_shared g r ≡ some (refreshed g r)
unfolding read_shared lazy_update_local_if_changed refreshed
read_shared-changed g r v w n = ground (
  arith,
  copy_shared_to_local-swap r.t_data g.value,
  copy_local_to_shared-copied g.value r.t_data v w,
)

-- A read never faults and leaves the reader with the published data.
pub read_shared-IsFresh :
    (g : Shared WCtrl) (r : Reader)
    → IsValid g.value
    → InSync g r
    → (r' : Reader) × (read_shared g r ≡ some r') × IsFresh g r'
read_shared-IsFresh g r v s = elim (ℕ_discrete r.t_version g.version) [
  | yes e ↦ (r, read_shared-same g r e, record { valid = s.valid; current = e; shows = s.synced e })
  | no n ↦ (refreshed g r, read_shared-changed g r v s.valid n, refreshed-IsFresh g r v s.valid)
]
