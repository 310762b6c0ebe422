-- ===== src/Reader/Wrap.antt =====
-- impl/all/conc/conc.cc: the version is an `int`, so a number of updates between two reads can bring it
-- back to where it was.
use native.Mathlib.Decide.{ℕ_discrete}
use wineing.Prelude.{
  ℕ, ◌+◌, ◌%◌, ◌^◌, ◌<◌, ◌≡◌, refl, List, [], ◌∷◌, Option, some, length, ◌==◌, if◌then◌else◌, arith,
  ne→==,
}
use wineing.Prelude.Memory.{◌>>=◌}
use wineing.Ctrl.{WCtrl, copy_local_to_shared}
use wineing.Ctrl.Copy.{
  IsValid, Shows, Shows-refl, copied, copied-IsValid, copied-Shows, copy_local_to_shared-copied,
}
use wineing.Conc.{Shared, next_version, lazy_update_global_if_owner}
use wineing.Reader.{Reader, read_shared}
use wineing.Reader.Fresh.{IsFresh, refreshed, read_shared-same, read_shared-changed}

-- The updates of the writer, which keeps the version that each call returns.
unfoldable pub update_all : List WCtrl → ℕ → Shared WCtrl → Option (ℕ × Shared WCtrl)
update_all [] v g = some (v, g)
update_all (d ∷ ds) v g =
    lazy_update_global_if_owner copy_local_to_shared v d g >>= λ p. update_all ds p.0 p.1

abbrev pub AllValid : List WCtrl → Type 0
AllValid [] = Unit {0}
AllValid (d ∷ ds) = IsValid d × AllValid ds

-- The data of the last update, or `d` if there is none.
abbrev pub last_of : WCtrl → List WCtrl → WCtrl
last_of d [] = d
last_of d (e ∷ es) = last_of e es

-- One update by the owner.
abbrev updated : WCtrl → Shared WCtrl → Shared WCtrl
updated d g = record { version = next_version g.version; value = copied d g.value }

update-owner :
    (d : WCtrl) (g : Shared WCtrl)
    → IsValid d
    → IsValid g.value
    → lazy_update_global_if_owner copy_local_to_shared g.version d g
      ≡ some ((updated d g).version, updated d g)
unfolding lazy_update_global_if_owner
update-owner d g x y = ground (arith, copy_local_to_shared-copied d g.value x y)

-- What the updates `ds` leave, if the block showed `d` before them.
record Wrote (d : WCtrl) (ds : List WCtrl) (g h : Shared WCtrl) : Type 0 where
  valid : IsValid h.value
  counted : h.version ≡ (g.version + length ds) % 2 ^ 32
  shows : Shows h.value (last_of d ds)

update_all-Wrote :
    (d : WCtrl) (ds : List WCtrl) (g : Shared WCtrl)
    → AllValid ds
    → IsValid g.value
    → g.version < 2 ^ 32
    → Shows g.value d
    → (h : Shared WCtrl) × (update_all ds g.version g ≡ some (h.version, h)) × Wrote d ds g h
unfolding update_all
update_all-Wrote d [] g x y l s =
    (g, refl, record { valid = y; counted = omega (arith, l); shows = s })
update_all-Wrote d (e ∷ es) g (x, xs) y l s =
    let (h, o, w) =
      update_all-Wrote e es (updated e g) xs (copied-IsValid e g.value x y) (omega arith)
        (copied-Shows e g.value x) in
    (
      h,
      rw (update-owner e g x y) o,
      record { valid = w.valid; counted = omega (arith, w.counted); shows = w.shows },
    )

-- A reader that has the published block notices the updates that follow exactly if their number is
-- not a multiple of 2^32. If it is one, the next read keeps the reader's old data whatever was
-- written, while the block shows the last update. The updates are those of the owner, with data that
-- fits in the buffer, and all succeed.
pub read_shared-wraps :
    (ds : List WCtrl) (g : Shared WCtrl) (r : Reader)
    → AllValid ds
    → IsValid g.value
    → g.version < 2 ^ 32
    → IsFresh g r
    → (h : Shared WCtrl) × (update_all ds g.version g ≡ some (h.version, h))
      × Shows h.value (last_of g.value ds)
      × (read_shared h r ≡ some (if length ds % 2 ^ 32 == 0 then r else refreshed h r))
read_shared-wraps ds g r x y l f =
    let (h, o, w) = update_all-Wrote g.value ds g x y l (Shows-refl g.value) in
    (
      h,
      o,
      w.shows,
      elim (ℕ_discrete (length ds % 2 ^ 32) 0) [
        | yes e ↦ rw e (read_shared-same h r (omega (arith, e, f.current, w.counted, l)))
        | no n ↦ rw (ne→== (length ds % 2 ^ 32) 0 n) (
            read_shared-changed h r w.valid f.valid
              (λ e. n (omega (arith, e, f.current, w.counted, l))))
      ],
    )
