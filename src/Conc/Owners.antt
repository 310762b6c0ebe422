-- ===== src/Conc/Owners.antt =====
-- impl/all/conc/conc.cc, `lazy_update_global_if_owner`: the ownership test stands before the lock, so
-- two writers can both pass it.
use wineing.Prelude.{
  ℕ, ◌≡◌, refl, sym, ap, subst, ◌∙◌, Option, some, ◌==◌, if◌then◌else◌, true, Bool, arith,
}
use wineing.Prelude.Memory.{◌>>=◌}
use wineing.Conc.{Shared, next_version, lazy_update_global_if_owner}
use wineing.Ctrl.{WCtrl, copy_local_to_shared}
use wineing.Ctrl.Copy.{
  IsValid, Shows, Shows-trans, copied, copied-IsValid, copied-Shows, copy_local_to_shared-copied,
}
use wineing.Reader.{Reader, read_shared}
use wineing.Reader.Fresh.{IsFresh, read_shared-same}

module _ {ℓ} {D : Type ℓ} where
  -- The test, which runs without the lock.
  unfoldable pub owns : ℕ → Shared D → Bool
  owns t_version g = t_version == g.version

  -- The critical section: the version that is returned, and the shared state.
  unfoldable pub commit : (D → D → Option D) → ℕ → D → Shared D → Option (ℕ × Shared D)
  commit fn t_version t_data g = fn t_data g.value >>= λ d.
      some (next_version t_version, record { version = next_version t_version; value = d })

  -- The function is its test and its critical section, with nothing in between.
  update-commit :
      (fn : D → D → Option D) (t_version : ℕ) (t_data : D) (g : Shared D)
      → lazy_update_global_if_owner fn t_version t_data g
        ≡ (if owns t_version g then commit fn t_version t_data g else some (g.version, g))
  unfolding lazy_update_global_if_owner owns commit
  update-commit fn t_version t_data g = refl

pub commit-copied :
    (v : ℕ) (d : WCtrl) (g : Shared WCtrl)
    → IsValid d
    → IsValid g.value
    → commit copy_local_to_shared v d g
      ≡ some (next_version v, record { version = next_version v; value = copied d g.value })
unfolding commit
commit-copied v d g x y = rw (copy_local_to_shared-copied d g.value x y)

owns-version : (v : ℕ) (g : Shared WCtrl) → owns v g ≡ true → v ≡ g.version
unfolding owns
owns-version v g h = ground arith

-- Two writers that both pass the ownership test before either holds the lock both update the block,
-- and the second update, under the same version, replaces the first. A reader that read the block in
-- between keeps the first writer's data at its next read, where the block shows the second's, and
-- both writers' returned version is the shared one.
pub two_owners :
    (v w n m : ℕ) (first second : WCtrl) (g between last : Shared WCtrl) (r : Reader)
    → owns v g ≡ true
    → owns w g ≡ true
    → IsValid first
    → IsValid second
    → IsValid g.value
    → commit copy_local_to_shared v first g ≡ some (n, between)
    → commit copy_local_to_shared w second between ≡ some (m, last)
    → IsFresh between r
    → (read_shared last r ≡ some r)
      × Shows r.t_data first
      × Shows last.value second
      × (n ≡ last.version)
      × (m ≡ last.version)
two_owners v w n m first second g between last r a b x y z c d f =
    let c' = commit-copied v first g x z in
    let be : record { version = next_version v; value = copied first g.value } ≡ between =
      ground (arith, c, c') in
    let valid : IsValid between.value =
      subst (λ k. IsValid k.value) be (copied-IsValid first g.value x z) in
    let d' = commit-copied w second between y valid in
    let le : record { version = next_version w; value = copied second between.value } ≡ last =
      ground (arith, d, d') in
    let same : v ≡ w = owns-version v g a ∙ sym (owns-version w g b) in
    let equal : between.version ≡ last.version =
      ap (λ k. k.version) (sym be) ∙ ap next_version same ∙ ap (λ k. k.version) le in
    (
      read_shared-same last r (f.current ∙ equal),
      Shows-trans f.shows (subst (λ k. Shows k.value first) be (copied-Shows first g.value x)),
      subst (λ k. Shows k.value second) le (copied-Shows second between.value y),
      ground (arith, c, c', ap next_version same, ap (λ k. k.version) le),
      ground (arith, d, d', ap (λ k. k.version) le),
    )
