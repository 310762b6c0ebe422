-- ===== src/Threads/Alone/Reader.antt =====
-- impl/all/conc/conc.cc: `lazy_update_local_if_changed` with no other thread in between.
use mathlib.Core.Logic.{if_pos}
use native.Mathlib.Decide.{ℕ_discrete}
use wineing.Prelude.{subst, eq→==, ne→==, ℕ, ◌≡◌, ◌≢◌, refl, ◌∙◌, sym, ap, Option, some}
use wineing.Prelude.Memory.{Bytes, ◌>>=◌, >>=-eq-some}
use wineing.Ctrl.{WCtrl, copy_shared_to_local}
use wineing.Ctrl.Copy.{copy_shared_to_local-swap}
use wineing.Conc.{lazy_update_local_if_changed}
use wineing.Threads.{idle, free, Memory, Local, copy_data, ReaderMove, World, update, Step}
use wineing.Threads.Alone.{Steps, done, more, copy_local_to_shared-copy_data, shared_of}

-- What the steps of the reader `i` alone come to: its version and its block.
pub record Refreshed (i : ℕ) (s : World) (version : ℕ) (d : WCtrl) : Type 0 where
  pub after : World
  pub steps : Steps s after
  pub memory : after.memory ≡ s.memory
  pub reader : after.readers i ≡ record { t_version = version; t_data = d; pc = idle }

data Moves (i : ℕ) (m : Memory) (l : Local) : Memory → Local → Type 0 where
  still : Moves i m l m l
  move :
      {m' m'' : Memory} {l' l'' : Local}
      → Moves i m l m' l'
      → ReaderMove i m' l' m'' l''
      → Moves i m l m'' l''

Moves-Steps :
    (i : ℕ) (s : World) {m : Memory} {l : Local}
    → Moves i s.memory (s.readers i) m l
    → (t : World) × Steps s t × (t.memory ≡ m) × (t.readers i ≡ l)
Moves-Steps i s still = (s, done, refl, refl)
Moves-Steps i s (move {m'} {m''} {l'} {l''} ms mv) =
    let (t, st, em, el) = Moves-Steps i s ms in
    let mv' : ReaderMove i t.memory (t.readers i) m'' l'' =
      subst (λ x. ReaderMove i t.memory x m'' l'') (sym el)
        (subst (λ x. ReaderMove i x l' m'' l'') (sym em) mv) in
    (
      record t { memory = m''; readers = update t.readers i l'' },
      more st (Step.reads i mv'),
      refl,
      if_pos (ℕ_discrete i i) refl l'' (t.readers i),
    )

Moves-Refreshed :
    (i : ℕ) (s : World) {m : Memory} {l : Local} {v : ℕ} {d : WCtrl}
    → Moves i s.memory (s.readers i) m l
    → m ≡ s.memory
    → l ≡ record { t_version = v; t_data = d; pc = idle }
    → Refreshed i s v d
Moves-Refreshed i s ms e q =
    let (t, st, em, el) = Moves-Steps i s ms in
    record { after = t; steps = st; memory = em ∙ e; reader = el ∙ q }

changed_runs :
    (i : ℕ) (s : World) (b : Bytes)
    → (s.readers i).pc ≡ idle
    → s.memory.lock ≡ free
    → (s.readers i).t_version ≢ s.memory.version
    → copy_data (s.readers i).t_data s.memory.value ≡ some b
    → Refreshed i s s.memory.version
        (record { cmd = s.memory.value.cmd; buffer = b; size = s.memory.value.size })
unfolding copy_data
changed_runs i s b p f n c =
    Moves-Refreshed i s
      (move
        (move
          (move
            (move
              (move (move (move still (ReaderMove.changed p n)) (ReaderMove.lock refl f))
                (ReaderMove.load_version refl))
              (ReaderMove.load_cmd refl))
            (ReaderMove.load_size refl))
          (ReaderMove.load_data b refl c))
        (ReaderMove.unlock refl))
      (ap (λ k. record s.memory { lock = k }) (sym f)) refl

same_runs :
    (i : ℕ) (s : World)
    → (s.readers i).pc ≡ idle
    → (s.readers i).t_version ≡ s.memory.version
    → Refreshed i s (s.readers i).t_version (s.readers i).t_data
same_runs i s p o = Moves-Refreshed i s (move still (ReaderMove.same p o)) refl (
    ap (λ c. record { t_version = (s.readers i).t_version; t_data = (s.readers i).t_data; pc = c })
      p)

-- What `lazy_update_local_if_changed` returns.
abbrev refreshed : ℕ → WCtrl → Option (ℕ × WCtrl)
refreshed v d = some (v, d)

Refreshed-subst :
    {i : ℕ} {s : World} {v w : ℕ} {d c : WCtrl}
    → Refreshed i s v d
    → refreshed v d ≡ refreshed w c
    → Refreshed i s w c
Refreshed-subst {i} {s} {v} {w} {d} {c} u e =
    let x : v ≡ w = cc in
    let y : d ≡ c = cc in subst (λ k. Refreshed i s w k) y (subst (λ k. Refreshed i s k d) x u)

changed_result :
    (i : ℕ) (s : World) (v : ℕ) (d : WCtrl)
    → (s.readers i).pc ≡ idle
    → s.memory.lock ≡ free
    → (s.readers i).t_version ≢ s.memory.version
    → (copy_shared_to_local (s.readers i).t_data s.memory.value >>= λ x.
        refreshed s.memory.version x)
      ≡ refreshed v d
    → Refreshed i s v d
changed_result i s v d p f n c =
    let (x, copy, e) = >>=-eq-some (copy_shared_to_local (s.readers i).t_data s.memory.value) _ c in
    let (b, bytes, q) = >>=-eq-some (copy_data (s.readers i).t_data s.memory.value) _ (
      sym (copy_local_to_shared-copy_data s.memory.value (s.readers i).t_data)
      ∙ sym (copy_shared_to_local-swap (s.readers i).t_data s.memory.value)
      ∙ copy) in
    Refreshed-subst (changed_runs i s b p f n bytes) (cc (e, q))

-- The steps of a reader's `lazy_update_local_if_changed`, run with no other thread in between
-- from a free lock, lead to the version and the block that the function as a whole returns, on
-- both of its branches, and leave the shared memory as it was.
pub lazy_update_local-Steps :
    (i : ℕ) (s : World) (v : ℕ) (d : WCtrl)
    → (s.readers i).pc ≡ idle
    → s.memory.lock ≡ free
    → lazy_update_local_if_changed copy_shared_to_local
        (s.readers i).t_version
        (s.readers i).t_data
        (shared_of s.memory)
      ≡ some (v, d)
    → Refreshed i s v d
unfolding lazy_update_local_if_changed
lazy_update_local-Steps i s v d p f e = elim (ℕ_discrete (s.readers i).t_version s.memory.version) [
  | yes o ↦
      Refreshed-subst (same_runs i s p o)
        (rw (eq→== (s.readers i).t_version s.memory.version o) at e)
  | no n ↦ changed_result i s v d p f n (rw (ne→== (s.readers i).t_version s.memory.version n) at e)
]
