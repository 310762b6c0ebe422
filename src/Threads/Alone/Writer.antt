-- ===== src/Threads/Alone/Writer.antt =====
-- impl/all/conc/conc.cc: `lazy_update_global_if_owner` with no other thread in between.
use native.Mathlib.Decide.{ℕ_discrete}
use wineing.Prelude.{subst, eq→==, ne→==, ℕ, ◌≡◌, ◌≢◌, refl, ◌∙◌, sym, ap, Option, some}
use wineing.Prelude.Memory.{Bytes, ◌>>=◌, >>=-eq-some}
use wineing.Ctrl.{WCtrl, copy_local_to_shared}
use wineing.Conc.{next_version, Shared, lazy_update_global_if_owner}
use wineing.Threads.{idle, free, copy_data, WriterMove, World, Step}
use wineing.Threads.Alone.{Steps, done, more, copy_local_to_shared-copy_data, shared_of}

-- What the writer's steps alone come to: its version and the shared block.
pub record Updated (s : World) (version : ℕ) (g : Shared WCtrl) : Type 0 where
  pub after : World
  pub steps : Steps s after
  pub memory : after.memory ≡ record { version = g.version; lock = free; value = g.value }
  pub writer : after.writer ≡ record { t_version = version; t_data = s.writer.t_data; pc = idle }
  pub readers : after.readers ≡ s.readers

owner_runs :
    (s : World) (b : Bytes)
    → s.writer.pc ≡ idle
    → s.memory.lock ≡ free
    → s.writer.t_version ≡ s.memory.version
    → copy_data s.memory.value s.writer.t_data ≡ some b
    → Updated s (next_version s.writer.t_version) (record {
      version = next_version s.writer.t_version;
      value = record { cmd = s.writer.t_data.cmd; buffer = b; size = s.writer.t_data.size };
    })
unfolding copy_data
owner_runs s b p f o c = record {
  after = _;
  steps =
      more
        (more
          (more
            (more
              (more
                (more (more done (Step.writes (WriterMove.owns p o)))
                  (Step.writes (WriterMove.lock refl f)))
                (Step.store_version refl))
              (Step.writes (WriterMove.store_cmd refl)))
            (Step.writes (WriterMove.store_size refl)))
          (Step.writes (WriterMove.store_data b refl c)))
        (Step.writes (WriterMove.unlock refl));
  memory = refl;
  writer = refl;
  readers = refl;
}

refused_runs :
    (s : World)
    → s.writer.pc ≡ idle
    → s.memory.lock ≡ free
    → s.writer.t_version ≢ s.memory.version
    → Updated s s.memory.version (shared_of s.memory)
refused_runs s p f n = record {
  after = _;
  steps = more done (Step.writes (WriterMove.refused p n));
  memory = ap (λ l. record s.memory { lock = l }) f;
  writer = ap (λ c. record { t_version = s.memory.version; t_data = s.writer.t_data; pc = c }) p;
  readers = refl;
}

-- What `lazy_update_global_if_owner` returns.
abbrev outcome : ℕ → Shared WCtrl → Option (ℕ × Shared WCtrl)
outcome v g = some (v, g)

Updated-subst :
    {s : World} {v w : ℕ} {g h : Shared WCtrl}
    → Updated s v g
    → outcome v g ≡ outcome w h
    → Updated s w h
Updated-subst {s} {v} {w} {g} {h} u e =
    let x : v ≡ w = cc in
    let y : g ≡ h = cc in subst (λ k. Updated s w k) y (subst (λ k. Updated s k g) x u)

owner_result :
    (s : World) (v : ℕ) (g : Shared WCtrl)
    → s.writer.pc ≡ idle
    → s.memory.lock ≡ free
    → s.writer.t_version ≡ s.memory.version
    → (copy_local_to_shared s.writer.t_data s.memory.value >>= λ d.
        outcome
          (next_version s.writer.t_version)
          (record { version = next_version s.writer.t_version; value = d }))
      ≡ outcome v g
    → Updated s v g
owner_result s v g p f o c =
    let (d, copy, e) = >>=-eq-some (copy_local_to_shared s.writer.t_data s.memory.value) _ c in
    let (b, bytes, q) =
      >>=-eq-some (copy_data s.memory.value s.writer.t_data) _
        (sym (copy_local_to_shared-copy_data s.writer.t_data s.memory.value) ∙ copy) in
    Updated-subst (owner_runs s b p f o bytes) (cc (e, q))

-- The steps of `lazy_update_global_if_owner`, run with no other thread in between from a free
-- lock, lead to the version and the shared block that the function as a whole returns, on both of
-- its branches, and leave the lock free.
pub lazy_update_global-Steps :
    (s : World) (v : ℕ) (g : Shared WCtrl)
    → s.writer.pc ≡ idle
    → s.memory.lock ≡ free
    → lazy_update_global_if_owner copy_local_to_shared s.writer.t_version s.writer.t_data
        (shared_of s.memory)
      ≡ some (v, g)
    → Updated s v g
unfolding lazy_update_global_if_owner
lazy_update_global-Steps s v g p f e = elim (ℕ_discrete s.writer.t_version s.memory.version) [
  | yes o ↦ owner_result s v g p f o (rw (eq→== s.writer.t_version s.memory.version o) at e)
  | no n ↦
      Updated-subst (refused_runs s p f n) (rw (ne→== s.writer.t_version s.memory.version n) at e)
]
