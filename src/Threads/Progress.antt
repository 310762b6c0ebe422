-- ===== src/Threads/Progress.antt =====
-- impl/all/conc/conc.cc: how far a thread is from the end of its call, and what keeps its copy within
-- the buffers.
pub mod Held
pub mod Moves
pub mod Returns
use mathlib.Core.Logic.{if_pos, if_neg}
use native.Mathlib.Decide.{ℕ_discrete}
use wineing.Prelude.{
  ℕ, ◌+◌, ◌<◌, ◌≤◌, ◌≡◌, ◌≢◌, refl, ap, ◌∙◌, Option, none, some, arith, length, ltb, if◌then◌else◌,
  Bool, true, false, Bool-cases, inl, inr,
}
use wineing.Prelude.Memory.{Bytes, memcpy, memcpy-fits, length-memcpy}
use wineing.Ctrl.{WCtrl, default_data_size, shared_version_read_init}
use wineing.Ctrl.Copy.{IsValid}
use wineing.Threads.{
  Pc, idle, waiting, entered, versioned, cmd_copied, size_copied, data_copied, free, Local, World,
  Step, copy_data, update,
}
use wineing.Threads.Safety.{place}

-- The steps that are left of a call.
abbrev pub left : Pc → ℕ
left idle = 0
left data_copied = 1
left size_copied = 2
left cmd_copied = 3
left versioned = 4
left entered = 5
left waiting = 6

-- Every buffer has its size, and the blocks that are copied fit in it.
pub record Sound (s : World) : Type 0 where
  pub shared_valid : IsValid s.memory.value
  pub writer_valid : IsValid s.writer.t_data
  pub allocated : (i : ℕ) → length (s.readers i).t_data.buffer ≡ default_data_size

-- A step of the thread `a` that brings it nearer to the end of its call, where it frees the lock.
pub record Onward (a : Option ℕ) (s : World) : Type 0 where
  pub after : World
  pub step : Step s after
  pub sound : Sound after
  pub less : left (place after a) < left (place s a)
  pub others : (b : Option ℕ) → b ≢ a → place after b ≡ place s b
  pub freed : place after a ≡ idle → after.memory.lock ≡ free

-- A copy between buffers of the right size finds both large enough.
pub copy_data-some :
    (dst src : WCtrl)
    → length dst.buffer ≡ default_data_size
    → IsValid src
    → (b : Bytes) × (copy_data dst src ≡ some b) × (length b ≡ default_data_size)
unfolding copy_data
copy_data-some dst src a v = elim (Bool-cases (ltb 0 src.size)) [
  | inl e ↦
      (let q =
          memcpy-fits dst.buffer src.buffer src.size (omega (arith, a, v.within))
            (omega (arith, v.allocated, v.within)) in
        (_, rw (e, q), length-memcpy dst.buffer src.buffer src.size q ∙ a))
  | inr e ↦ (dst.buffer, rw e, a)
]

module _ (f : ℕ → Local) (i : ℕ) (l : Local) where
  pub update-same : update f i l i ≡ l
  update-same = if_pos (ℕ_discrete i i) refl l (f i)

  pub update-other : (j : ℕ) → i ≢ j → update f i l j ≡ f j
  update-other j n = if_neg (ℕ_discrete i j) n l (f j)

  -- The buffers of the readers after a step of one of them.
  pub update-allocated :
      ((j : ℕ) → length (f j).t_data.buffer ≡ default_data_size)
      → length l.t_data.buffer ≡ default_data_size
      → (j : ℕ) → length (update f i l j).t_data.buffer ≡ default_data_size
  update-allocated h e j = elim (ℕ_discrete i j) [
    | yes p ↦ ap (λ k. length k.t_data.buffer) (if_pos (ℕ_discrete i j) p l (f j)) ∙ e
    | no n ↦ ap (λ k. length k.t_data.buffer) (update-other j n) ∙ h j
  ]
