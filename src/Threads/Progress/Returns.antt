-- ===== src/Threads/Progress/Returns.antt =====
-- impl/all/conc/conc.cc: every call can return.
use wineing.Prelude.{
  ℕ, zero, suc, ◌+◌, ◌<◌, ◌≤◌, ◌≡◌, ◌≢◌, refl, ap, ◌∙◌, ◌⊎◌, inl, inr, Option, none, some, true,
  arith,
}
use wineing.Ctrl.{WCtrl}
use wineing.Threads.{
  Pc, idle, waiting, entered, versioned, cmd_copied, size_copied, data_copied, Lock, free,
  by_writer, by_reader, World, Step, Reach,
}
use wineing.Threads.Safety.{is_critical, place, held_by}
use wineing.Threads.Progress.{left, Sound, Onward}
use wineing.Threads.Progress.Held.{Reach-Held}
use wineing.Threads.Progress.Moves.{writer-Onward, reader-Onward}

-- `k` steps of any threads.
pub data Runs (s : World) : ℕ → World → Type 0 where
  ran : Runs s 0 s
  runs : {k : ℕ} {t u : World} → Runs s k t → Step t u → Runs s (suc k) u

pub Runs-front : {s t : World} {k : ℕ} {u : World} → Step s t → Runs t k u → Runs s (suc k) u
Runs-front st ran = runs ran st
Runs-front st (runs r q) = runs (Runs-front st r) q

Runs-trans :
    {s t : World} {n k : ℕ} {u : World}
    → Runs s n t
    → Runs t k u
    → (j : ℕ) × (j ≤ n + k) × Runs s j u
Runs-trans {n} r ran = (n, omega arith, r)
Runs-trans r (runs q st) = let (j, l, p) = Runs-trans r q in (suc j, omega (arith, l), runs p st)

onward :
    (s : World)
    → Sound s
    → (a : Option ℕ) → place s a ≢ idle
    → (place s a ≡ waiting → s.memory.lock ≡ free)
    → Onward a s
onward s v none n f = writer-Onward s v n f
onward s v (some i) n f = reader-Onward s v i n f

-- What the thread `a` leaves when it has returned from its call.
record Out (a : Option ℕ) (s : World) (n : ℕ) : Type 0 where
  taken : ℕ
  few : taken ≤ n
  last : World
  run : Runs s taken last
  sound : Sound last
  idle_now : place last a ≡ idle
  unlocked : last.memory.lock ≡ free
  others : (b : Option ℕ) → b ≢ a → place last b ≡ place s b

not_done : (p : Pc) → is_critical p ≡ true → p ≢ idle
not_done p c e = ground (arith, c, e)

not_waiting : (p : Pc) → is_critical p ≡ true → p ≢ waiting
not_waiting p c e = ground (arith, c, e)

critical_left : (p : Pc) → is_critical p ≡ true → left p ≤ 5
critical_left p c = ground arith

no_left : (p : Pc) → left p ≡ 0 → p ≡ idle
no_left p e = ground (arith, e)

pc_cases : (p : Pc) → (p ≡ idle) ⊎ (p ≢ idle)
pc_cases idle = inl refl
pc_cases waiting = inr (λ e. cc)
pc_cases entered = inr (λ e. cc)
pc_cases versioned = inr (λ e. cc)
pc_cases cmd_copied = inr (λ e. cc)
pc_cases size_copied = inr (λ e. cc)
pc_cases data_copied = inr (λ e. cc)

-- After a step of the critical section a thread is idle or still inside.
stays_critical : (p : Pc) → left p < 6 → p ≢ idle → is_critical p ≡ true
stays_critical idle l n = absurd (n refl)
stays_critical waiting l n = absurd (omega arith)
stays_critical entered l n = refl
stays_critical versioned l n = refl
stays_critical cmd_copied l n = refl
stays_critical size_copied l n = refl
stays_critical data_copied l n = refl

-- A thread that is inside leaves in five steps of its own.
finishes :
    (fuel : ℕ) (s : World)
    → Sound s
    → (a : Option ℕ) → is_critical (place s a) ≡ true
    → left (place s a) ≤ fuel
    → Out a s fuel
finishes zero s v a c l = absurd (not_done (place s a) c (no_left (place s a) (omega (arith, l))))
finishes (suc fuel) s v a c l =
    let o = onward s v a (not_done (place s a) c) (λ e. absurd (not_waiting (place s a) c e)) in
    elim (pc_cases (place o.after a)) [
      | inl e ↦ record {
        taken = 1;
        few = omega arith;
        last = o.after;
        run = runs ran o.step;
        sound = o.sound;
        idle_now = e;
        unlocked = o.freed e;
        others = o.others;
      }
      | inr n ↦
          (let c' =
              stays_critical (place o.after a) (omega (arith, o.less, critical_left (place s a) c))
                n in
            let z : Out a o.after fuel =
              finishes fuel o.after o.sound a c' (omega (arith, l, o.less)) in
            record {
              taken = suc z.taken;
              few = omega (arith, z.few);
              last = z.last;
              run = Runs-front o.step z.run;
              sound = z.sound;
              idle_now = z.idle_now;
              unlocked = z.unlocked;
              others = λ b n. z.others b n ∙ o.others b n;
            })
    ]

-- What is shown of a thread that is in a call.
abbrev Back : Option ℕ → World → ℕ → Type 0
Back a s n = (k : ℕ) × (t : World) × (k ≤ n) × Runs s k t × (place t a ≡ idle)

from_free :
    (s : World) → Sound s → s.memory.lock ≡ free → (a : Option ℕ) → place s a ≡ waiting → Back a s 6
from_free s v f a w =
    let o = onward s v a (λ e. cc (w, e)) (λ e. f) in
    elim (pc_cases (place o.after a)) [
      | inl e ↦ (1, o.after, omega arith, runs ran o.step, e)
      | inr n ↦
          (let l : left (place o.after a) < 6 = omega (arith, o.less, ap left w) in
            let z : Out a o.after 5 =
              finishes 5 o.after o.sound a (stays_critical (place o.after a) l n)
                (omega (arith, l)) in
            (suc z.taken, z.last, omega (arith, z.few), Runs-front o.step z.run, z.idle_now))
    ]

-- A thread `b` inside leaves first.
after_other :
    (s : World)
    → Sound s
    → (a b : Option ℕ) → place s a ≡ waiting
    → is_critical (place s b) ≡ true
    → Back a s 11
after_other s v a b w c =
    let z : Out b s 5 = finishes 5 s v b c (critical_left (place s b) c) in
    let w' : place z.last a ≡ waiting =
      z.others a (λ e. ground (arith, c, ap (place s) e, w)) ∙ w in
    let (k, t, l, r, e) = from_free z.last z.sound z.unlocked a w' in
    let (j, h, q) = Runs-trans z.run r in (j, t, omega (arith, h, l, z.few), q, e)

from_waiting :
    (s : World)
    → Sound s
    → ((b : Option ℕ) → s.memory.lock ≡ held_by b → is_critical (place s b) ≡ true)
    → (a : Option ℕ) → place s a ≡ waiting
    → (l : Lock) → s.memory.lock ≡ l
    → Back a s 11
from_waiting s v h a w free e =
    let (k, t, l, r, q) = from_free s v e a w in (k, t, omega (arith, l), r, q)
from_waiting s v h a w by_writer e = after_other s v a none w (h none e)
from_waiting s v h a w (by_reader i) e = after_other s v a (some i) w (h (some i) e)

module _ {g_data t_data : WCtrl} {r_data : ℕ → WCtrl} where
  -- No deadlock, and no fault on the way: in every state of every interleaving each thread, the writer
  -- or a reader, can be brought back from its call in at most eleven steps. The buffers have their
  -- size, and the shared block and the writer's fit in it.
  pub call_returns :
      {s : World}
      → Reach g_data t_data r_data s
      → Sound s
      → (a : Option ℕ) → (k : ℕ) × (t : World) × (k ≤ 11) × Runs s k t × (place t a ≡ idle)
  call_returns {s} r v a = at (place s a) refl
    where
      inside : is_critical (place s a) ≡ true → Back a s 11
      inside c =
          let z : Out a s 5 = finishes 5 s v a c (critical_left (place s a) c) in
          (z.taken, z.last, omega (arith, z.few), z.run, z.idle_now)

      at : (p : Pc) → place s a ≡ p → Back a s 11
      at idle e = (0, s, omega arith, ran, e)
      at waiting e = from_waiting s v (Reach-Held r) a e s.memory.lock refl
      at entered e = inside (ap is_critical e)
      at versioned e = inside (ap is_critical e)
      at cmd_copied e = inside (ap is_critical e)
      at size_copied e = inside (ap is_critical e)
      at data_copied e = inside (ap is_critical e)
