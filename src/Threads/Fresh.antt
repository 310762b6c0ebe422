-- ===== src/Threads/Fresh.antt =====
-- impl/all/conc/conc.cc: what a reader's call finds, against the updates made before and during it.
use native.Mathlib.Decide.{ℕ_discrete}
use wineing.Prelude.{ℕ, ◌≤◌, ◌<◌, ◌≡◌, ◌≢◌, sym, ap, ◌∙◌, subst, inl, inr, arith}
use wineing.Ctrl.{WCtrl, shared_version_read_init}
use wineing.Ctrl.Copy.{Shows}
use wineing.Threads.{
  Pc, idle, waiting, entered, versioned, cmd_copied, size_copied, data_copied, Memory, Local, World,
  ReaderMove, Step, Reach, next, update,
}
use wineing.Threads.Invariant.{Known, Inv}
use wineing.Threads.Moves.{Step-updates}
use wineing.Threads.Safety.{Reach-Inv, read_snapshot}
use wineing.Threads.Progress.{update-same, update-other}

-- Reader `i` has called `lazy_update_local_if_changed` at `s`, found another version, and has come to
-- the second state, in which it may have just returned.
pub data Calling (i : ℕ) (s : World) : World → Type 0 where
  begins :
      (s.readers i).pc ≡ idle
      → (s.readers i).t_version ≢ s.memory.version
      → Calling i s
          (record s { readers = update s.readers i (record (s.readers i) { pc = waiting }) })
  goes_on : {t u : World} → Calling i s t → (t.readers i).pc ≢ idle → Step t u → Calling i s u

-- The version that was loaded, if one was, lies between the updates at the call's start and now.
abbrev LoadedAt : ℕ → ℕ → Pc → ℕ → Type 0
LoadedAt n k waiting version = Unit {0}
LoadedAt n k entered version = Unit {0}
LoadedAt n k _ version = (n ≤ version) × (version ≤ k)

abbrev Loaded : ℕ → ℕ → Local → Type 0
Loaded n k l = LoadedAt n k l.pc l.t_version

Loaded-later : (n : ℕ) {k j : ℕ} (l : Local) → k ≤ j → Loaded n k l → Loaded n j l
Loaded-later n {k} {j} l h x = at l.pc x
  where
    at : (p : Pc) → LoadedAt n k p l.t_version → LoadedAt n j p l.t_version
    at idle x = (x.0, omega (arith, h, x.1))
    at waiting x = tt
    at entered x = tt
    at versioned x = (x.0, omega (arith, h, x.1))
    at cmd_copied x = (x.0, omega (arith, h, x.1))
    at size_copied x = (x.0, omega (arith, h, x.1))
    at data_copied x = (x.0, omega (arith, h, x.1))

ReaderMove-Loaded :
    {i : ℕ} {m m' : Memory} {l l' : Local} (n k : ℕ)
    → n ≤ m.version
    → m.version ≤ k
    → l.pc ≢ idle
    → Loaded n k l
    → ReaderMove i m l m' l'
    → Loaded n k l'
ReaderMove-Loaded n k a b c x (ReaderMove.same e o) = absurd (c e)
ReaderMove-Loaded n k a b c x (ReaderMove.changed e o) = absurd (c e)
ReaderMove-Loaded n k a b c x (ReaderMove.lock e f) = tt
ReaderMove-Loaded n k a b c x (ReaderMove.load_version e) = (a, b)
ReaderMove-Loaded n k a b c x (ReaderMove.load_cmd e) = rw e at x
ReaderMove-Loaded n k a b c x (ReaderMove.load_size e) = rw e at x
ReaderMove-Loaded n k a b c x (ReaderMove.load_data d e q) = rw e at x
ReaderMove-Loaded n k a b c x (ReaderMove.unlock e) = rw e at x

Step-Loaded :
    (i n : ℕ) {s t : World}
    → Step s t
    → Inv s
    → n ≤ s.updates
    → (s.readers i).pc ≢ idle
    → Loaded n s.updates (s.readers i)
    → Loaded n t.updates (t.readers i)
Step-Loaded i n (Step.writes mv) v h c x = x
Step-Loaded i n {s} (Step.store_version e) v h c x = Loaded-later n (s.readers i) (omega arith) x
Step-Loaded i n {s} (Step.reads j {m} {l} mv) v h c x = elim (ℕ_discrete j i) [
  | yes e ↦
      subst (λ k. Loaded n s.updates (update s.readers j l k)) e
        (subst (Loaded n s.updates) (sym (update-same s.readers j l)) (
          ReaderMove-Loaded n s.updates (omega (arith, h, v.counted)) (omega (arith, v.counted))
            (λ q. c (ap (λ k. (s.readers k).pc) (sym e) ∙ q))
            (subst (λ k. Loaded n s.updates (s.readers k)) (sym e) x) mv))
  | no d ↦ subst (Loaded n s.updates) (sym (update-other s.readers j l i d)) x
]

Calling-updates : {i : ℕ} {s t : World} → Calling i s t → s.updates ≤ t.updates
Calling-updates (begins e n) = omega arith
Calling-updates (goes_on c n st) = omega (arith, Calling-updates c, Step-updates st)

module _ {g_data t_data : WCtrl} {r_data : ℕ → WCtrl} where
  Calling-Loaded :
      {i : ℕ} {s u : World}
      → Reach g_data t_data r_data s
      → Calling i s u
      → u.updates < shared_version_read_init
      → Reach g_data t_data r_data u × Loaded s.updates u.updates (u.readers i)
  Calling-Loaded {i} {s} r (begins e n) b = (
    next r (Step.reads i (ReaderMove.changed e n)),
    subst (Loaded s.updates s.updates)
        (sym (update-same s.readers i (record (s.readers i) { pc = waiting }))) tt,
  )
  Calling-Loaded {i} {s} r (goes_on c n st) b =
      let k = Step-updates st in
      let (q, x) = Calling-Loaded r c (omega (arith, b, k)) in
      (
        next q st,
        Step-Loaded i s.updates st (Reach-Inv q (omega (arith, b, k))) (Calling-updates c) n x,
      )

  -- Reads are linearizable: a call that finds another version, in every interleaving, returns with a
  -- version that was published last at some moment of the call: no older than the last update before
  -- it began, and no newer than the last one when it returns. The copy shows (command, size and data
  -- up to the size) the one block published under that version. Fewer than 2^32 - 1 updates were made.
  pub call_reads_between :
      {i : ℕ} {s u : World}
      → Reach g_data t_data r_data s
      → Calling i s u
      → (u.readers i).pc ≡ idle
      → u.updates < shared_version_read_init
      → (s.updates ≤ (u.readers i).t_version)
        × ((u.readers i).t_version ≤ u.updates)
        × Shows (u.readers i).t_data (u.values (u.readers i).t_version)
  call_reads_between {i} {s} {u} r c e b =
      let (q, x) = Calling-Loaded r c b in
      let y : (s.updates ≤ (u.readers i).t_version) × ((u.readers i).t_version ≤ u.updates) =
        subst (λ p. LoadedAt s.updates u.updates p (u.readers i).t_version) e x in
      (y.0, y.1, shown (omega (arith, b, y.1)) (read_snapshot q b i e))
    where
      shown :
          (u.readers i).t_version < shared_version_read_init
          → Known u.updates u.values (u.readers i).t_version (u.readers i).t_data
          → Shows (u.readers i).t_data (u.values (u.readers i).t_version)
      shown l (inl z) = absurd (omega (arith, z, l))
      shown l (inr z) = z.1
