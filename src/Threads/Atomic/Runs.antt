-- ===== src/Threads/Atomic/Runs.antt =====
-- impl/all/conc/conc.cc: every run of the threads, step by step, as a run of single actions.
use wineing.Prelude.{ℕ, ◌<◌, ◌≤◌, ◌≡◌, refl, sym, arith, List, Option, none, some}
use wineing.Ctrl.{WCtrl, shared_version_read_init}
use wineing.Threads.{idle, World, Step, Reach, here, next, start}
use wineing.Threads.Invariant.{Inv}
use wineing.Threads.Moves.{Step-updates}
use wineing.Threads.Safety.{Reach-Inv}
use wineing.Threads.Alone.{Steps, done, more, shared_of}
use wineing.Threads.Atomic.{
  Atoms, Acts, none_yet, then_act, begin, Event, step_event, log_event, calls, history,
}
use wineing.Threads.Atomic.Simulation.{
  own, Sim, Matched, stutters, acts, WritesAt-place, ReadsAt-place,
}
use wineing.Threads.Atomic.Updates.{WriterMove-Matched, store_version-Matched}
use wineing.Threads.Atomic.Calls.{ReaderMove-Matched}

-- Who is between two calls has what the single actions give it, and so has the shared block when the
-- writer is.
pub record Agrees (s : World) (a : Atoms) : Type 0 where
  pub of_reader : (i : ℕ) → (s.readers i).pc ≡ idle → own (s.readers i) ≡ a.readers i
  pub of_writer : s.writer.pc ≡ idle → own s.writer ≡ a.writer
  pub of_block : s.writer.pc ≡ idle → shared_of s.memory ≡ a.shared

Sim-Agrees : {s : World} {a : Atoms} → Sim s a → Agrees s a
Sim-Agrees {s} {a} z = record {
  of_reader = λ i e. sym (ReadsAt-place i z e).0;
  of_writer = λ e. rw (z.same_data, (WritesAt-place z e).same_version) refl;
  of_block = λ e. sym (WritesAt-place z e).same_block;
}

start-Sim :
    (g_data t_data : WCtrl) (r_data : ℕ → WCtrl)
    → Sim (start g_data t_data r_data) (begin g_data t_data r_data)
start-Sim g_data t_data r_data = record {
  same_data = refl;
  writes = record { same_block = refl; same_version = refl };
  reads = λ i. (refl, λ k. absurd (cc k));
}

Step-Matched :
    {s t : World} {a : Atoms} (st : Step s t)
    → Inv s
    → t.updates < shared_version_read_init
    → Sim s a
    → Matched t a (step_event st)
Step-Matched {s} {t} {a} (Step.writes mv) v b z = WriterMove-Matched s a v z mv
Step-Matched {s} {t} {a} (Step.store_version e) v b z = store_version-Matched s a v z e b
Step-Matched {s} {t} {a} (Step.reads i mv) v b z = ReaderMove-Matched i s a v z mv

matched :
    {t : World} {a b : Atoms} {es : List Event} (o : Option Event)
    → Acts a es b
    → Matched t b o
    → (c : Atoms) × Acts a (log_event o es) c × Sim t c
matched {b} none r (stutters z) = (b, r, z)
matched (some e) r (acts {b} x z) = (b, then_act r x, z)

Steps-updates : {s u : World} → Steps s u → s.updates ≤ u.updates
Steps-updates done = omega arith
Steps-updates (more st x) = omega (arith, Steps-updates st, Step-updates x)

module _ {g_data t_data : WCtrl} {r_data : ℕ → WCtrl} where
  Reach-Sim :
      {s : World} (r : Reach g_data t_data r_data s)
      → s.updates < shared_version_read_init
      → (a : Atoms) × Acts (begin g_data t_data r_data) (history r) a × Sim s a
  unfolding history
  Reach-Sim here b = (begin g_data t_data r_data, none_yet, start-Sim g_data t_data r_data)
  Reach-Sim (next r st) b =
      let k = Step-updates st in
      let (a, q, z) = Reach-Sim r (omega (arith, b, k)) in
      matched (step_event st) q (Step-Matched st (Reach-Inv r (omega (arith, b, k))) b z)

  Steps-Sim :
      {s u : World} {a : Atoms}
      → Reach g_data t_data r_data s
      → Sim s a
      → (st : Steps s u) → u.updates < shared_version_read_init
      → Reach g_data t_data r_data u × ((c : Atoms) × Acts a (calls st) c × Sim u c)
  unfolding calls
  Steps-Sim {s} {u} {a} r z done b = (r, (a, none_yet, z))
  Steps-Sim r z (more st x) b =
      let k = Step-updates x in
      let (q, (c, y, w)) = Steps-Sim r z st (omega (arith, b, k)) in
      (next q x, matched (step_event x) y (Step-Matched x (Reach-Inv q (omega (arith, b, k))) b w))

  -- The functions are linearizable: every interleaving of one writer and any number of readers, a
  -- shared access at a time, is a run of whole calls, one after the other, each the function of Conc
  -- as one action. The calls of that run are those of the interleaving in the order in which they
  -- made their last access to the block (or the test that found the same version), no call more and
  -- none less, both up to any moment of the interleaving and from there on. At such a moment a thread
  -- that is between two calls has exactly the version and the control block, with all of its buffer,
  -- that the calls so far give it, and so has the shared block while the writer is between two calls.
  -- Fewer than 2^32 - 1 updates were made.
  pub calls_are_atomic :
      {s u : World} (r : Reach g_data t_data r_data s) (st : Steps s u)
      → u.updates < shared_version_read_init
      → (a c : Atoms) × Acts (begin g_data t_data r_data) (history r) a
        × Agrees s a
        × Acts a (calls st) c
        × Agrees u c
  calls_are_atomic r st b =
      let (a, q, z) = Reach-Sim r (omega (arith, b, Steps-updates st)) in
      let (_, (c, y, w)) = Steps-Sim r z st b in (a, c, q, Sim-Agrees z, y, Sim-Agrees w)
