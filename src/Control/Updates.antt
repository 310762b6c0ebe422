-- ===== src/Control/Updates.antt =====
-- impl/all/core/wineing.cc, `cchan_in_thread`: how far the thread's requests advance the version
-- of the shared control block. Readers rely on that.
use wineing.Prelude.{
  ℕ, ◌+◌, ◌%◌, ◌^◌, ◌≤◌, ◌<◌, ◌≡◌, refl, ◌∙◌, sym, subst, Option, none, some, arith,
}
use wineing.Ctrl.{WCtrl}
use wineing.Conc.{Shared}
use wineing.Proto.{Request, Response}
use wineing.Control.{Env, InState, signal, process}
use wineing.Control.Owner.{IsReady, published, with_tape}
use wineing.Control.Cases.{
  Handled, running, missing, crash, tape, live, stops, shuts, process-Handled,
}
use wineing.Reader.{Reader}
use wineing.Reader.Behind.{Behind, Later}
use wineing.Ctrl.Copy.{Shows}

-- `h` is the shared state at most `n` updates after `g`.
pub record Advanced (n : ℕ) (g h : Shared WCtrl) : Type 0 where
  pub updates : ℕ
  pub few : updates ≤ n
  pub word : h.version < 2 ^ 32
  pub distance : h.version ≡ (g.version + updates) % 2 ^ 32
  pub same : updates ≡ 0 → h.value ≡ g.value

pub Advanced-refl : (g : Shared WCtrl) → g.version < 2 ^ 32 → Advanced 0 g g
Advanced-refl g b = record {
  updates = 0;
  few = omega arith;
  word = b;
  distance = omega (arith, b);
  same = λ e. refl;
}

pub Advanced-weaken : {n m : ℕ} {g h : Shared WCtrl} → n ≤ m → Advanced n g h → Advanced m g h
Advanced-weaken l a = record {
  updates = a.updates;
  few = omega (arith, a.few);
  word = a.word;
  distance = a.distance;
  same = a.same;
}

pub Advanced-trans :
    {n m : ℕ} {g h k : Shared WCtrl} → Advanced n g h → Advanced m h k → Advanced (n + m) g k
Advanced-trans a b = record {
  updates = a.updates + b.updates;
  few = omega (arith, a.few, b.few);
  word = b.word;
  distance = omega (arith, a.distance, b.distance);
  same = λ e. b.same (omega (arith, e)) ∙ a.same (omega (arith, e));
}

pub Advanced-Later :
    {n : ℕ} {g h : Shared WCtrl} → n < 2 ^ 32 → g.version < 2 ^ 32 → Advanced n g h → Later g h
Advanced-Later l b a = record {
  updates = a.updates;
  small = omega (arith, a.few);
  word = b;
  distance = a.distance;
  same = a.same;
}

-- A reader that was `k` updates behind.
pub Behind-Advanced :
    {k n : ℕ} {g h : Shared WCtrl} {r : Reader}
    → Behind k g r
    → (a : Advanced n g h) → k + n < 2 ^ 32
    → Behind (k + a.updates) h r
Behind-Advanced {r} b a l = record {
  small = omega (arith, a.few);
  word = b.word;
  distance = omega (arith, a.distance, b.distance);
  valid = b.valid;
  shows =
      λ e. subst (Shows r.t_data) (sym (a.same (omega (arith, e)))) (b.shows (omega (arith, e)));
}

-- One update by the owner.
published-Advanced :
    (c : ℕ) (g : Shared WCtrl) (s : InState)
    → s.t_version ≡ g.version
    → Advanced 1 g (published c s).shared
unfolding published
published-Advanced c g s e = record {
  updates = 1;
  few = omega arith;
  word = omega arith;
  distance = omega (arith, e);
  same = λ q. cc;
}

abbrev Holds : (InState → Type 0) → Option (Response × InState) → Type 0
Holds P none = Unit {0}
Holds P (some p) = P p.1

Handled-Advanced :
    {env : Env} {req : Request} {s : InState} {o : Option (Response × InState)}
    → s.shared.version < 2 ^ 32
    → IsReady s
    → Handled env req s o
    → Holds (λ s'. Advanced 1 s.shared s'.shared) o
unfolding signal with_tape
Handled-Advanced {s} b r (running t c) = Advanced-weaken (omega arith) (Advanced-refl s.shared b)
Handled-Advanced {s} b r (missing file t c e m) =
    Advanced-weaken (omega arith) (Advanced-refl s.shared b)
Handled-Advanced b r (crash file t c e m l) = tt
Handled-Advanced {s} b r (tape file t c e m l) = published-Advanced _ s.shared _ r.current
Handled-Advanced {s} b r (live t c e) = published-Advanced _ s.shared _ r.current
Handled-Advanced {s} b r (stops t) = published-Advanced _ s.shared s r.current
Handled-Advanced {s} b r (shuts t) = published-Advanced _ s.shared s r.current

-- A request makes at most one update.
pub process-Advanced :
    (env : Env) (req : Request) (s s' : InState) (res : Response)
    → s.shared.version < 2 ^ 32
    → IsReady s
    → process env req s ≡ some (res, s')
    → Advanced 1 s.shared s'.shared
process-Advanced env req s s' res b r e =
    subst (Holds (λ s'. Advanced 1 s.shared s'.shared)) e
      (Handled-Advanced b r (process-Handled env req s r))
