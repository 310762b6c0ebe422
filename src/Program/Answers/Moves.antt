-- ===== src/Program/Answers/Moves.antt =====
-- impl/all/core/wineing.cc: every action keeps the account of the responses.
use mathlib.Core.List.{append-nil}
use wineing.Prelude.{
  pos, suc, ◌^◌, ◌<◌, ◌≡◌, refl, sym, ap, ◌∙◌, subst, true, List, [], ◌∷◌, ◌++◌, some, arith,
  length, is_neg, inl, inr, if◌then◌else◌,
}
use wineing.Prelude.Memory.{Bytes}
use wineing.Control.{Env}
use wineing.Market.{NxCore}
use wineing.Reader.{Reader}
use wineing.Out.{out_buffer_size, OutTurn, OutState, pass_on}
use wineing.Out.Forward.{passed, pass_on-passed, pass_on-fits}
use wineing.Program.{out_reading, World, InStep, OutStep, MarketStep, Step}
use wineing.Program.Invariant.{Inv, answer_count}
use wineing.Program.Moves.Control.{reply-some}
use wineing.Program.Answers.{Told, pending}
use wineing.Program.Answers.Turns.{hears-Told, answers-Told, received-Told}

-- A step that changes nothing of what is counted.
frame-Told :
    {env : Env} (s t : World)
    → Told env s
    → t.control ≡ s.control
    → t.out.sent ≡ s.out.sent
    → t.queue ≡ s.queue
    → pending env t.in_pc ≡ pending env s.in_pc
    → answer_count t.in_pc ≡ answer_count s.in_pc
    → t.heard ≡ s.heard
    → t.unsent ≡ s.unsent
    → t.dropped ≡ s.dropped
    → Told env t
frame-Told s t w a b c d e f g h = record {
  in_phase = rw (a, f) w.in_phase;
  kept = rw (b, c, d, f) w.kept;
  counted = rw (b, c, e, f, g, h) w.counted;
}

InStep-Told : {env : Env} {s t : World} → InStep env s t → Inv s → Told env s → Told env t
InStep-Told {s} (InStep.hears z n req res c i g h o p) v w = hears-Told s v w req res c i g p
InStep-Told (InStep.hears_nothing z n req i g h o) v w = w
InStep-Told {env} {s} (InStep.answers rc res c i h e) v w =
    answers-Told s v w rc res c i (ap (λ x. x.shared) (reply-some env rc res s.control c e))
InStep-Told {env} {s} (InStep.in_leaves i g) v w =
    frame-Told s _ w refl refl refl (ap (pending env) (sym i)) (ap answer_count (sym i)) refl refl
      refl

passes-Told :
    {env : Env} (s : World) (t : OutTurn) (m : Bytes) (rest : List Bytes) (st : OutState)
    → Inv s
    → Told env s
    → s.queue ≡ m ∷ rest
    → length t.memory ≡ out_buffer_size
    → t.received ≡ record { rc = pos 0; message = m }
    → length m < 2 ^ 31
    → pass_on t s.out.reader s.out.sent ≡ some st
    → Told env (record s {
      queue = rest;
      out = st;
      out_pc = out_reading;
      dropped = if is_neg t.send_rc then suc s.dropped else s.dropped;
    })
passes-Told {env} s t m rest st v w q a z l e =
    let c = ap (λ x. x.rc) z in
    let b = ap (λ x. length x.message) z in
    let fits = pass_on-fits t s.out.reader s.out.sent st a c (omega (arith, b)) e in
    let same : record { reader = s.out.reader; sent = s.out.sent ++ passed t } ≡ st =
      ground (arith, pass_on-passed t s.out.reader s.out.sent a (inr (c, fits)), e) in
    subst
      (λ x. Told env (record s {
        queue = rest;
        out = x;
        out_pc = out_reading;
        dropped = if is_neg t.send_rc then suc s.dropped else s.dropped;
      }))
      same (received-Told s v w t m rest s.out.reader q z)

fails-sent :
    (t : OutTurn) (r : Reader) (sent : List Bytes) (st : OutState)
    → length t.memory ≡ out_buffer_size
    → is_neg t.received.rc ≡ true
    → pass_on t r sent ≡ some st
    → st.sent ≡ sent
fails-sent t r sent st a z e =
    let p : passed t ≡ [] = rw z refl in
    let same : record { reader = r; sent = sent ++ passed t } ≡ st =
      ground (arith, pass_on-passed t r sent a (inl z), e) in
    ap (λ x. x.sent) (sym same) ∙ ap (λ l. sent ++ l) p ∙ append-nil sent

OutStep-Told : {env : Env} {s t : World} → OutStep s t → Inv s → Told env s → Told env t
OutStep-Told {s} (OutStep.out_reads r p e c) v w =
    frame-Told s _ w refl refl refl refl refl refl refl refl
OutStep-Told {s} (OutStep.out_leaves r p e c) v w =
    frame-Told s _ w refl refl refl refl refl refl refl refl
OutStep-Told {s} (OutStep.out_closes p) v w =
    frame-Told s _ w refl refl refl refl refl refl refl refl
OutStep-Told {s} (OutStep.passes t m rest st p q a z l e) v w =
    passes-Told s t m rest st v w q a z l e
OutStep-Told {s} (OutStep.fails t st p a z e) v w =
    frame-Told s _ w refl (fails-sent t s.out.reader s.out.sent st a z e) refl refl refl refl refl
      refl

MarketStep-Told :
    {env : Env} {nx : NxCore} {s t : World} → MarketStep env nx s t → Told env s → Told env t
MarketStep-Told {s} (MarketStep.market_reads a r p e) w =
    frame-Told s _ w refl refl refl refl refl refl refl refl
MarketStep-Told {s} (MarketStep.nx_calls message rc n p e) w =
    frame-Told s _ w refl refl refl refl refl refl refl refl
MarketStep-Told {s} (MarketStep.nx_stops message rc n p e) w =
    frame-Told s _ w refl refl refl refl refl refl refl refl
MarketStep-Told {s} (MarketStep.nx_ends p) w =
    frame-Told s _ w refl refl refl refl refl refl refl refl
MarketStep-Told {s} (MarketStep.nx_obeys p) w =
    frame-Told s _ w refl refl refl refl refl refl refl refl

-- Every action keeps the account of the responses.
pub Step-Told :
    {env : Env} {nx : NxCore} {s t : World} → Step env nx s t → Inv s → Told env s → Told env t
Step-Told (Step.control m) v w = InStep-Told m v w
Step-Told (Step.out m) v w = OutStep-Told m v w
Step-Told (Step.market m) v w = MarketStep-Told m w
