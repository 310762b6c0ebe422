-- ===== src/Program/Prompt.antt =====
-- impl/all/core/wineing.cc and impl/wine/nx/nxtape.cc: after a stop the market data ends at once.
use wineing.Prelude.{
  ℕ, ℤ, ◌+◌, ◌<◌, ◌≤◌, ◌≡◌, ◌≢◌, sym, ap, ◌∙◌, subst, ◌⊎◌, inl, inr, [], ◌∷◌, some, arith, length,
  length-append,
}
use wineing.Prelude.Memory.{Bytes}
use wineing.Ctrl.{WCtrl, cmd_market_run}
use wineing.Proto.{Codec}
use wineing.Control.{Env}
use wineing.Control.Spec.{stopped, down, told}
use wineing.Reader.Behind.{Behind-InSync}
use wineing.Market.{action, NxCore, NxTape, nxtape_process}
use wineing.Market.Callback.{to_send, nxtape_process_lem}
use wineing.Program.{
  MarketPc, in_nxcore, World, InStep, OutStep, MarketStep, Step, Reach, here, next, after, start,
}
use wineing.Program.Invariant.{Inv, Bounded, read-IsFresh}
use wineing.Program.Moves.{Step-heard}
use wineing.Program.Moves.Control.{reply-some}
use wineing.Program.Moves.Market.{market_turn-some, nxtape_process-some}
use wineing.Program.Safety.{IsAllocated, Reach-Inv, reached-Inv}
use wineing.Program.Ending.Bound.{Reach-heard}

-- The published command stops the market data.
abbrev Halts : World → Type 0
Halts s = s.control.shared.value.cmd < cmd_market_run

-- The messages that can still come.
abbrev to_come : MarketPc → ℕ
to_come in_nxcore = 1
to_come _ = 0

-- What an action leads to that processes no request.
abbrev Less : World → World → Type 0
Less s t =
    Halts t × (length t.tape.sent + to_come t.market_pc ≤ length s.tape.sent + to_come s.market_pc)

InStep-Less :
    {env : Env} {s t : World}
    → Halts s
    → length t.heard ≤ length s.heard
    → InStep env s t
    → Less s t
InStep-Less {s} h l (InStep.hears z n req res c i g x o p) =
    absurd (omega (arith, l, length-append s.heard (req ∷ [])))
InStep-Less h l (InStep.hears_nothing z n req i g o p) = (h, omega arith)
InStep-Less {env} {s} h l (InStep.answers rc res c i o e) = (
  subst (λ x. x.shared.value.cmd < cmd_market_run) (sym (reply-some env rc res s.control c e)) h,
  omega arith,
)
InStep-Less h l (InStep.in_leaves i g) = (h, omega arith)

OutStep-Less : {s t : World} → Halts s → OutStep s t → Less s t
OutStep-Less h (OutStep.out_reads r p e c) = (h, omega arith)
OutStep-Less h (OutStep.out_leaves r p e c) = (h, omega arith)
OutStep-Less h (OutStep.out_closes p) = (h, omega arith)
OutStep-Less h (OutStep.passes t m rest st p q a z l e) = (h, omega arith)
OutStep-Less h (OutStep.fails t st p a z e) = (h, omega arith)

-- A read of such a command does not start NxCore.
after-to_come : (d : WCtrl) → d.cmd < cmd_market_run → to_come (after (action d)) ≡ 0
after-to_come d h = ground arith

length-to_send : (nx : NxCore) (codec : Codec) (m : ℕ) (rc : ℤ) → length (to_send nx codec m rc) ≤ 1
length-to_send nx codec m rc = ground arith

-- The callback sends one message at most.
callback_sends :
    (nx : NxCore) (codec : Codec) (s : World) (message : ℕ) (rc ret : ℤ) (n : NxTape)
    → Inv s
    → nxtape_process nx codec s.control.shared message rc s.tape ≡ some (ret, n)
    → length n.sent ≤ length s.tape.sent + 1
callback_sends nx codec s message rc ret n v e =
    let (m, o, _, q) =
      nxtape_process_lem nx codec s.control.shared message rc s.tape v.owner.ready.shared_valid
        (Behind-InSync v.tape_near.behind) in
    let same : m ≡ n = ground (arith, o, e) in
    omega (
      arith,
      ap (λ x. length x.sent) same,
      ap length q,
      length-append s.tape.sent (to_send nx codec message rc),
      length-to_send nx codec message rc,
    )

MarketStep-Less :
    {env : Env} {nx : NxCore} {s t : World}
    → nx.callback_stop ≢ nx.callback_continue
    → Inv s
    → Halts s
    → MarketStep env nx s t
    → Less s t
MarketStep-Less {s} x v h (MarketStep.market_reads a r p e) =
    let (o, q) = market_turn-some s.control.shared s.market r a e in
    let f = read-IsFresh s.control s.market r v.owner v.market_near o in
    let c : to_come (after a) ≡ 0 =
      ap (λ k. to_come (after k)) q ∙ after-to_come r.t_data (omega (arith, h, f.shows.same_cmd)) in
    (h, omega (arith, c))
MarketStep-Less {env} {nx} {s} x v h (MarketStep.nx_calls message rc n p e) =
    let (f, q) = nxtape_process-some nx env.codec s message rc _ n v e in
    absurd (x (ground (arith, q, h)))
MarketStep-Less {env} {nx} {s} x v h (MarketStep.nx_stops message rc n p e) =
    (h, omega (arith, ap to_come p, callback_sends nx env.codec s message rc _ n v e))
MarketStep-Less x v h (MarketStep.nx_ends p) = (h, omega arith)
MarketStep-Less x v h (MarketStep.nx_obeys p) = (h, omega (arith, ap to_come p))

Step-Less :
    {env : Env} {nx : NxCore} {s t : World}
    → nx.callback_stop ≢ nx.callback_continue
    → Inv s
    → Halts s
    → length t.heard ≤ length s.heard
    → Step env nx s t
    → Less s t
Step-Less x v h l (Step.control m) = InStep-Less h l m
Step-Less x v h l (Step.out m) = OutStep-Less h m
Step-Less x v h l (Step.market m) = MarketStep-Less x v h m

Reach-Less :
    {env : Env} {nx : NxCore} {s : World} {n : ℕ} {t : World}
    → nx.callback_stop ≢ nx.callback_continue
    → Inv s
    → Halts s
    → Reach env nx s n t
    → Bounded t
    → length t.heard ≤ length s.heard
    → Less s t
Reach-Less x v h here b l = (h, omega arith)
Reach-Less {s} x v h (next {s = u} r st) b l =
    let c : Bounded u = omega (arith, Step-heard st) in
    let (h', e) = Reach-Less x v h r c (omega (arith, l, Step-heard st)) in
    let (h'', e') = Step-Less x (Reach-Inv v r c) h' (omega (arith, l, Reach-heard r)) st in
    (h'', omega (arith, e, e'))

told-Halts : (s : World) → (told s.control ≡ stopped) ⊎ (told s.control ≡ down) → Halts s
told-Halts s (inl e) = ground (arith, e)
told-Halts s (inr e) = ground (arith, e)

to_come_le : (p : MarketPc) → to_come p ≤ 1
to_come_le p = ground arith

module _ {env : Env} {nx : NxCore} {g i o m t : Bytes} (a : IsAllocated g i o m t)
    (x : nx.callback_stop ≢ nx.callback_continue) where
  -- After a stop or a shutdown has been processed, and until another request is, the callback sends at
  -- most one message more, in every order of the threads' actions and however many messages NxCore
  -- still has. Fewer than 2^32 - 1 requests have been processed, and NxCore's two return codes differ.
  pub stop_is_prompt :
      {n k : ℕ} {s u : World}
      → Reach env nx (start g i o m t) n s
      → (told s.control ≡ stopped) ⊎ (told s.control ≡ down)
      → Reach env nx s k u
      → Bounded u
      → length u.heard ≡ length s.heard
      → length u.tape.sent ≤ length s.tape.sent + 1
  stop_is_prompt {s} r d q b l = omega (
    arith,
    (Reach-Less x (reached-Inv a r (omega (arith, Reach-heard q))) (told-Halts s d) q b
        (omega (arith, l))).1,
    to_come_le s.market_pc,
  )
