-- ===== src/Program/Calls/Uses.antt =====
-- impl/all/core/wineing.cc and impl/wine/nx/nxtape.cc: every run of the program as a run of calls.
use wineing.Prelude.{ℕ, ℤ, zero, suc, ◌≡◌, refl, ◌∙◌, sym, ap, Option, some, []}
use wineing.Prelude.Memory.{Bytes, >>=-eq-some}
use wineing.Ctrl.{WCtrl, w_ctrl_init}
use wineing.Conc.{Shared}
use wineing.Reader.{read_shared, reader_init}
use wineing.Control.{Env, in_start}
use wineing.Market.{NxCore, NxTape, nxtape_process}
use wineing.Market.Callback.{nxtape_process-read}
use wineing.Threads.Atomic.{Atoms, none_yet, begin}
use wineing.Program.{World, InStep, OutStep, MarketStep, Step, Reach, here, next, start}
use wineing.Program.Moves.Out.{pass_on-reader}
use wineing.Program.Moves.Market.{market_turn-some}
use wineing.Program.Calls.Control.{process-Called}
use wineing.Program.Calls.State.{Ran, control-Ran, answers-Ran, keeps-Ran}
use wineing.Program.Calls.Readers.{out-Ran, market-Ran, tape-Ran}

tape_of :
    {a b : ℤ} {m n : NxTape} → ◌≡◌ {A = Option (ℤ × NxTape)} (some (a, m)) (some (b, n)) → m ≡ n
tape_of e = cc

nxtape_process-reads :
    (nx : NxCore) (env : Env) (g : Shared WCtrl) (m : ℕ) (rc : ℤ) (st n : NxTape) (c : ℤ)
    → nxtape_process nx env.codec g m rc st ≡ some (c, n)
    → read_shared g st.reader ≡ some n.reader
unfolding nxtape_process
nxtape_process-reads nx env g m rc st n c e =
    let (r, o, _) = >>=-eq-some (read_shared g st.reader) _ e in
    let q = sym (nxtape_process-read nx env.codec g m rc st r o) ∙ e in
    o ∙ ap (λ x. some x.reader) (tape_of q)

InStep-Ran : {env : Env} {b : Atoms} {w u : World} → InStep env w u → Ran b w → Ran b u
InStep-Ran {env} {w = w} (InStep.hears zr n req res c i g h p q) r =
    control-Ran _ (process-Called env req w.control c res q) refl refl refl r
InStep-Ran (InStep.hears_nothing zr n req i g h o) r = r
InStep-Ran {env} (InStep.answers rc res c i h e) r = answers-Ran env _ rc res e refl refl refl r
InStep-Ran (InStep.in_leaves i g) r = keeps-Ran _ refl refl refl refl r

OutStep-Ran : {b : Atoms} {w u : World} → OutStep w u → Ran b w → Ran b u
OutStep-Ran (OutStep.out_reads x p e c) r = out-Ran _ e refl refl refl r
OutStep-Ran (OutStep.out_leaves x p e c) r = out-Ran _ e refl refl refl r
OutStep-Ran (OutStep.out_closes p) r = keeps-Ran _ refl refl refl refl r
OutStep-Ran {w = w} (OutStep.passes t m rest st p q a z l e) r =
    keeps-Ran _ refl (pass_on-reader t w.out.reader w.out.sent st e) refl refl r
OutStep-Ran {w = w} (OutStep.fails t st p a z e) r =
    keeps-Ran _ refl (pass_on-reader t w.out.reader w.out.sent st e) refl refl r

MarketStep-Ran :
    {env : Env} {nx : NxCore} {b : Atoms} {w u : World} → MarketStep env nx w u → Ran b w → Ran b u
MarketStep-Ran {w = w} (MarketStep.market_reads a x p e) r =
    market-Ran _ (market_turn-some w.control.shared w.market x a e).0 refl refl refl r
MarketStep-Ran {env} {nx} {w = w} (MarketStep.nx_calls m rc n p e) r =
    tape-Ran _ (nxtape_process-reads nx env w.control.shared m rc w.tape n nx.callback_continue e)
      refl refl refl r
MarketStep-Ran {env} {nx} {w = w} (MarketStep.nx_stops m rc n p e) r =
    tape-Ran _ (nxtape_process-reads nx env w.control.shared m rc w.tape n nx.callback_stop e) refl
      refl refl r
MarketStep-Ran (MarketStep.nx_ends p) r = keeps-Ran _ refl refl refl refl r
MarketStep-Ran (MarketStep.nx_obeys p) r = keeps-Ran _ refl refl refl refl r

-- The readers' blocks at the start.
abbrev pub readers_data : Bytes → Bytes → Bytes → ℕ → WCtrl
readers_data o m t zero = w_ctrl_init o
readers_data o m t (suc zero) = w_ctrl_init m
readers_data o m t (suc (suc i)) = w_ctrl_init t

-- The threads use the shared block by whole calls only: whatever the order of their actions, what they
-- do to the block, to their versions and to their copies of it is a run of calls of
-- `lazy_update_global_if_owner` by the control thread and of `lazy_update_local_if_changed` by the
-- response thread, the market thread and the callback, from the versions and blocks that they start
-- with, and between two of its calls the control thread changes nothing but its own copy.
pub uses_calls :
    (g i o m t : Bytes) {env : Env} {nx : NxCore} {n : ℕ} {w : World}
    → Reach env nx (start g i o m t) n w
    → Ran (begin (w_ctrl_init g) (w_ctrl_init i) (readers_data o m t)) w
unfolding in_start reader_init
uses_calls g i o m t here = record {
  events = [];
  after = _;
  acts = none_yet;
  stands = record {
    of_block = refl;
    of_control = refl;
    of_out = refl;
    of_market = refl;
    of_tape = refl;
  };
}
uses_calls g i o m t (next r (Step.control st)) = InStep-Ran st (uses_calls g i o m t r)
uses_calls g i o m t (next r (Step.out st)) = OutStep-Ran st (uses_calls g i o m t r)
uses_calls g i o m t (next r (Step.market st)) = MarketStep-Ran st (uses_calls g i o m t r)
