-- ===== src/Program/Moves/Market.antt =====
-- impl/all/core/wineing.cc, `market_thread`, and impl/wine/nx/nxtape.cc: their actions keep the
-- invariant of the program.
use wineing.Prelude.{ℕ, ℤ, ◌≡◌, ◌≢◌, sym, ap, ◌∙◌, subst, some, ltb, arith, if◌then◌else◌}
use wineing.Prelude.Memory.{>>=-eq-some}
use wineing.Ctrl.{WCtrl, cmd_market_run, cmd_shutdown}
use wineing.Conc.{Shared}
use wineing.Proto.{Codec}
use wineing.Control.{Env}
use wineing.Reader.{Reader, read_shared}
use wineing.Reader.Fresh.{IsFresh}
use wineing.Market.{Action, action, market_turn, NxCore, NxTape, nxtape_process}
use wineing.Market.Callback.{nxtape_process_lem}
use wineing.Reader.Behind.{Behind-InSync}
use wineing.Program.{MarketPc, market_reading, nx_stopping, market_done, World, MarketStep, after}
use wineing.Program.Invariant.{Inv, IsFresh-Near, read-IsFresh}

pub market_turn-some :
    (g : Shared WCtrl) (r r' : Reader) (a : Action)
    → market_turn g r ≡ some (a, r')
    → (read_shared g r ≡ some r') × (a ≡ action r'.t_data)
unfolding market_turn
market_turn-some g r r' a e =
    let (x, o, q) = >>=-eq-some (read_shared g r) _ e in
    let same : x ≡ r' = ground (arith, q) in (o ∙ ap some same, ground (arith, q))

-- The market thread ends after a read that finds a shutdown.
after-done : (d : WCtrl) → after (action d) ≡ market_done → d.cmd ≡ cmd_shutdown
after-done d e = ground arith

-- What the callback returns and leaves.
pub nxtape_process-some :
    (nx : NxCore) (codec : Codec) (s : World) (message : ℕ) (rc ret : ℤ) (n : NxTape)
    → Inv s
    → nxtape_process nx codec s.control.shared message rc s.tape ≡ some (ret, n)
    → IsFresh s.control.shared n.reader
      × (ret ≡ (
          if ltb s.control.shared.value.cmd cmd_market_run
          then nx.callback_stop
          else nx.callback_continue))
nxtape_process-some nx codec s message rc ret n v e =
    let (m, o, f, _) =
      nxtape_process_lem nx codec s.control.shared message rc s.tape v.owner.ready.shared_valid
        (Behind-InSync v.tape_near.behind) in
    let same : m ≡ n = ground (arith, o, e) in
    (subst (λ x. IsFresh s.control.shared x.reader) same f, ground (arith, o, e))

market_reads-Inv :
    (s : World) (a : Action) (r : Reader)
    → Inv s
    → market_turn s.control.shared s.market ≡ some (a, r)
    → Inv (record s { market = r; market_pc = after a })
market_reads-Inv s a r v e =
    let (o, q) = market_turn-some s.control.shared s.market r a e in
    let f = read-IsFresh s.control s.market r v.owner v.market_near o in
    record {
      owner = v.owner;
      word = v.word;
      out_near = v.out_near;
      market_near = IsFresh-Near _ v.word f;
      tape_near = v.tape_near;
      in_left = v.in_left;
      out_left = v.out_left;
      market_left = λ h.
          let c = after-done r.t_data (ap after (sym q) ∙ h) in ground (arith, c, f.shows.same_cmd);
      served = v.served;
    }

-- The callback changes its own reader, and no thread ends by it.
tape-Inv :
    (s : World) (n : NxTape) (pc : MarketPc)
    → Inv s
    → IsFresh s.control.shared n.reader
    → pc ≢ market_done
    → Inv (record s { tape = n; market_pc = pc })
tape-Inv s n pc v f h = record {
  owner = v.owner;
  word = v.word;
  out_near = v.out_near;
  market_near = v.market_near;
  tape_near = IsFresh-Near _ v.word f;
  in_left = v.in_left;
  out_left = v.out_left;
  market_left = λ e. absurd (h e);
  served = v.served;
}

returned-Inv : (s : World) → Inv s → Inv (record s { market_pc = market_reading })
returned-Inv s v = record {
  owner = v.owner;
  word = v.word;
  out_near = v.out_near;
  market_near = v.market_near;
  tape_near = v.tape_near;
  in_left = v.in_left;
  out_left = v.out_left;
  market_left = λ e. cc;
  served = v.served;
}

-- An action of the market thread or the callback keeps the invariant.
pub MarketStep-Inv : {env : Env} {nx : NxCore} {s t : World} → MarketStep env nx s t → Inv s → Inv t
MarketStep-Inv {s} (MarketStep.market_reads a r p e) v = market_reads-Inv s a r v e
MarketStep-Inv {env} {nx} {s} (MarketStep.nx_calls message rc n p e) v =
    tape-Inv s n s.market_pc v (nxtape_process-some nx env.codec s message rc _ n v e).0
      (λ q. cc (p, q))
MarketStep-Inv {env} {nx} {s} (MarketStep.nx_stops message rc n p e) v =
    tape-Inv s n nx_stopping v (nxtape_process-some nx env.codec s message rc _ n v e).0 (λ q. cc)
MarketStep-Inv {s} (MarketStep.nx_ends p) v = returned-Inv s v
MarketStep-Inv {s} (MarketStep.nx_obeys p) v = returned-Inv s v
