-- ===== src/System/Halt.antt =====
-- impl/all/core/wineing.cc and impl/wine/nx/nxtape.cc: stop and shutdown requests reach the market
-- thread and the NxCore callback.
use wineing.Prelude.{ℕ, ℤ, suc, ◌^◌, ◌<◌, ◌≡◌, ap, ◌∙◌, some, arith, lt→ltb}
use wineing.Ctrl.{cmd_market_run, cmd_market_stop, cmd_shutdown}
use wineing.Ctrl.Copy.{copied}
use wineing.Proto.{Request, market_stop_ok, shutdown_ok, market_stop, shutdown, Codec}
use wineing.Control.{Env, InState, process, respond, signal}
use wineing.Control.Owner.{IsReady, IsOwner, published, published-IsOwner}
use wineing.Control.Outcome.{process-stop, process-shutdown}
use wineing.Reader.{Reader}
use wineing.Reader.Behind.{Behind, Behind-InSync}
use wineing.Market.{NxCore, NxTape, stopping, leaving, market_turn, nxtape_process}
use wineing.Market.Callback.{nxtape_process_lem}
use wineing.System.Delivery.{published-turn, published-Behind, action-stopping, action-leaving}

module _ (nx : NxCore) (codec : Codec) (message : ℕ) (rc : ℤ) (s : InState) (w : IsReady s) {k : ℕ}
    (st : NxTape) (b : Behind k s.shared st.reader) (h : suc k < 2 ^ 32) where
  -- After an update by a command below WINEING_CTRL_CMD_MARKET_RUN the callback stops NxCore.
  published-callback :
      (c : ℕ)
      → c < cmd_market_run
      → (st' : NxTape) × (nxtape_process nx codec (published c s).shared message rc st
          ≡ some (nx.callback_stop, st'))
  unfolding published copied
  published-callback c l =
      let (st', e, _, _) =
        nxtape_process_lem nx codec (published c s).shared message rc st
          (published-IsOwner c s w).ready.shared_valid
          (Behind-InSync (published-Behind c s w st.reader b h)) in
      (st', e ∙ rw (lt→ltb c cmd_market_run l))

module _ (env : Env) (req : Request) (s : InState) (w : IsOwner s) (nx : NxCore) (message : ℕ)
    (rc : ℤ) (k j : ℕ) (r : Reader) (st : NxTape) (b : Behind k s.shared r)
    (d : Behind j s.shared st.reader) (h : suc k < 2 ^ 32) (i : suc j < 2 ^ 32) where
  -- A stop request is accepted in every phase. After it the callback stops NxCore at its next
  -- message, and the market thread does not run NxCore at its next read, if each has missed fewer
  -- than 2^32 - 1 updates.
  pub stop_halts :
      req.type ≡ market_stop
      → (s' : InState) × (r' : Reader) × (st' : NxTape) × (process env req s
          ≡ some (respond req market_stop_ok, s'))
        × (market_turn s'.shared r ≡ some (stopping, r'))
        × (nxtape_process nx env.codec s'.shared message rc st ≡ some (nx.callback_stop, st'))
  stop_halts t =
      let (r', e, c, _) = published-turn cmd_market_stop s w.ready r b h in
      let (st', f) =
        published-callback nx env.codec message rc s w.ready st d i cmd_market_stop (omega arith) in
      (
        published cmd_market_stop s,
        r',
        st',
        process-stop env req s w.ready t,
        e ∙ ap (λ a. some (a, r')) (action-stopping r'.t_data c),
        f,
      )

  -- A shutdown request is accepted in every phase. After it the callback stops NxCore at its next
  -- message, and the market thread leaves its loops at its next read, if each has missed fewer than
  -- 2^32 - 1 updates.
  pub shutdown_halts :
      req.type ≡ shutdown
      → (s' : InState) × (r' : Reader) × (st' : NxTape) × (process env req s
          ≡ some (respond req shutdown_ok, s'))
        × (market_turn s'.shared r ≡ some (leaving, r'))
        × (nxtape_process nx env.codec s'.shared message rc st ≡ some (nx.callback_stop, st'))
  unfolding signal
  shutdown_halts t =
      let (r', e, c, _) = published-turn cmd_shutdown s w.ready r b h in
      let (st', f) =
        published-callback nx env.codec message rc s w.ready st d i cmd_shutdown (omega arith) in
      (
        signal (published cmd_shutdown s),
        r',
        st',
        process-shutdown env req s w.ready t,
        e ∙ ap (λ a. some (a, r')) (action-leaving r'.t_data c),
        f,
      )
