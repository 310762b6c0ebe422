-- ===== src/Market/Callback.antt =====
-- impl/wine/nx/nxtape.cc, `nxtape_process`: what the callback answers and what it sends.
use mathlib.Core.List.{append-nil}
use wineing.Prelude.{
  ℕ, ℤ, ◌≡◌, refl, ap, ◌∙◌, List, [], ◌∷◌, ◌++◌, some, ◌==◌, ltb, if◌then◌else◌, is_neg, arith,
}
use wineing.Prelude.Memory.{Bytes}
use wineing.Ctrl.{WCtrl, cmd_market_run}
use wineing.Ctrl.Copy.{IsValid}
use wineing.Conc.{Shared}
use wineing.Reader.{Reader, read_shared}
use wineing.Reader.Fresh.{InSync, IsFresh, read_shared-IsFresh}
use wineing.Proto.{status, Codec}
use wineing.Chan.{chan_send-all}
use wineing.Market.{NxCore, NxTape, next_step, nxtape_process}

-- What the callback hands to the market channel at one message.
abbrev pub to_send : NxCore → Codec → ℕ → ℤ → List Bytes
to_send nx codec message_type rc =
    if message_type == nx.msg_status
    then (if is_neg rc then [] else codec.serialize_market status ∷ [])
    else []

module _ (nx : NxCore) (codec : Codec) (g : Shared WCtrl) (m : ℕ) (rc : ℤ) (st : NxTape) where
  pub nxtape_process-read :
      (r : Reader)
      → read_shared g st.reader ≡ some r
      → nxtape_process nx codec g m rc st
        ≡ some
            (next_step nx r.t_data, record { reader = r; sent = st.sent ++ to_send nx codec m rc })
  unfolding nxtape_process
  nxtape_process-read r e =
      rw (e, chan_send-all rc (codec.serialize_market status) st.sent)
        (ground (arith, append-nil st.sent))

  -- The callback tells NxCore to stop exactly when the published command is below
  -- WINEING_CTRL_CMD_MARKET_RUN, sends one status message for each status message of NxCore that
  -- the socket takes and nothing else, and has the published control block afterwards.
  pub nxtape_process_lem :
      IsValid g.value
      → InSync g st.reader
      → (st' : NxTape) × (nxtape_process nx codec g m rc st
          ≡ some (
            if ltb g.value.cmd cmd_market_run then nx.callback_stop else nx.callback_continue,
            st',
          ))
        × IsFresh g st'.reader
        × (st'.sent ≡ st.sent ++ to_send nx codec m rc)
  nxtape_process_lem v i =
      let (r, e, f) = read_shared-IsFresh g st.reader v i in
      let st' : NxTape = record { reader = r; sent = st.sent ++ to_send nx codec m rc } in
      (
        st',
        nxtape_process-read r e
            ∙ ap
                (λ c.
                  some
                    (if ltb c cmd_market_run then nx.callback_stop else nx.callback_continue, st'))
                f.shows.same_cmd,
        f,
        refl,
      )
