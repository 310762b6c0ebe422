-- ===== src/Market/Replay.antt =====
-- impl/wine/nx/nxinf.cc and impl/wine/nx/nxtape.cc: `wininf_nxcore_run` with the callback
-- `nxtape_process`, over the messages of a tape.
use mathlib.Core.List.{append-nil, append_assoc}
use wineing.Prelude.{
  ℕ, ℤ, pos, negsuc, ◌≡◌, ◌≢◌, refl, ap, sym, ◌∙◌, Bool, true, false, List, [], ◌∷◌, ◌++◌, Option,
  some, ◌==◌, ltb, if◌then◌else◌, Bool-cases, inl, inr, arith,
}
use wineing.Prelude.Memory.{Bytes, ◌>>=◌}
use wineing.Ctrl.{WCtrl, cmd_market_run}
use wineing.Conc.{Shared}
use wineing.Proto.{Codec}
use wineing.Nx.{wininf_nxcore_run}
use wineing.Reader.Skip.{Reads, Reads-next}
use wineing.Market.{NxCore, NxTape, nxtape_process}
use wineing.Market.Callback.{to_send, nxtape_process_lem}

-- A call of the callback: the type of NxCore's message, the shared state that the read finds, and what
-- `zmq_send` returns.
pub record Call : Type 0 where
  pub message_type : ℕ
  pub shared : Shared WCtrl
  pub send_rc : ℤ

abbrev pub callback : NxCore → Codec → Call → NxTape → Option (ℤ × NxTape)
callback nx codec c st = nxtape_process nx codec c.shared c.message_type c.send_rc st

abbrev pub same_code : ℤ → ℤ → Bool
same_code (pos a) (pos b) = a == b
same_code (negsuc a) (negsuc b) = a == b
same_code _ _ = false

-- What NxCore documents: it calls the callback for one message of the tape after the other, until
-- that returns the code `stop`.
unfoldable pub deliver :
    ℤ → (Call → NxTape → Option (ℤ × NxTape)) → List Call → NxTape → Option NxTape
deliver stop f [] st = some st
deliver stop f (c ∷ cs) st =
    f c st >>= λ p. if same_code p.0 stop then some p.1 else deliver stop f cs p.1

abbrev pub shared_states : List Call → List (Shared WCtrl)
shared_states [] = []
shared_states (c ∷ cs) = c.shared ∷ shared_states cs

-- The calls up to the first that finds a command below WINEING_CTRL_CMD_MARKET_RUN, and that one.
abbrev pub played : List Call → List Call
played [] = []
played (c ∷ cs) =
    let rest = played cs in if ltb c.shared.value.cmd cmd_market_run then c ∷ [] else c ∷ rest

-- The status messages that the calls hand to the market channel.
abbrev pub statuses : NxCore → Codec → List Call → List Bytes
statuses nx codec [] = []
statuses nx codec (c ∷ cs) = to_send nx codec c.message_type c.send_rc ++ statuses nx codec cs

pub same_code_refl : (a : ℤ) → same_code a a ≡ true
same_code_refl (pos a) = ground arith
same_code_refl (negsuc a) = ground arith

pub same_code-eq : (a b : ℤ) → same_code a b ≡ true → a ≡ b
same_code-eq (pos a) (pos b) e = ap pos (ground (arith, e))
same_code-eq (negsuc a) (negsuc b) e = ap negsuc (ground (arith, e))
same_code-eq (pos a) (negsuc b) e = absurd (cc e)
same_code-eq (negsuc a) (pos b) e = absurd (cc e)

module _ (nx : NxCore) (codec : Codec) (x : nx.callback_stop ≢ nx.callback_continue) where
  goes_on : same_code nx.callback_continue nx.callback_stop ≡ false
  goes_on = elim (Bool-cases (same_code nx.callback_continue nx.callback_stop)) [
    | inl e ↦ absurd (x (sym (same_code-eq nx.callback_continue nx.callback_stop e)))
    | inr e ↦ e
  ]

  deliver_lem :
      (cs : List Call) (st : NxTape)
      → Reads (shared_states cs) st.reader
      → (u : NxTape) × (deliver nx.callback_stop (callback nx codec) cs st ≡ some u)
        × (u.sent ≡ st.sent ++ statuses nx codec (played cs))
  unfolding deliver
  deliver_lem [] st h = (st, refl, sym (append-nil st.sent))
  deliver_lem (c ∷ cs) st h =
      let (st', e, f, q) =
        nxtape_process_lem nx codec c.shared c.message_type c.send_rc st h.1 h.0 in
      let m = to_send nx codec c.message_type c.send_rc in
      elim (Bool-cases (ltb c.shared.value.cmd cmd_market_run)) [
        | inl b ↦ (st', rw (e, b, same_code_refl nx.callback_stop) refl, rw (b, append-nil m) q)
        | inr b ↦
            (let (u, o, z) = deliver_lem cs st' (Reads-next (shared_states cs) f h.2) in
              (
                u,
                rw (e, b, goes_on) o,
                rw b (
                    z
                    ∙ (ap (λ s. s ++ statuses nx codec (played cs)) q
                        ∙ append_assoc st.sent m (statuses nx codec (played cs)))),
              ))
      ]

  -- A run of NxCore ends without a fault and returns 0, and the clients of the market channel get one
  -- status message, in order, for each status message of the tape that the socket takes, up to the
  -- first message at which the callback finds a command below WINEING_CTRL_CMD_MARKET_RUN, and none
  -- after it. NxCore hands the messages of the tape to the callback as it documents, its two return
  -- codes differ, the published blocks are valid and the callback misses fewer than 2^32 updates
  -- between two messages.
  pub wininf_nxcore_run-plays :
      (process_tape : Bytes → NxTape → Option NxTape) (tape : Bytes) (cs : List Call) (st : NxTape)
      → process_tape tape st ≡ deliver nx.callback_stop (callback nx codec) cs st
      → Reads (shared_states cs) st.reader
      → (u : NxTape) × (wininf_nxcore_run (some process_tape) tape st ≡ some (pos 0, u))
        × (u.sent ≡ st.sent ++ statuses nx codec (played cs))
  unfolding wininf_nxcore_run
  wininf_nxcore_run-plays process_tape tape cs st d h =
      let (u, e, s) = deliver_lem cs st h in (u, rw (d, e) refl, s)
