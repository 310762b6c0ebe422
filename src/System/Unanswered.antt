-- ===== src/System/Unanswered.antt =====
-- impl/all/core/wineing.cc: the race between a shutdown and its response. `cchan_in_thread` publishes
-- the shutdown before it sends the response to `cchan_out_thread`, which may read in between.
use wineing.Prelude.{ℕ, suc, ◌^◌, ◌<◌, ◌≡◌, refl, ap, ◌∙◌, List, ◌∷◌, some, eq→==}
use wineing.Ctrl.{cmd_shutdown}
use wineing.Ctrl.Copy.{copied}
use wineing.Proto.{Request, Response, shutdown, shutdown_ok}
use wineing.Control.{Env, InState, process, respond, signal}
use wineing.Control.Owner.{IsOwner, published}
use wineing.Control.Outcome.{process-shutdown}
use wineing.Out.{OutTurn, OutState, out_turn, out_loop}
use wineing.Reader.{Reader, read_shared}
use wineing.Reader.Behind.{Behind}
use wineing.System.Delivery.{published-read}

-- A round of `cchan_out_thread` that reads a shutdown ends the loop, whatever messages wait.
out_loop-shutdown :
    (t : OutTurn) (ts : List OutTurn) (st : OutState) (r : Reader)
    → read_shared t.shared st.reader ≡ some r
    → r.t_data.cmd ≡ cmd_shutdown
    → out_loop (t ∷ ts) st ≡ some (record { reader = r; sent = st.sent })
unfolding out_loop out_turn
out_loop-shutdown t ts st r e c = rw (e, eq→== r.t_data.cmd cmd_shutdown c)

-- The shared block after a shutdown request.
shutdown-shared :
    (env : Env) (req : Request) (s s' : InState) (res : Response)
    → IsOwner s
    → req.type ≡ shutdown
    → process env req s ≡ some (res, s')
    → (res ≡ respond req shutdown_ok) × (s'.shared ≡ (published cmd_shutdown s).shared)
unfolding signal
shutdown-shared env req s s' res w q e =
    let f = process-shutdown env req s w.ready q in
    let x : res ≡ respond req shutdown_ok = cc in
    let y : s' ≡ signal (published cmd_shutdown s) = cc in (x, ap (λ z. z.shared) y)

-- A shutdown request is accepted, but if `cchan_out_thread` reads the shared block after the request
-- is handled, and before it receives the response, then it sends nothing any more, whatever it would
-- receive in later rounds: the client never gets the response, nor those before it that still wait.
-- The thread may have missed fewer than 2^32 - 1 updates before.
pub shutdown_unanswered :
    (env : Env) (req : Request) (s s' : InState) (res : Response) (k : ℕ) (t : OutTurn)
    (ts : List OutTurn) (st : OutState)
    → IsOwner s
    → req.type ≡ shutdown
    → process env req s ≡ some (res, s')
    → t.shared ≡ s'.shared
    → Behind k s.shared st.reader
    → suc k < 2 ^ 32
    → (st' : OutState) × (res ≡ respond req shutdown_ok)
      × (out_loop (t ∷ ts) st ≡ some st')
      × (st'.sent ≡ st.sent)
unfolding published copied
shutdown_unanswered env req s s' res k t ts st w q p e b h =
    let (x, y) = shutdown-shared env req s s' res w q p in
    let (r, o, f) = published-read cmd_shutdown s w.ready st.reader b h in
    (
      record { reader = r; sent = st.sent },
      x,
      out_loop-shutdown t ts st r (ap (λ g. read_shared g st.reader) (e ∙ y) ∙ o) f.shows.same_cmd,
      refl,
    )
