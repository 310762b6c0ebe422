-- ===== src/System/Delivery.antt =====
-- impl/all/core/wineing.cc and impl/wine/nx/nxtape.cc: what the market thread and the NxCore
-- callback do after a control request, when they next read the shared control block.
use wineing.Prelude.{
  ℕ, suc, ◌^◌, ◌<◌, ◌≡◌, refl, sym, ap, ◌∙◌, ◌++◌, some, arith, drop, take-append-drop, take-prefix,
}
use wineing.Prelude.Memory.{Bytes, c_str, c_string, c_string-c_str, NoNul}
use wineing.Ctrl.{WCtrl, cmd_market_run, cmd_market_stop, cmd_shutdown}
use wineing.Ctrl.Copy.{Shows, copied}
use wineing.Conc.{Shared}
use wineing.Proto.{Request, market_start_ok}
use wineing.Control.{Env, InState, process, respond, signal}
use wineing.Control.Owner.{
  IsReady, IsOwner, published, published-IsOwner, with_tape, no_tape, no_tape-IsReady,
  with_tape-IsReady,
}
use wineing.Control.Cases.{tape_path}
use wineing.Control.Outcome.{
  IsTapeStart, IsLiveStart, after_tape, after_live, process-tape, process-live,
}
use wineing.Control.Tape.{Carries, with_tape-Carries, published-Carries}
use wineing.Reader.{Reader, read_shared}
use wineing.Reader.Fresh.{IsFresh, read_shared-IsFresh, refreshed, read_shared-changed}
use wineing.Reader.Behind.{Behind, Behind-InSync, Behind-next}
use wineing.Market.{action, stopping, leaving, running, market_turn}

pub market_turn-read :
    (g : Shared WCtrl) (r r' : Reader)
    → read_shared g r ≡ some r'
    → market_turn g r ≡ some (action r'.t_data, r')
unfolding market_turn
market_turn-read g r r' e = rw e

-- A fresh reader sees the path that the control block carries.
pub c_string-Shows :
    (path : Bytes) (c d : WCtrl)
    → Shows c d
    → Carries path d
    → NoNul path
    → c_string c.buffer ≡ path
c_string-Shows path c d h k n =
    ap c_string (
      sym (take-append-drop d.size c.buffer)
      ∙ ap (λ t. t ++ drop d.size c.buffer)
          (h.same_data ∙ take-prefix d.size d.buffer (c_str path) k.rest k.counted k.text))
    ∙ c_string-c_str path (drop d.size c.buffer) n

module _ (c : ℕ) (s : InState) (w : IsReady s) {k : ℕ} (r : Reader) (b : Behind k s.shared r)
    (h : suc k < 2 ^ 32) where
  pub published-Behind : Behind (suc k) (published c s).shared r
  unfolding published
  published-Behind = Behind-next s.t_version _ b h w.current

  -- After an update by `c` the market thread's read gives the published control block.
  pub published-read :
      (r' : Reader) × (read_shared (published c s).shared r ≡ some r')
      × IsFresh (published c s).shared r'
  published-read =
      read_shared-IsFresh (published c s).shared r (published-IsOwner c s w).ready.shared_valid
        (Behind-InSync published-Behind)

  -- The market thread's next round, at an update by `c`.
  pub published-turn :
      (r' : Reader) × (market_turn (published c s).shared r ≡ some (action r'.t_data, r'))
      × (r'.t_data.cmd ≡ c)
      × Shows r'.t_data (published c s).shared.value
  unfolding published copied
  published-turn =
      let (r', e, f) = published-read in
      (r', market_turn-read (published c s).shared r r' e, f.shows.same_cmd, f.shows)

pub action-running : (d : WCtrl) → d.cmd ≡ cmd_market_run → action d ≡ running d.buffer
action-running d e = ground arith

pub action-stopping : (d : WCtrl) → d.cmd ≡ cmd_market_stop → action d ≡ stopping
action-stopping d e = ground arith

pub action-leaving : (d : WCtrl) → d.cmd ≡ cmd_shutdown → action d ≡ leaving
action-leaving d e = ground arith

-- A tape that a client asks for is played: if the thread owns the control block, the request is a
-- start, nothing runs, the file is there, and its path fits and has no NUL byte, then the request
-- is accepted, and the market thread, if it has missed fewer than 2^32 - 1 updates, next runs
-- NxCore on the C string of that path.
pub start_plays :
    (env : Env) (req : Request) (s : InState) (file : Bytes) (k : ℕ) (r : Reader)
    → IsOwner s
    → IsTapeStart env req s file
    → NoNul (tape_path env file)
    → Behind k s.shared r
    → suc k < 2 ^ 32
    → (s' : InState) × (memory : Bytes) × (r' : Reader) × (process env req s
        ≡ some (respond req market_start_ok, s'))
      × (market_turn s'.shared r ≡ some (running memory, r'))
      × (c_string memory ≡ tape_path env file)
unfolding signal with_tape
start_plays env req s file k r w p n b h =
    let path = tape_path env file in
    let t = with_tape path (no_tape s) in
    let ready : IsReady t = with_tape-IsReady path (no_tape s) (no_tape-IsReady s w.ready) p.fits in
    let (r', e, c, f) = published-turn cmd_market_run t ready r b h in
    (
      after_tape path s,
      r'.t_data.buffer,
      r',
      process-tape env req s w.ready file p,
      e ∙ ap (λ a. some (a, r')) (action-running r'.t_data c),
      c_string-Shows path r'.t_data (published cmd_market_run t).shared.value f
          (published-Carries path cmd_market_run t (with_tape-Carries path (no_tape s))) n,
    )

-- While the market is not running, a start request without a tape is accepted, and the market thread then runs NxCore on the memory
-- that its own buffer held before, whatever it holds: nothing clears the path of an earlier tape.
-- The control blocks are well formed, the control thread is the owner, and the market thread has
-- missed fewer than 2^32 updates, the one of this request included.
pub live_replays :
    (env : Env) (req : Request) (s : InState) (k : ℕ) (r : Reader)
    → IsOwner s
    → IsLiveStart req s
    → Behind k s.shared r
    → suc k < 2 ^ 32
    → (s' : InState) × (r' : Reader) × (process env req s ≡ some (respond req market_start_ok, s'))
      × (market_turn s'.shared r ≡ some (running r.t_data.buffer, r'))
      × (s'.shared.value.size ≡ 0)
unfolding signal published copied refreshed
live_replays env req s k r w p b h =
    let t = no_tape s in
    let ready : IsReady t = no_tape-IsReady s w.ready in
    let g = (published cmd_market_run t).shared in
    (
      after_live s,
      refreshed g r,
      process-live env req s w.ready p,
      market_turn-read g r (refreshed g r) (
          read_shared-changed g r (published-IsOwner cmd_market_run t ready).ready.shared_valid
            b.valid (omega (arith, b.distance, w.ready.current, b.word, h))),
      refl,
    )
