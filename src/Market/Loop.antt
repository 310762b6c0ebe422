-- ===== src/Market/Loop.antt =====
-- impl/all/core/wineing.cc, `market_thread`: the thread does what the published commands say.
use wineing.Prelude.{
  ℤ, is_neg, ◌≡◌, ◌≢◌, refl, sym, subst, ◌∙◌, true, false, List, [], ◌∷◌, some, take, length,
  Bool-cases, eq→==, ne→==, inl, inr, arith,
}
use native.Mathlib.Decide.{ℕ_discrete}
use wineing.Prelude.Memory.{Bytes}
use wineing.Ctrl.{
  WCtrl, cmd_market_run, cmd_market_stop, cmd_shutdown, default_data_size, shared_version_read_init,
}
use wineing.Ctrl.Copy.{IsValid}
use wineing.Conc.{Shared}
use wineing.Startup.{Progress, unbound, connecting, looping, connects}
use wineing.Reader.{Reader, reader_init}
use wineing.Reader.Fresh.{InSync, IsFresh, read_shared-IsFresh}
use wineing.Reader.Behind.{Later, IsFresh-Later}
use wineing.Market.{
  Action, stopping, leaving, sleeping, running, action, market_turn, market_loop, market_thread,
  is_leaving,
}

-- What a published control block asks of the market thread. It runs NxCore with memory that begins
-- with the published data.
pub data Asks (d : WCtrl) : Action → Type 0 where
  stops : d.cmd ≡ cmd_market_stop → Asks d stopping
  leaves : d.cmd ≡ cmd_shutdown → Asks d leaving
  runs :
      (m : Bytes)
      → d.cmd ≡ cmd_market_run
      → take d.size m ≡ take d.size d.buffer
      → Asks d (running m)
  sleeps : d.cmd ≢ cmd_market_stop → d.cmd ≢ cmd_shutdown → d.cmd ≢ cmd_market_run → Asks d sleeping

-- The actions at a sequence of reads: one for each up to the first shutdown, none after it.
pub data Follows : List (Shared WCtrl) → List Action → Type 0 where
  ended : Follows [] []
  left :
      (g : Shared WCtrl) (gs : List (Shared WCtrl))
      → Asks g.value leaving
      → Follows (g ∷ gs) (leaving ∷ [])
  goes_on :
      (g : Shared WCtrl) (gs : List (Shared WCtrl)) (a : Action) (acts : List Action)
      → Asks g.value a
      → a ≢ leaving
      → Follows gs acts
      → Follows (g ∷ gs) (a ∷ acts)

-- The shared states at the reads follow one another.
abbrev LinksTo : Shared WCtrl → List (Shared WCtrl) → Type 0
LinksTo g [] = Unit {0}
LinksTo g (h ∷ hs) = Later g h

abbrev pub Chain : List (Shared WCtrl) → Type 0
Chain [] = Unit {0}
Chain (g ∷ gs) = IsValid g.value × LinksTo g gs × Chain gs

-- The reader notices the first state.
abbrev Starts : List (Shared WCtrl) → Reader → Type 0
Starts [] r = Unit {0}
Starts (g ∷ gs) r = InSync g r

Starts-next :
    {g : Shared WCtrl} {r : Reader} (gs : List (Shared WCtrl))
    → IsFresh g r
    → LinksTo g gs
    → Starts gs r
Starts-next [] f l = tt
Starts-next (h ∷ hs) f l = IsFresh-Later f l

action-Asks : (g : Shared WCtrl) (r : Reader) → IsFresh g r → Asks g.value (action r.t_data)
action-Asks g r f =
    let e = f.shows.same_cmd in
    elim (ℕ_discrete r.t_data.cmd cmd_market_stop) [
      | yes p ↦ rw (eq→== r.t_data.cmd cmd_market_stop p) (stops (sym e ∙ p))
      | no n ↦
          rw (ne→== r.t_data.cmd cmd_market_stop n) (elim (ℕ_discrete r.t_data.cmd cmd_shutdown) [
            | yes p ↦ rw (eq→== r.t_data.cmd cmd_shutdown p) (leaves (sym e ∙ p))
            | no k ↦
                rw (ne→== r.t_data.cmd cmd_shutdown k)
                  (elim (ℕ_discrete r.t_data.cmd cmd_market_run) [
                    | yes p ↦
                        rw (eq→== r.t_data.cmd cmd_market_run p)
                          (runs r.t_data.buffer (sym e ∙ p) f.shows.same_data)
                    | no l ↦
                        rw (ne→== r.t_data.cmd cmd_market_run l)
                          (sleeps (λ q. n (e ∙ q)) (λ q. k (e ∙ q)) (λ q. l (e ∙ q)))
                  ])
          ])
    ]

is_leaving-leaving : (a : Action) → is_leaving a ≡ true → a ≡ leaving
is_leaving-leaving leaving e = refl
is_leaving-leaving stopping e = ground arith
is_leaving-leaving sleeping e = ground arith
is_leaving-leaving (running m) e = ground arith

left_by :
    (g : Shared WCtrl) (gs : List (Shared WCtrl)) (a : Action)
    → Asks g.value a
    → a ≡ leaving
    → Follows (g ∷ gs) (a ∷ [])
left_by g gs a k e =
    subst (λ x. Follows (g ∷ gs) (x ∷ [])) (sym e) (left g gs (subst (Asks g.value) e k))

market_loop-Follows :
    (gs : List (Shared WCtrl)) (r : Reader)
    → Chain gs
    → Starts gs r
    → (acts : List Action) × (market_loop gs r ≡ some acts) × Follows gs acts
unfolding market_loop market_turn
market_loop-Follows [] r c i = ([], refl, ended)
market_loop-Follows (g ∷ gs) r c i =
    let (r', e, f) = read_shared-IsFresh g r c.0 i in
    let (acts, o, k) = market_loop-Follows gs r' c.2 (Starts-next gs f c.1) in
    elim (Bool-cases (is_leaving (action r'.t_data))) [
      | inl d ↦ (
        action r'.t_data ∷ [],
        rw (e, d),
        left_by g gs (action r'.t_data) (action-Asks g r' f)
            (is_leaving-leaving (action r'.t_data) d),
      )
      | inr d ↦ (
        action r'.t_data ∷ acts,
        rw (e, d, o),
        goes_on g gs (action r'.t_data) acts (action-Asks g r' f) (λ q. ground (arith, d, q)) k,
      )
    ]

-- How far the thread comes.
pub data Serves (bind_rc : ℤ) (connect_rcs : List ℤ) (gs : List (Shared WCtrl))
    : Progress (List Action) → Type 0 where
  fails : is_neg bind_rc ≡ true → Serves bind_rc connect_rcs gs unbound
  waits :
      is_neg bind_rc ≡ false
      → connects connect_rcs ≡ false
      → Serves bind_rc connect_rcs gs connecting
  works :
      (acts : List Action)
      → is_neg bind_rc ≡ false
      → connects connect_rcs ≡ true
      → Follows gs acts
      → Serves bind_rc connect_rcs gs (looping acts)

-- The first read finds a version that no reader starts with.
abbrev pub Noticed : List (Shared WCtrl) → Type 0
Noticed [] = Unit {0}
Noticed (g ∷ gs) = g.version ≢ shared_version_read_init

reader_init-Starts :
    (gs : List (Shared WCtrl)) (memory : Bytes)
    → length memory ≡ default_data_size
    → Noticed gs
    → Starts gs (reader_init memory)
unfolding reader_init
reader_init-Starts [] memory a h = tt
reader_init-Starts (g ∷ gs) memory a h = record {
  valid = record { allocated = a; within = omega arith };
  synced = λ e. absurd (h (sym e));
}

-- The thread ends at once if it cannot bind its channel, tries until the inproc channel is there,
-- and then does at each read what the published control block asks, up to the first shutdown: it
-- runs NxCore with memory that begins with the published data, stops, sleeps, or leaves. It meets no
-- memory fault, if the published blocks are valid, fewer than 2^32 updates are made between
-- two reads, and the first read does not find version 2^32 - 1.
pub market_thread_lem :
    (bind_rc : ℤ) (connect_rcs : List ℤ) (memory : Bytes) (gs : List (Shared WCtrl))
    → length memory ≡ default_data_size
    → Chain gs
    → Noticed gs
    → (p : Progress (List Action)) × (market_thread bind_rc connect_rcs memory gs ≡ some p)
      × Serves bind_rc connect_rcs gs p
unfolding market_thread
market_thread_lem bind_rc connect_rcs memory gs a c h =
    let (acts, o, k) =
      market_loop-Follows gs (reader_init memory) c (reader_init-Starts gs memory a h) in
    elim (Bool-cases (is_neg bind_rc)) [
      | inl e ↦ (unbound, rw (e) refl, fails e)
      | inr e ↦ elim (Bool-cases (connects connect_rcs)) [
        | inl f ↦ (looping acts, rw (e, f, o) refl, works acts e f k)
        | inr f ↦ (connecting, rw (e, f) refl, waits e f)
      ]
    ]
