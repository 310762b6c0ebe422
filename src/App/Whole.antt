-- ===== src/App/Whole.antt =====
-- main.win.cc and impl/all/core/wineing.cc: a run of `main` that comes to its end, with what its
-- threads do.
use wineing.Prelude.{
  ℕ, ℤ, ◌≡◌, refl, sym, ◌∙◌, ◌⊎◌, inl, inr, map, List, Option, some, Bool, true, false, arith,
  if◌then◌else◌,
}
use wineing.Prelude.Memory.{Bytes, ◌>>=◌}
use wineing.Proto.{Codec}
use wineing.Control.{Env}
use wineing.Market.{NxCore}
use wineing.Chan.Sockets.{chan_shutdown}
use wineing.Nx.{wininf_nxcore_load}
use wineing.Cmd.{WConf, default_conf, cmd_parse, Parsed, configured, usage}
use wineing.Cmd.Options.{Opt, spell, apply_all, see_all, none_seen, is_complete, cmd_parse-spell}
use wineing.App.{wineing_init}
use wineing.Program.{MarketPc}
use wineing.Program.Invariant.{Bounded}
use wineing.Program.Safety.{IsAllocated}
use wineing.Boot.{inside, failed, Boot, Endpoints, Reach, boot}
use wineing.Boot.Safety.{Returned, AllFailed, IsShutDown, returns_when}
use wineing.Boot.Sockets.{sockets, failures, AllSockets}
use wineing.Boot.Sockets.Clean.{Clean}
use wineing.Boot.Sockets.Left.{shutdown_waits}
use wineing.Boot.Sockets.Failed.{in_stage-failed, market_stage-failed}

-- Windows, NxCore and the generated code, and the memory that the threads' buffers have at the start.
pub record Host : Type 0 where
  pub file_exists : Bytes → ℤ
  pub codec : Codec
  pub nx : NxCore
  pub g_memory : Bytes
  pub in_memory : Bytes
  pub out_memory : Bytes
  pub market_memory : Bytes
  pub tape_memory : Bytes

-- The root of the tapes and the endpoints, as the threads read them from `ctx->conf`.
abbrev pub read_conf : WConf → Option (Bytes × Endpoints)
read_conf c = c.cchan_in_fqcn >>= λ i. c.cchan_out_fqcn >>= λ o. c.mchan_fqcn >>= λ m.
    c.tape_basedir >>= λ t. some (t, record { cchan_in = i; cchan_out = o; mchan = m })

abbrev pub env_of : Host → Bytes → Env
env_of h dir = record { tape_basedir = dir; file_exists = h.file_exists; codec = h.codec }

abbrev pub boot_of : Host → Boot
boot_of h = boot h.g_memory h.in_memory h.out_memory h.market_memory h.tape_memory

-- `main` has come to `return 0`: the command line is complete, the library has loaded, the threads
-- have run until the last join, and `zmq_term` in `wineing_shutdown` has returned. `sent` says whether
-- ZeroMQ sent the messages that it had taken over.
pub record Finished (h : Host) (args : List Bytes) (loaded : Bool) : Type 0 where
  pub conf : WConf
  pub parsed : cmd_parse args default_conf ≡ some (configured conf)
  pub tape_dir : Bytes
  pub ports : Endpoints
  pub read : read_conf conf ≡ some (tape_dir, ports)
  pub init : (wineing_init loaded).1 ≡ true
  pub steps : ℕ
  pub last : Boot
  pub run : Reach (env_of h tape_dir) h.nx ports (boot_of h) steps last
  pub joined : Returned last
  pub sent : Bool
  pub closed : chan_shutdown (sockets run) sent ≡ true

-- What has happened before that.
pub record Orderly {h : Host} (os : List Opt) {loaded : Bool} (f : Finished h (map spell os) loaded)
    : Type 0 where
  pub complete : is_complete (see_all os none_seen) ≡ true
  pub from_options : f.conf ≡ apply_all os default_conf
  pub library : loaded ≡ true
  pub all_opened : failures f.run ≡ 0
  pub shut_down : IsShutDown f.last
  pub market_inside : f.last.market_stage ≡ inside

configured_when :
    (b : Bool) (c d : WConf)
    → ◌≡◌ {A = Option Parsed} (some (if b then configured d else usage)) (some (configured c))
    → (b ≡ true) × (c ≡ d)
configured_when true c d e = (refl, ground (arith, e))
configured_when false c d e = absurd (ground (arith, e))

init-loaded : (b : Bool) → (wineing_init b).1 ≡ true → b ≡ true
unfolding wineing_init wininf_nxcore_load
init-loaded true e = refl
init-loaded false e = absurd (cc e)

-- A program whose arguments are options as the usage text spells them, each with a value, ends with
-- status 0 only in good order: all the required options were given and the threads used the
-- configuration that they spell, the NxCore library was loaded, every attempt to open
-- a channel succeeded at once, all three threads got into their loops, and the control thread served a
-- shutdown request. Fewer than 2^32 - 1 requests were processed, the buffers have their size, and
-- ZeroMQ gave a socket at every attempt.
pub main_ends :
    {h : Host} (os : List Opt) {loaded : Bool}
    → IsAllocated h.g_memory h.in_memory h.out_memory h.market_memory h.tape_memory
    → (f : Finished h (map spell os) loaded) → AllSockets f.run
    → Bounded f.last.program
    → Orderly os f
main_ends {h} os {loaded} a f y b =
    let (complete, same) =
      configured_when (is_complete (see_all os none_seen)) f.conf (apply_all os default_conf)
        (sym (cmd_parse-spell os default_conf) ∙ f.parsed) in
    let (_, w) =
      shutdown_waits h.g_memory h.in_memory h.out_memory h.market_memory h.tape_memory f.run f.sent
        y f.joined in
    let opened : failures f.run ≡ 0 = (w.0 f.closed).0 in
    record {
      complete = complete;
      from_options = same;
      library = init-loaded loaded f.init;
      all_opened = opened;
      shut_down = by (returns_when a f.run b f.joined) opened;
      market_inside = got_in f.joined.of_market opened;
    }
  where
    by : AllFailed f.last ⊎ IsShutDown f.last → failures f.run ≡ 0 → IsShutDown f.last
    by (inl n) e = absurd (
        omega (
          arith,
          e,
          in_stage-failed h.g_memory h.in_memory h.out_memory h.market_memory h.tape_memory f.run
              n.in_failed,
        ))
    by (inr s) e = s

    got_in :
        (f.last.market_stage ≡ failed)
          ⊎ ((f.last.market_stage ≡ inside) × (f.last.program.market_pc ≡ MarketPc.market_done))
        → failures f.run ≡ 0
        → f.last.market_stage ≡ inside
    got_in (inl n) e = absurd (
        omega (
          arith,
          e,
          market_stage-failed h.g_memory h.in_memory h.out_memory h.market_memory h.tape_memory
              f.run n,
        ))
    got_in (inr p) e = p.0
