-- ===== src/App.antt =====
-- main.win.cc and impl/all/core/wineing.cc: the program from its start to its end, as the calls that
-- it makes. What the threads do is in `Control`, `Market` and `Out`.
pub mod Lifecycle
pub mod Whole
use wineing.Prelude.{
  ℕ, ℤ, is_neg, List, [], ◌∷◌, ◌++◌, Option, none, some, Bool, true, false, ◌&&◌, if◌then◌else◌,
}
use wineing.Prelude.Memory.{Bytes, ◌>>=◌}
use wineing.Ctrl.{shared_version_init}
use wineing.Nx.{wininf_nxcore_load}
use wineing.Cmd.Usage.{cmd_print_usage}
use wineing.Cmd.{CharPtr, WConf, default_conf, cmd_parse, Parsed, configured, usage}

pub data Thread : Type 0 where
  cchan_out cchan_in market : Thread

pub data Call : Type 0 where
  lazy_init : ℕ → Call
  verify_protobuf nxcore_load sync_init : Call
  create join : Thread → Call
  chan_shutdown sync_destroy nxcore_free protobuf_shutdown lazy_destroy : Call

-- The calls of `wineing_init`, and whether it goes on; otherwise it calls `exit(1)`.
unfoldable pub wineing_init : Bool → List Call × Bool
wineing_init loaded =
    if is_neg (wininf_nxcore_load loaded)
    then (lazy_init shared_version_init ∷ verify_protobuf ∷ nxcore_load ∷ [], false)
    else (lazy_init shared_version_init ∷ verify_protobuf ∷ nxcore_load ∷ sync_init ∷ [], true)

-- `wineing_run`
unfoldable pub wineing_run : List Call
wineing_run =
    create cchan_out
    ∷ create cchan_in
    ∷ create market
    ∷ join market
    ∷ join cchan_out
    ∷ join cchan_in
    ∷ []

-- `wineing_shutdown`
unfoldable pub wineing_shutdown : List Call
wineing_shutdown =
    chan_shutdown ∷ sync_destroy ∷ nxcore_free ∷ protobuf_shutdown ∷ lazy_destroy ∷ []

-- How the program ends: its exit status, what `printf` prints, the calls, and the configuration that
-- the threads got.
pub record Ended : Type 0 where
  pub status : ℕ
  pub printed : Bytes
  pub calls : List Call
  pub conf : Option WConf

abbrev is_text : CharPtr → Bool
is_text none = false
is_text (some s) = true

-- The log line of `main` reads all four texts.
abbrev is_readable : WConf → Bool
is_readable c =
    is_text c.cchan_in_fqcn
    && is_text c.cchan_out_fqcn
    && is_text c.mchan_fqcn
    && is_text c.tape_basedir

abbrev with_conf : WConf → Bool → Ended
with_conf conf loaded =
    if (wineing_init loaded).1
    then record {
      status = 0;
      printed = [];
      calls = (wineing_init loaded).0 ++ wineing_run ++ wineing_shutdown;
      conf = some conf;
    }
    else record { status = 1; printed = []; calls = (wineing_init loaded).0; conf = none }

-- `main`, over the arguments after the program's name and whether the NxCore library loads.
unfoldable pub main : List Bytes → Bool → Option Ended
unfolding wineing_init wineing_run wineing_shutdown wininf_nxcore_load
main args loaded = cmd_parse args default_conf >>= elim [
  | usage ↦ some (record { status = 1; printed = cmd_print_usage; calls = []; conf = none })
  | configured conf ↦ if is_readable conf then some (with_conf conf loaded) else none
]
