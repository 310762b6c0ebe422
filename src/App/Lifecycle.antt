-- ===== src/App/Lifecycle.antt =====
-- main.win.cc: when the program runs, with which configuration, and what it leaves behind.
use wineing.Nx.{wininf_nxcore_load}
use wineing.Prelude.{
  ◌≡◌, refl, List, [], ◌∷◌, map, Option, none, some, Bool, true, false, if◌then◌else◌, arith,
}
use wineing.Cmd.Usage.{cmd_print_usage}
use wineing.Cmd.{WConf, default_conf, configured, usage}
use wineing.Cmd.Options.{
  Opt, spell, apply, apply_all, see_all, none_seen, is_complete, cmd_parse-spell,
}
use wineing.App.{
  Ended, main, is_readable, with_conf, wineing_init, wineing_run, wineing_shutdown, cchan_out,
  cchan_in, market, lazy_init, verify_protobuf, nxcore_load, sync_init, create, join, chan_shutdown,
  sync_destroy, nxcore_free, protobuf_shutdown, lazy_destroy,
}

apply-is_readable : (o : Opt) (c : WConf) → is_readable c ≡ true → is_readable (apply o c) ≡ true
apply-is_readable o c h = ground arith

apply_all-is_readable :
    (os : List Opt) (c : WConf) → is_readable c ≡ true → is_readable (apply_all os c) ≡ true
apply_all-is_readable [] c h = h
apply_all-is_readable (o ∷ os) c h = apply_all-is_readable os (apply o c) (apply-is_readable o c h)

-- The program's end in full, by whether the three required options are there and NxCore's library loads.
abbrev pub outcome : WConf → Bool → Bool → Ended
outcome conf false loaded = record {
  status = 1;
  printed = cmd_print_usage;
  calls = [];
  conf = none;
}
outcome conf true false = record {
  status = 1;
  printed = [];
  calls = lazy_init 0 ∷ verify_protobuf ∷ nxcore_load ∷ [];
  conf = none;
}
outcome conf true true = record {
  status = 0;
  printed = [];
  calls =
      lazy_init 0
      ∷ verify_protobuf
      ∷ nxcore_load
      ∷ sync_init
      ∷ create cchan_out
      ∷ create cchan_in
      ∷ create market
      ∷ join market
      ∷ join cchan_out
      ∷ join cchan_in
      ∷ chan_shutdown
      ∷ sync_destroy
      ∷ nxcore_free
      ∷ protobuf_shutdown
      ∷ lazy_destroy
      ∷ [];
  conf = some conf;
}

-- A program started with options as the usage text spells them ends with status 1 and starts no
-- thread if a required option is missing, in which case it prints the usage text, or if the NxCore
-- library does not load, which it tries before it makes the mutex or any thread. Otherwise it creates
-- the response, the control and the market thread with the configuration of the options over the
-- defaults, joins each of them, and only then closes ZeroMQ, frees NxCore and destroys the mutexes; if
-- all of these calls return it ends with status 0.
pub main-spell :
    (os : List Opt) (loaded : Bool)
    → main (map spell os) loaded
      ≡ some (outcome (apply_all os default_conf) (is_complete (see_all os none_seen)) loaded)
unfolding main wineing_init wineing_run wineing_shutdown wininf_nxcore_load
main-spell os loaded =
    rw (cmd_parse-spell os default_conf) (
      ends (is_complete (see_all os none_seen)) loaded (apply_all-is_readable os default_conf refl))
  where
    ends :
        (b l : Bool)
        → is_readable (apply_all os default_conf) ≡ true
        → (elim (if b then configured (apply_all os default_conf) else usage)
            as (λ p. Option Ended) [
              | usage ↦
                  some (record { status = 1; printed = cmd_print_usage; calls = []; conf = none })
              | configured conf ↦ if is_readable conf then some (with_conf conf l) else none
            ])
          ≡ some (outcome (apply_all os default_conf) b l)
    ends false l r = refl
    ends true false r = rw r
    ends true true r = rw r
