-- ===== src/Tests/Replay.antt =====
-- A tape that a stop request interrupts.
use wineing.Prelude.{ℕ, pos, ◌≡◌, ◌≢◌, refl, List, [], ◌∷◌, ◌++◌, Option, some, arith}
use wineing.Prelude.Memory.{Bytes, codes}
use wineing.Conc.{Shared, next_version}
use wineing.Ctrl.{WCtrl, cmd_market_run, cmd_market_stop, shared_version_init}
use wineing.Ctrl.Copy.{IsValid}
use wineing.Nx.{wininf_nxcore_run}
use wineing.Reader.Behind.{Later, Behind-InSync, reader_init-Behind}
use wineing.Market.{NxTape}
use wineing.Market.Replay.{Call, callback, deliver, played, statuses, wininf_nxcore_run-plays}
use wineing.Tests.Data.{memory, length-memory, nx, nx_tape, codec}

abbrev block : ℕ → WCtrl
block cmd = record { cmd = cmd; buffer = memory; size = 0 }

block-IsValid : (cmd : ℕ) → IsValid (block cmd)
block-IsValid cmd = record { allocated = length-memory; within = omega arith }

abbrev playing : Shared WCtrl
playing = record { version = shared_version_init; value = block cmd_market_run }

abbrev stopped : Shared WCtrl
stopped = record { version = next_version shared_version_init; value = block cmd_market_stop }

same-Later : Later playing playing
same-Later = record {
  updates = 0;
  small = omega arith;
  word = omega arith;
  distance = refl;
  same = λ _. refl;
}

stopped-Later : Later playing stopped
stopped-Later = record {
  updates = 1;
  small = omega arith;
  word = omega arith;
  distance = refl;
  same = λ e. cc;
}

stopped-same : Later stopped stopped
stopped-same = record {
  updates = 0;
  small = omega arith;
  word = omega arith;
  distance = refl;
  same = λ _. refl;
}

-- Two status messages and another message, then a stop, and two status messages after it.
abbrev calls : List Call
calls =
    record { message_type = 0; shared = playing; send_rc = pos 0 }
    ∷ record { message_type = 7; shared = playing; send_rc = pos 0 }
    ∷ record { message_type = 0; shared = stopped; send_rc = pos 0 }
    ∷ record { message_type = 0; shared = stopped; send_rc = pos 0 }
    ∷ []

abbrev process_tape : Bytes → NxTape → Option NxTape
process_tape tape = deliver nx.callback_stop (callback nx codec) calls

wininf_nxcore_run-plays_example :
    (u : NxTape) × (wininf_nxcore_run (some process_tape) (codes "a.nx") nx_tape ≡ some (pos 0, u))
    × (u.sent ≡ [] ++ statuses nx codec (played calls))
wininf_nxcore_run-plays_example =
    wininf_nxcore_run-plays nx codec (λ e. cc) process_tape (codes "a.nx") calls nx_tape refl
      (
        Behind-InSync (reader_init-Behind memory (block cmd_market_run) length-memory),
        block-IsValid cmd_market_run,
        (
          same-Later,
          block-IsValid cmd_market_run,
          (
            stopped-Later,
            block-IsValid cmd_market_stop,
            (stopped-same, block-IsValid cmd_market_stop, tt),
          ),
        ),
      )

codes_apart : nx.callback_stop ≢ nx.callback_continue
codes_apart e = cc

-- A tape of two messages that nothing interrupts.
abbrev two_calls : List Call
two_calls =
    record { message_type = 0; shared = playing; send_rc = pos 0 }
    ∷ record { message_type = 7; shared = playing; send_rc = pos 0 }
    ∷ []

abbrev process_two : Bytes → NxTape → Option NxTape
process_two tape = deliver nx.callback_stop (callback nx codec) two_calls

abbrev played_two :
    (u : NxTape) × (wininf_nxcore_run (some process_two) (codes "a.nx") nx_tape ≡ some (pos 0, u))
    × (u.sent ≡ [] ++ statuses nx codec (played two_calls))
played_two =
    wininf_nxcore_run-plays nx codec codes_apart process_two (codes "a.nx") two_calls nx_tape refl (
      Behind-InSync (reader_init-Behind memory (block cmd_market_run) length-memory),
      block-IsValid cmd_market_run,
      (same-Later, block-IsValid cmd_market_run, tt),
    )
