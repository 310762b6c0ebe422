-- ===== src/Tests/Ends.antt =====
-- Reads that skip, two writers, and versions that wrap.
use wineing.Prelude.{ℕ, some, arith, ◌≡◌, refl, List, [], ◌∷◌}
use wineing.Conc.{Shared, next_version}
use wineing.Ctrl.{WCtrl, cmd_market_run, cmd_market_stop}
use wineing.Reader.{Reader, read_shared}
use wineing.Reader.Behind.{Behind-InSync}
use wineing.Reader.Wrap.{update_all, read_shared-wraps}
use wineing.Reader.Skip.{views, read_always, views-read_always}
use wineing.Control.{in_start}
use wineing.Conc.Owners.{owns, commit-copied, two_owners}
use wineing.Ctrl.Copy.{IsValid, Shows, copied, copied-IsValid}
use wineing.Reader.Fresh.{refreshed, refreshed-IsFresh}
use wineing.Tests.Data.{memory, length-memory, s₀, s₀-IsOwner, s₀-Later, reader, reader-Behind}

abbrev twice : List (Shared WCtrl)
twice = s₀.shared ∷ s₀.shared ∷ []

views-read_always_example : views read_shared twice reader ≡ views read_always twice reader
views-read_always_example =
    views-read_always twice reader reader
      (
        Behind-InSync reader-Behind,
        s₀-IsOwner.ready.shared_valid,
        (s₀-Later, s₀-IsOwner.ready.shared_valid, tt),
      )
      (Behind-InSync reader-Behind).valid

-- Two writers at the same version.
abbrev runs : WCtrl
runs = record { cmd = cmd_market_run; buffer = memory; size = 0 }

abbrev stops : WCtrl
stops = record { cmd = cmd_market_stop; buffer = memory; size = 0 }

with_cmd-IsValid : (c : ℕ) → IsValid (record { cmd = c; buffer = memory; size = 0 })
with_cmd-IsValid c = record { allocated = length-memory; within = omega arith }

-- The block after a commit of `d` at version 0.
abbrev committed : WCtrl → Shared WCtrl → Shared WCtrl
committed d g = record { version = next_version 0; value = copied d g.value }

abbrev woke : Reader
woke = refreshed (committed runs s₀.shared) reader

two_owners_example :
    (read_shared (committed stops (committed runs s₀.shared)) woke ≡ some woke)
    × Shows woke.t_data runs
    × Shows (committed stops (committed runs s₀.shared)).value stops
    × (next_version 0 ≡ (committed stops (committed runs s₀.shared)).version)
    × (next_version 0 ≡ (committed stops (committed runs s₀.shared)).version)
unfolding in_start owns
two_owners_example =
    two_owners 0 0 (next_version 0) (next_version 0) runs stops s₀.shared (committed runs s₀.shared)
      (committed stops (committed runs s₀.shared)) woke refl refl (with_cmd-IsValid cmd_market_run)
      (with_cmd-IsValid cmd_market_stop) s₀-IsOwner.ready.shared_valid
      (commit-copied 0 runs s₀.shared (with_cmd-IsValid cmd_market_run)
        s₀-IsOwner.ready.shared_valid)
      (commit-copied 0 stops (committed runs s₀.shared) (with_cmd-IsValid cmd_market_stop)
        once_valid)
      (refreshed-IsFresh (committed runs s₀.shared) reader once_valid
        (Behind-InSync reader-Behind).valid)
  where
    once_valid : IsValid (copied runs s₀.shared.value)
    once_valid =
        copied-IsValid runs s₀.shared.value (with_cmd-IsValid cmd_market_run)
          s₀-IsOwner.ready.shared_valid

abbrev awake : Reader
awake = refreshed s₀.shared reader

read_shared-wraps_example :
    (h : Shared WCtrl) × (update_all (runs ∷ stops ∷ []) s₀.shared.version s₀.shared
      ≡ some (h.version, h))
    × Shows h.value stops
    × (read_shared h awake ≡ some (refreshed h awake))
unfolding in_start
read_shared-wraps_example =
    read_shared-wraps (runs ∷ stops ∷ []) s₀.shared awake
      (with_cmd-IsValid cmd_market_run, (with_cmd-IsValid cmd_market_stop, tt))
      s₀-IsOwner.ready.shared_valid (omega arith)
      (refreshed-IsFresh s₀.shared reader s₀-IsOwner.ready.shared_valid
        (Behind-InSync reader-Behind).valid)
