-- ===== src/Startup.antt =====
-- impl/all/core/wineing.cc: how the three threads open their channels before their loops.
use wineing.Prelude.{ℤ, List, [], ◌∷◌, Bool, true, false, is_neg, if◌then◌else◌}

-- How far a thread has come: its first channel could not be bound, it waits for the inproc channel,
-- or it has entered its loop, with what that has done.
pub data Progress {ℓ} (A : Type ℓ) : Type ℓ where
  unbound : Progress A
  connecting : Progress A
  looping : A → Progress A

-- `while(0 > chan_bind(...)) sleep(1)`, over the codes that `chan_bind` returns: whether it ends.
unfoldable pub connects : List ℤ → Bool
connects [] = false
connects (rc ∷ rcs) = if is_neg rc then connects rcs else true
