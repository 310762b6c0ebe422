-- ===== src/Control/Start.antt =====
-- impl/all/core/wineing.cc, `cchan_in_thread`: the thread from its start.
use wineing.Prelude.{ℤ, is_neg, ◌≡◌, refl, true, false, List, map, Option, length, arith}
use wineing.Prelude.Memory.{Bytes}
use wineing.Ctrl.{default_data_size}
use wineing.Proto.{Request}
use wineing.Startup.{Progress, unbound, connecting, looping, connects}
use wineing.Control.{Env, InState, in_start}
use wineing.Control.Owner.{IsOwner}
use wineing.Control.Spec.{waiting, told}
use wineing.Control.Loop.{converse, reached}

-- How far the thread comes in the rounds `qs`.
pub data Converses (env : Env) (bind_rc : ℤ) (connect_rcs : List ℤ) (qs : List (Option Request))
    : Progress InState → Type 0 where
  fails : is_neg bind_rc ≡ true → Converses env bind_rc connect_rcs qs unbound
  waits :
      is_neg bind_rc ≡ false
      → connects connect_rcs ≡ false
      → Converses env bind_rc connect_rcs qs connecting
  works :
      (s : InState)
      → is_neg bind_rc ≡ false
      → connects connect_rcs ≡ true
      → IsOwner s
      → s.sent ≡ map env.codec.serialize_response (converse env waiting qs)
      → told s ≡ reached env waiting qs
      → Converses env bind_rc connect_rcs qs (looping s)

-- The thread starts as the owner of the shared block.
pub in_start-IsOwner :
    (g_memory t_memory : Bytes)
    → length g_memory ≡ default_data_size
    → length t_memory ≡ default_data_size
    → IsOwner (in_start g_memory t_memory)
unfolding in_start
in_start-IsOwner g_memory t_memory a b = record {
  ready = record {
    current = refl;
    local_valid = record { allocated = b; within = omega arith };
    shared_valid = record { allocated = a; within = omega arith };
  };
  same_cmd = refl;
}
