-- ===== src/Control/Owner.antt =====
-- impl/all/core/wineing.cc, `cchan_in_thread`: the thread owns the shared control block, so every
-- update that it makes takes effect.
use wineing.Prelude.{
  ℕ, ◌+◌, ◌≤◌, ◌<◌, ◌≡◌, refl, none, some, [], ◌∷◌, ◌++◌, arith, length, eq→==, ◌∙◌, take, drop,
  length-splice, length-append,
}
use wineing.Prelude.Memory.{Bytes, c_str, memcpy-fits, memcpy-overflow}
use wineing.Ctrl.{WCtrl, default_data_size}
use wineing.Ctrl.Copy.{IsValid, copied, copy_local_to_shared-copied, copied-IsValid}
use wineing.Conc.{next_version, lazy_update_global_if_owner}
use wineing.Control.{InState, publish, set_tape}

-- The thread's version is the global one, and both control blocks are well formed.
pub record IsReady (s : InState) : Type 0 where
  pub current : s.t_version ≡ s.shared.version
  pub local_valid : IsValid s.t_data
  pub shared_valid : IsValid s.shared.value

-- Moreover the command that the other threads read is the thread's own.
pub record IsOwner (s : InState) : Type 0 where
  pub ready : IsReady s
  pub same_cmd : s.shared.value.cmd ≡ s.t_data.cmd

-- The control block that an update by `c` publishes.
abbrev pub with_cmd : ℕ → WCtrl → WCtrl
with_cmd c d = record d { cmd = c }

unfoldable pub published : ℕ → InState → InState
published c s = record s {
  t_version = next_version s.t_version;
  t_data = with_cmd c s.t_data;
  shared = record {
    version = next_version s.t_version;
    value = copied (with_cmd c s.t_data) s.shared.value;
  };
}

-- The tape's path in the thread's buffer.
unfoldable pub with_tape : Bytes → InState → InState
with_tape tape s = record s {
  t_data = record s.t_data {
    buffer = take (length tape + 1) (c_str tape) ++ drop (length tape + 1) s.t_data.buffer;
    size = length tape + 1;
  };
}

abbrev pub no_tape : InState → InState
no_tape s = record s { t_data = record s.t_data { size = 0 } }

pub with_cmd-IsValid : (c : ℕ) (d : WCtrl) → IsValid d → IsValid (with_cmd c d)
with_cmd-IsValid c d v = record { allocated = v.allocated; within = v.within }

-- The thread is the owner at each update, so the update is never skipped.
pub publish-published : (c : ℕ) (s : InState) → IsReady s → publish c s ≡ some (published c s)
unfolding publish published lazy_update_global_if_owner
publish-published c s r = rw (
  eq→== s.t_version s.shared.version r.current,
  copy_local_to_shared-copied (with_cmd c s.t_data) s.shared.value
      (with_cmd-IsValid c s.t_data r.local_valid) r.shared_valid,
)

pub published-IsOwner : (c : ℕ) (s : InState) → IsReady s → IsOwner (published c s)
unfolding published copied
published-IsOwner c s r = record {
  ready = record {
    current = refl;
    local_valid = with_cmd-IsValid c s.t_data r.local_valid;
    shared_valid =
        copied-IsValid (with_cmd c s.t_data) s.shared.value
          (with_cmd-IsValid c s.t_data r.local_valid) r.shared_valid;
  };
  same_cmd = refl;
}

pub no_tape-IsReady : (s : InState) → IsReady s → IsReady (no_tape s)
no_tape-IsReady s r = record {
  current = r.current;
  local_valid = record { allocated = r.local_valid.allocated; within = omega arith };
  shared_valid = r.shared_valid;
}

pub set_tape-with_tape :
    (tape : Bytes) (s : InState)
    → IsReady s
    → length tape < default_data_size
    → set_tape tape s ≡ some (with_tape tape s)
unfolding set_tape with_tape
set_tape-with_tape tape s r h = rw (
    memcpy-fits s.t_data.buffer (c_str tape) (length tape + 1)
      (omega (arith, r.local_valid.allocated)) (omega (arith, length-append tape (0 ∷ []))))

pub with_tape-IsReady :
    (tape : Bytes) (s : InState)
    → IsReady s
    → length tape < default_data_size
    → IsReady (with_tape tape s)
unfolding with_tape
with_tape-IsReady tape s r h = record {
  current = r.current;
  local_valid = record {
    allocated =
        length-splice (length tape + 1) (c_str tape) s.t_data.buffer
          (omega (arith, length-append tape (0 ∷ []))) (omega (arith, r.local_valid.allocated))
        ∙ r.local_valid.allocated;
    within = omega arith;
  };
  shared_valid = r.shared_valid;
}

pub set_tape_overflow :
    (tape : Bytes) (s : InState)
    → IsReady s
    → default_data_size ≤ length tape
    → set_tape tape s ≡ none
unfolding set_tape
set_tape_overflow tape s r h = rw (
    memcpy-overflow s.t_data.buffer (c_str tape) (length tape + 1)
      (omega (arith, r.local_valid.allocated)))
