-- ===== src/Ctrl/Copy.antt =====
-- inc/core/wineing.h: the copies of a control block stay within the buffers and agree with what
-- was copied.
use wineing.Prelude.{
  subst, ◌∙◌, ◌≤◌, ◌≡◌, refl, some, arith, take, drop, length, take-append_take, length-splice,
  ◌++◌,
}
use wineing.Prelude.Memory.{memcpy-fits}
use wineing.Ctrl.{WCtrl, default_data_size, copy_local_to_shared, copy_shared_to_local}

-- A control block whose buffer has the allocated size and whose `size` lies inside it.
pub record IsValid (c : WCtrl) : Type 0 where
  pub allocated : length c.buffer ≡ default_data_size
  pub within : c.size ≤ default_data_size

-- `c` shows what `d` holds: the command, the size, and the data up to the size.
pub record Shows (c d : WCtrl) : Type 0 where
  pub same_cmd : c.cmd ≡ d.cmd
  pub same_size : c.size ≡ d.size
  pub same_data : take d.size c.buffer ≡ take d.size d.buffer

pub Shows-refl : (c : WCtrl) → Shows c c
Shows-refl c = record { same_cmd = refl; same_size = refl; same_data = refl }

-- The value of a copy from `local` to `shared`, where the buffers are large enough.
unfoldable pub copied : WCtrl → WCtrl → WCtrl
copied local shared = record {
  cmd = local.cmd;
  buffer = take local.size local.buffer ++ drop local.size shared.buffer;
  size = local.size;
}

pub copy_local_to_shared-copied :
    (local shared : WCtrl)
    → IsValid local
    → IsValid shared
    → copy_local_to_shared local shared ≡ some (copied local shared)
unfolding copy_local_to_shared copied
copy_local_to_shared-copied local shared l s =
    ground (arith, memcpy-fits shared.buffer local.buffer local.size)

-- The two copy functions are one function with the roles swapped.
pub copy_shared_to_local-swap :
    (local shared : WCtrl) → copy_shared_to_local local shared ≡ copy_local_to_shared shared local
unfolding copy_local_to_shared copy_shared_to_local
copy_shared_to_local-swap local shared = refl

pub copied-IsValid :
    (local shared : WCtrl) → IsValid local → IsValid shared → IsValid (copied local shared)
unfolding copied
copied-IsValid local shared l s = record {
  allocated =
      omega
        (arith, length-splice local.size local.buffer shared.buffer (omega arith) (omega arith));
  within = l.within;
}

pub copied-Shows : (local shared : WCtrl) → IsValid local → Shows (copied local shared) local
unfolding copied
copied-Shows local shared l = record {
  same_cmd = refl;
  same_size = refl;
  same_data =
      take-append_take local.size local.buffer (drop local.size shared.buffer) (omega arith);
}

pub Shows-trans : {c d e : WCtrl} → Shows c d → Shows d e → Shows c e
Shows-trans {c} {d} {e} p q = record {
  same_cmd = p.same_cmd ∙ q.same_cmd;
  same_size = p.same_size ∙ q.same_size;
  same_data = subst (λ n. take n c.buffer ≡ take n d.buffer) q.same_size p.same_data ∙ q.same_data;
}
