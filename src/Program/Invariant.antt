-- ===== src/Program/Invariant.antt =====
-- impl/all/core/wineing.cc: what holds in every state that the program reaches.
use wineing.Prelude.{
  ℕ, suc, ◌+◌, ◌^◌, ◌≤◌, ◌<◌, ◌≡◌, ◌≢◌, subst, true, false, List, [], ◌∷◌, ◌++◌, some, ltb, length,
  length-append, arith, Bool,
}
use wineing.Prelude.Memory.{Bytes}
use wineing.Ctrl.{WCtrl, cmd_shutdown, default_data_size}
use wineing.Conc.{Shared}
use wineing.Proto.{Request}
use wineing.Control.{InState, in_start}
use wineing.Control.Owner.{IsOwner}
use wineing.Control.Start.{in_start-IsOwner}
use wineing.Control.Spec.{down, told}
use wineing.Control.Updates.{Advanced, Behind-Advanced}
use wineing.Reader.{Reader, read_shared}
use wineing.Reader.Fresh.{IsFresh, read_shared-IsFresh}
use wineing.Reader.Behind.{Behind, Behind-InSync, IsFresh-Behind, reader_init-Behind}
use wineing.Program.{
  InPc, answering, in_done, out_receiving, market_done, World, start, OutPc, out_reading,
}

-- A reader has missed at most `n` updates.
pub record Near (n : ℕ) (g : Shared WCtrl) (r : Reader) : Type 0 where
  pub missed : ℕ
  pub few : missed ≤ n
  pub behind : Behind missed g r

-- How many messages `cchan_out_thread` can still expect, or has lost.
abbrev pub answer_count : InPc → ℕ
answer_count (answering res) = 1
answer_count _ = 0

abbrev pub coming : World → ℕ
coming s = length s.queue + answer_count s.in_pc + s.unsent

abbrev pub is_looping : OutPc → Bool
is_looping out_reading = true
is_looping out_receiving = true
is_looping _ = false

pub record Inv (s : World) : Type 0 where
  pub owner : IsOwner s.control
  pub word : s.control.shared.version < 2 ^ 32
  pub out_near : Near (suc (length s.heard)) s.control.shared s.out.reader
  pub market_near : Near (suc (length s.heard)) s.control.shared s.market
  pub tape_near : Near (suc (length s.heard)) s.control.shared s.tape.reader
  pub in_left : s.in_pc ≡ in_done → told s.control ≡ down
  pub out_left : is_looping s.out_pc ≡ false → told s.control ≡ down
  pub market_left : s.market_pc ≡ market_done → told s.control ≡ down
  pub served : told s.control ≡ down → s.out_pc ≡ out_receiving → 0 < coming s

-- The updates stay below the number at which a reader would miss one.
abbrev pub Bounded : World → Type 0
Bounded s = suc (length s.heard) < 2 ^ 32

Near-Advanced :
    {n m : ℕ} {g h : Shared WCtrl} {r : Reader}
    → Near n g r
    → Advanced m g h
    → n + m < 2 ^ 32
    → Near (n + m) h r
Near-Advanced b a l = record {
  missed = b.missed + a.updates;
  few = omega (arith, b.few, a.few);
  behind = Behind-Advanced b.behind a (omega (arith, b.few));
}

pub Near-weaken : {n m : ℕ} {g : Shared WCtrl} {r : Reader} → n ≤ m → Near n g r → Near m g r
Near-weaken l b = record { missed = b.missed; few = omega (arith, b.few); behind = b.behind }

pub IsFresh-Near :
    {g : Shared WCtrl} {r : Reader} (n : ℕ) → g.version < 2 ^ 32 → IsFresh g r → Near n g r
IsFresh-Near n b f = record { missed = 0; few = omega arith; behind = IsFresh-Behind b f }

-- A request makes a reader miss one update more.
pub Near-next :
    {g h : Shared WCtrl} {r : Reader} (qs : List Request) (q : Request)
    → Near (suc (length qs)) g r
    → Advanced 1 g h
    → suc (length (qs ++ q ∷ [])) < 2 ^ 32
    → Near (suc (length (qs ++ q ∷ []))) h r
Near-next qs q b a l =
    let e = length-append qs (q ∷ []) in
    Near-weaken (omega (arith, e)) (Near-Advanced b a (omega (arith, e, l)))

-- The guard of the control thread's loop.
pub guard-down : (s : InState) → IsOwner s → ltb cmd_shutdown s.t_data.cmd ≡ true → told s ≢ down
guard-down s w g e = ground (arith, w.same_cmd)

pub guard-up : (s : InState) → IsOwner s → ltb cmd_shutdown s.t_data.cmd ≡ false → told s ≡ down
guard-up s w g = ground (arith, w.same_cmd)

-- What a read by a reader finds, if that is the published block.
pub read-IsFresh :
    {n : ℕ} (s : InState) (r r' : Reader)
    → IsOwner s
    → Near n s.shared r
    → read_shared s.shared r ≡ some r'
    → IsFresh s.shared r'
read-IsFresh s r r' w b e =
    let (x, o, f) = read_shared-IsFresh s.shared r w.ready.shared_valid (Behind-InSync b.behind) in
    let same : x ≡ r' = ground (arith, o, e) in subst (IsFresh s.shared) same f

pub start-Inv :
    (g i o m t : Bytes)
    → length g ≡ default_data_size
    → length i ≡ default_data_size
    → length o ≡ default_data_size
    → length m ≡ default_data_size
    → length t ≡ default_data_size
    → Inv (start g i o m t)
unfolding in_start
start-Inv g i o m t hg hi ho hm ht = record {
  owner = in_start-IsOwner g i hg hi;
  word = omega arith;
  out_near = record { missed = 1; few = omega arith; behind = reader_init-Behind o _ ho };
  market_near = record { missed = 1; few = omega arith; behind = reader_init-Behind m _ hm };
  tape_near = record { missed = 1; few = omega arith; behind = reader_init-Behind t _ ht };
  in_left = λ e. cc;
  out_left = λ e. cc;
  market_left = λ e. cc;
  served = λ d e. cc;
}
