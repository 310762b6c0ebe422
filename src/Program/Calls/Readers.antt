-- ===== src/Program/Calls/Readers.antt =====
-- impl/all/core/wineing.cc and impl/wine/nx/nxtape.cc: a read of the shared block as a call.
use mathlib.Core.Logic.{if_pos, if_neg}
use native.Mathlib.Decide.{ℕ_discrete}
use wineing.Prelude.{ℕ, ◌≡◌, ◌≢◌, refl, ◌∙◌, sym, ap, some, arith}
use wineing.Ctrl.{WCtrl}
use wineing.Conc.{Shared}
use wineing.Reader.{Reader, read_shared}
use wineing.Threads.Atomic.{Atoms, Act, set}
use wineing.Program.{World}
use wineing.Program.Calls.State.{Ran, acts_on}

module _ (f : ℕ → Reader) (i : ℕ) (r : Reader) where
  set-same : set f i r i ≡ r
  set-same = if_pos (ℕ_discrete i i) refl r (f i)

  set-other : (j : ℕ) → i ≢ j → set f i r j ≡ f j
  set-other j n = if_neg (ℕ_discrete i j) n r (f j)

read_of :
    {g h : Shared WCtrl} {r s x : Reader}
    → g ≡ h
    → r ≡ s
    → read_shared h s ≡ some x
    → read_shared g r ≡ some x
read_of {h = h} {r = r} p q e = ap (λ g. read_shared g r) p ∙ (ap (read_shared h) q ∙ e)

-- `cchan_out_thread` reads.
pub out-Ran :
    {b : Atoms} {w : World} (u : World)
    → read_shared w.control.shared w.out.reader ≡ some u.out.reader
    → u.control ≡ w.control
    → u.market ≡ w.market
    → u.tape.reader ≡ w.tape.reader
    → Ran b w
    → Ran b u
out-Ran u e c m t r =
    let z = r.stands in
    let f = r.after.readers in
    acts_on r (Act.reads 0 u.out.reader (read_of z.of_block z.of_out e)) (record {
      of_block = z.of_block ∙ sym (ap (λ x. x.shared) c);
      of_control =
          z.of_control ∙ sym (ap (λ x. record { t_version = x.t_version; t_data = x.t_data }) c);
      of_out = set-same f 0 u.out.reader;
      of_market = set-other f 0 u.out.reader 1 (λ k. omega (arith, k)) ∙ (z.of_market ∙ sym m);
      of_tape = set-other f 0 u.out.reader 2 (λ k. omega (arith, k)) ∙ (z.of_tape ∙ sym t);
    })

-- `market_thread` reads.
pub market-Ran :
    {b : Atoms} {w : World} (u : World)
    → read_shared w.control.shared w.market ≡ some u.market
    → u.control ≡ w.control
    → u.out.reader ≡ w.out.reader
    → u.tape.reader ≡ w.tape.reader
    → Ran b w
    → Ran b u
market-Ran u e c o t r =
    let z = r.stands in
    let f = r.after.readers in
    acts_on r (Act.reads 1 u.market (read_of z.of_block z.of_market e)) (record {
      of_block = z.of_block ∙ sym (ap (λ x. x.shared) c);
      of_control =
          z.of_control ∙ sym (ap (λ x. record { t_version = x.t_version; t_data = x.t_data }) c);
      of_out = set-other f 1 u.market 0 (λ k. omega (arith, k)) ∙ (z.of_out ∙ sym o);
      of_market = set-same f 1 u.market;
      of_tape = set-other f 1 u.market 2 (λ k. omega (arith, k)) ∙ (z.of_tape ∙ sym t);
    })

-- The callback reads.
pub tape-Ran :
    {b : Atoms} {w : World} (u : World)
    → read_shared w.control.shared w.tape.reader ≡ some u.tape.reader
    → u.control ≡ w.control
    → u.out.reader ≡ w.out.reader
    → u.market ≡ w.market
    → Ran b w
    → Ran b u
tape-Ran u e c o m r =
    let z = r.stands in
    let f = r.after.readers in
    acts_on r (Act.reads 2 u.tape.reader (read_of z.of_block z.of_tape e)) (record {
      of_block = z.of_block ∙ sym (ap (λ x. x.shared) c);
      of_control =
          z.of_control ∙ sym (ap (λ x. record { t_version = x.t_version; t_data = x.t_data }) c);
      of_out = set-other f 2 u.tape.reader 0 (λ k. omega (arith, k)) ∙ (z.of_out ∙ sym o);
      of_market = set-other f 2 u.tape.reader 1 (λ k. omega (arith, k)) ∙ (z.of_market ∙ sym m);
      of_tape = set-same f 2 u.tape.reader;
    })
