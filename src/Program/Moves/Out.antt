-- ===== src/Program/Moves/Out.antt =====
-- impl/all/core/wineing.cc, `cchan_out_thread`: its actions keep the invariant of the program.
use wineing.Prelude.{
  ℕ, suc, ◌≡◌, sym, subst, List, some, length, arith, Bool-cases, inl, inr, is_neg, size_of_int, ap,
}
use wineing.Prelude.Memory.{Bytes, >>=-eq-some}
use wineing.Chan.{chan_recv, chan_send}
use wineing.Reader.{Reader}
use wineing.Out.{OutTurn, OutState, cchan_in_mem_copy, pass_on}
use wineing.Program.{out_reading, World, OutStep}
use wineing.Program.Invariant.{Near, Inv, IsFresh-Near, read-IsFresh, is_looping}

pub pass_on-reader :
    (t : OutTurn) (r : Reader) (sent : List Bytes) (st : OutState)
    → pass_on t r sent ≡ some st
    → st.reader ≡ r
unfolding pass_on
pass_on-reader t r sent st e =
    let (p, _, q) = >>=-eq-some (chan_recv t.received cchan_in_mem_copy t.memory) _ e in
    elim (Bool-cases (is_neg p.0)) [
      | inl n ↦ ground (arith, rw n at q)
      | inr n ↦
          (let (x, _, y) =
              >>=-eq-some (chan_send t.send_rc p.1 (size_of_int p.0) sent) _ (rw n at q) in
            ground (arith, y))
    ]

received-Inv :
    (s : World) (st : OutState) (rest : List Bytes) (n : ℕ)
    → Inv s
    → st.reader ≡ s.out.reader
    → Inv (record s { queue = rest; out = st; out_pc = out_reading; dropped = n })
received-Inv s st rest n v e = record {
  owner = v.owner;
  word = v.word;
  out_near = subst (Near (suc (length s.heard)) s.control.shared) (sym e) v.out_near;
  market_near = v.market_near;
  tape_near = v.tape_near;
  in_left = v.in_left;
  out_left = λ e. cc;
  market_left = v.market_left;
  served = λ d e. cc;
}

-- An action of the response thread keeps the invariant.
pub OutStep-Inv : {s t : World} → OutStep s t → Inv s → Inv t
OutStep-Inv {s} (OutStep.out_reads r p e c) v =
    let f = read-IsFresh s.control s.out.reader r v.owner v.out_near e in
    record {
      owner = v.owner;
      word = v.word;
      out_near = IsFresh-Near _ v.word f;
      market_near = v.market_near;
      tape_near = v.tape_near;
      in_left = v.in_left;
      out_left = λ e. cc;
      market_left = v.market_left;
      served = λ d e. ground (arith, c, f.shows.same_cmd, d);
    }
OutStep-Inv {s} (OutStep.out_leaves r p e c) v =
    let f = read-IsFresh s.control s.out.reader r v.owner v.out_near e in
    record {
      owner = v.owner;
      word = v.word;
      out_near = IsFresh-Near _ v.word f;
      market_near = v.market_near;
      tape_near = v.tape_near;
      in_left = v.in_left;
      out_left = λ e. ground (arith, c, f.shows.same_cmd);
      market_left = v.market_left;
      served = λ d e. cc;
    }
OutStep-Inv {s} (OutStep.out_closes p) v = record {
  owner = v.owner;
  word = v.word;
  out_near = v.out_near;
  market_near = v.market_near;
  tape_near = v.tape_near;
  in_left = v.in_left;
  out_left = λ e. v.out_left (ap is_looping p);
  market_left = v.market_left;
  served = λ d e. cc;
}
OutStep-Inv {s} (OutStep.passes t m rest st p q a z l e) v =
    received-Inv s st rest _ v (pass_on-reader t s.out.reader s.out.sent st e)
OutStep-Inv {s} (OutStep.fails t st p a z e) v =
    received-Inv s st s.queue s.dropped v (pass_on-reader t s.out.reader s.out.sent st e)
