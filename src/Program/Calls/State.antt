-- ===== src/Program/Calls/State.antt =====
-- impl/all/core/wineing.cc: the program's shared state as one between two calls.
use wineing.Prelude.{ℤ, ◌≡◌, refl, ◌∙◌, sym, ap, some, List}
use wineing.Ctrl.{copy_local_to_shared}
use wineing.Proto.{Response}
use wineing.Conc.{lazy_update_global_if_owner}
use wineing.Control.{Env, reply}
use wineing.Threads.Atomic.{Atoms, Act, Acts, then_act, Event}
use wineing.Program.{World}
use wineing.Program.Moves.Control.{reply-some}
use wineing.Program.Calls.Control.{Called, no_call, one_call}

-- The readers are `cchan_out_thread`, `market_thread` and the callback.
pub record Stands (w : World) (a : Atoms) : Type 0 where
  pub of_block : a.shared ≡ w.control.shared
  pub of_control : a.writer ≡ record { t_version = w.control.t_version; t_data = w.control.t_data }
  pub of_out : a.readers 0 ≡ w.out.reader
  pub of_market : a.readers 1 ≡ w.market
  pub of_tape : a.readers 2 ≡ w.tape.reader

-- The calls so far, and after them a state that the program stands in.
pub record Ran (b : Atoms) (w : World) : Type 0 where
  pub events : List Event
  pub after : Atoms
  pub acts : Acts b events after
  pub stands : Stands w after

pub acts_on :
    {b : Atoms} {w u : World} {a : Atoms} (r : Ran b w) → Act r.after a → Stands u a → Ran b u
acts_on r x z = record { events = _; after = _; acts = then_act r.acts x; stands = z }

pub control-Ran :
    {b : Atoms} {w : World} (u : World)
    → Called w.control u.control
    → u.out.reader ≡ w.out.reader
    → u.market ≡ w.market
    → u.tape.reader ≡ w.tape.reader
    → Ran b w
    → Ran b u
control-Ran u (no_call e f) o m t r =
    let z = r.stands in
    acts_on r (Act.prepares u.control.t_data) (record {
      of_block = z.of_block ∙ sym f;
      of_control =
          ap (λ v. record { t_version = v; t_data = u.control.t_data })
            (ap (λ x. x.t_version) z.of_control ∙ sym e);
      of_out = z.of_out ∙ sym o;
      of_market = z.of_market ∙ sym m;
      of_tape = z.of_tape ∙ sym t;
    })
control-Ran {w = w} u (one_call e) o m t r =
    let z = r.stands in
    let called =
      ap (λ v. lazy_update_global_if_owner copy_local_to_shared v u.control.t_data r.after.shared)
        (ap (λ x. x.t_version) z.of_control)
      ∙ (ap
            (λ g.
              lazy_update_global_if_owner copy_local_to_shared w.control.t_version u.control.t_data
                g)
            z.of_block
          ∙ e) in
    record {
      events = _;
      after = _;
      acts =
          then_act (then_act r.acts (Act.prepares u.control.t_data))
            (Act.updates u.control.t_version u.control.shared called);
      stands = record {
        of_block = refl;
        of_control = refl;
        of_out = z.of_out ∙ sym o;
        of_market = z.of_market ∙ sym m;
        of_tape = z.of_tape ∙ sym t;
      };
    }

pub answers-Ran :
    (env : Env) {b : Atoms} {w : World} (u : World) (rc : ℤ) (res : Response)
    → reply env rc (res, w.control) ≡ some u.control
    → u.out.reader ≡ w.out.reader
    → u.market ≡ w.market
    → u.tape.reader ≡ w.tape.reader
    → Ran b w
    → Ran b u
answers-Ran env {w = w} u rc res e o m t r =
    let z = r.stands in
    let k = reply-some env rc res w.control u.control e in
    record {
      events = r.events;
      after = r.after;
      acts = r.acts;
      stands = record {
        of_block = z.of_block ∙ sym (ap (λ x. x.shared) k);
        of_control =
            z.of_control ∙ sym (ap (λ x. record { t_version = x.t_version; t_data = x.t_data }) k);
        of_out = z.of_out ∙ sym o;
        of_market = z.of_market ∙ sym m;
        of_tape = z.of_tape ∙ sym t;
      };
    }

-- Nothing is done to the block or a reader.
pub keeps-Ran :
    {b : Atoms} {w : World} (u : World)
    → u.control ≡ w.control
    → u.out.reader ≡ w.out.reader
    → u.market ≡ w.market
    → u.tape.reader ≡ w.tape.reader
    → Ran b w
    → Ran b u
keeps-Ran u c o m t r =
    let z = r.stands in
    record {
      events = r.events;
      after = r.after;
      acts = r.acts;
      stands = record {
        of_block = z.of_block ∙ sym (ap (λ x. x.shared) c);
        of_control =
            z.of_control ∙ sym (ap (λ x. record { t_version = x.t_version; t_data = x.t_data }) c);
        of_out = z.of_out ∙ sym o;
        of_market = z.of_market ∙ sym m;
        of_tape = z.of_tape ∙ sym t;
      };
    }
