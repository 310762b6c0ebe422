-- ===== src/Program/Moves/Control.antt =====
-- impl/all/core/wineing.cc, `cchan_in_thread`: its actions keep the invariant of the program.
use wineing.Prelude.{
  ℕ, ℤ, suc, ◌+◌, ◌^◌, ◌<◌, ◌≡◌, sym, ap, subst, true, List, [], ◌∷◌, ◌++◌, some, ltb, length,
  length-append, arith, Bool-cases, inl, inr, is_neg, if◌then◌else◌,
}
use wineing.Prelude.Memory.{Bytes}
use wineing.Ctrl.{cmd_shutdown}
use wineing.Chan.{chan_send-all}
use wineing.Proto.{Request, Response}
use wineing.Control.{Env, InState, process, reply}
use wineing.Control.Spec.{process-Answered}
use wineing.Control.Updates.{process-Advanced}
use wineing.Control.Round.{sent-IsOwner}
use wineing.Program.{listening, answering, World, InStep, enqueue}
use wineing.Program.Invariant.{Inv, Bounded, answer_count, Near-next, guard-down, guard-up}

-- What the send of a response leaves of the control thread.
pub reply-some :
    (env : Env) (rc : ℤ) (res : Response) (s c : InState)
    → reply env rc (res, s) ≡ some c
    → c ≡ record s {
      sent = if is_neg rc then s.sent else s.sent ++ env.codec.serialize_response res ∷ [];
    }
unfolding reply
reply-some env rc res s c e =
    ground (arith, rw (chan_send-all rc (env.codec.serialize_response res) s.sent) at e)

hears-Inv :
    (env : Env) (s : World) (req : Request) (res : Response) (c : InState)
    → Inv s
    → ltb cmd_shutdown s.control.t_data.cmd ≡ true
    → process env req s.control ≡ some (res, c)
    → suc (length (s.heard ++ req ∷ [])) < 2 ^ 32
    → Inv (record s { control = c; in_pc = answering res; heard = s.heard ++ req ∷ [] })
hears-Inv env s req res c v g p b =
    let (_, t, w, _) = process-Answered env req s.control c res v.owner p in
    let a = process-Advanced env req s.control c res v.word v.owner.ready p in
    let up = guard-down s.control v.owner g in
    record {
      owner = w;
      word = a.word;
      out_near = Near-next s.heard req v.out_near a b;
      market_near = Near-next s.heard req v.market_near a b;
      tape_near = Near-next s.heard req v.tape_near a b;
      in_left = λ e. cc;
      out_left = λ e. absurd (up (v.out_left e));
      market_left = λ e. absurd (up (v.market_left e));
      served = λ d e. omega arith;
    }

sent_coming :
    (rc : ℤ) (m : Bytes) (queue : List Bytes) (n : ℕ)
    → 0 < length (enqueue rc m queue) + 0 + (if is_neg rc then suc n else n)
sent_coming rc m queue n = elim (Bool-cases (is_neg rc)) [
  | inl e ↦ rw e (omega arith)
  | inr e ↦ rw e (omega (arith, length-append queue (m ∷ [])))
]

answers-Inv :
    (env : Env) (s : World) (rc : ℤ) (res : Response) (c : InState)
    → Inv s
    → s.in_pc ≡ answering res
    → reply env rc (res, s.control) ≡ some c
    → Inv (record s {
      control = c;
      in_pc = listening;
      queue = enqueue rc (env.codec.serialize_response res) s.queue;
      unsent = if is_neg rc then suc s.unsent else s.unsent;
    })
answers-Inv env s rc res c v p e =
    subst
      (λ x. Inv (record s {
        control = x;
        in_pc = listening;
        queue = enqueue rc (env.codec.serialize_response res) s.queue;
        unsent = if is_neg rc then suc s.unsent else s.unsent;
      }))
      (sym (reply-some env rc res s.control c e))
      record {
        owner = sent-IsOwner s.control _ v.owner;
        word = v.word;
        out_near = v.out_near;
        market_near = v.market_near;
        tape_near = v.tape_near;
        in_left = λ e. cc;
        out_left = v.out_left;
        market_left = v.market_left;
        served = λ d e. sent_coming rc (env.codec.serialize_response res) s.queue s.unsent;
      }

-- An action of the control thread keeps the invariant.
pub InStep-Inv : {env : Env} {s t : World} → InStep env s t → Bounded t → Inv s → Inv t
InStep-Inv {env} {s} (InStep.hears z n req res c i g h o p) b v = hears-Inv env s req res c v g p b
InStep-Inv (InStep.hears_nothing z n req i g h o) b v = v
InStep-Inv {env} {s} (InStep.answers rc res c i h e) b v = answers-Inv env s rc res c v i e
InStep-Inv {env} {s} (InStep.in_leaves i g) b v = record {
  owner = v.owner;
  word = v.word;
  out_near = v.out_near;
  market_near = v.market_near;
  tape_near = v.tape_near;
  in_left = λ e. guard-up s.control v.owner g;
  out_left = v.out_left;
  market_left = v.market_left;
  served = λ d e. omega (arith, v.served d e, ap answer_count i);
}
