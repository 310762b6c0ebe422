-- ===== src/Program/Delivery.antt =====
-- impl/all/core/wineing.cc: the responses get to the clients.
use mathlib.Core.List.{append-nil, append_assoc}
use wineing.Prelude.{
  ℕ, pos, suc, ◌≡◌, ◌≢◌, refl, sym, ap, ◌∙◌, subst, inr, List, [], ◌∷◌, ◌++◌, arith,
  length-replicate, ◌==◌, false, true,
}
use wineing.Prelude.Memory.{Bytes}
use wineing.Ctrl.{cmd_shutdown}
use wineing.Proto.{Response}
use wineing.Control.{Env}
use wineing.Control.Spec.{down, told}
use wineing.Reader.Fresh.{read_shared-IsFresh}
use wineing.Reader.Behind.{Behind-InSync}
use wineing.Market.{NxCore}
use wineing.Out.{out_buffer_size}
use wineing.Out.Forward.{pass_on-passed}
use wineing.Program.{
  InPc, listening, answering, in_done, OutPc, out_reading, out_receiving, out_closing, out_done,
  World, InStep, OutStep, Step, Reach, here, next, start, has_pull,
}
use wineing.Program.Invariant.{Inv, Bounded, is_looping}
use wineing.Program.Moves.{Step-Inv}
use wineing.Program.Answers.{pending}
use wineing.Program.Safety.{IsAllocated, reached-Inv}
use wineing.Program.Ending.Onward.{AllSmall, AllSmall-snoc, IsSmall, reply-sent, round}

-- Every response on its way fits in the buffer of `cchan_out_thread`.
pub record AreSmall (env : Env) (s : World) : Type 0 where
  pub queued : AllSmall s.queue
  pub next : IsSmall env s.in_pc

-- A run after which the clients have got `ms` more and nothing waits.
pub record Delivered (env : Env) (nx : NxCore) (s : World) (ms : List Bytes) : Type 0 where
  pub steps : ℕ
  pub last : World
  pub run : Reach env nx s steps last
  pub got : last.out.sent ≡ s.out.sent ++ ms
  pub nothing_waits : last.queue ≡ []
  pub nothing_pending : pending env last.in_pc ≡ []

Reach-trans :
    {env : Env} {nx : NxCore} {s t : World} {n k : ℕ} {u : World}
    → Reach env nx s n t
    → Reach env nx t k u
    → (j : ℕ) × Reach env nx s j u
Reach-trans {n} r here = (n, r)
Reach-trans r (next q st) = let (j, p) = Reach-trans r q in (suc j, next p st)

-- A world in which the program still runs.
record Up (s : World) : Type 0 where
  inv : Inv s
  bounded : Bounded s
  up : told s.control ≢ down

-- The response thread gets to its receive.
record AtReceive (env : Env) (nx : NxCore) (s : World) : Type 0 where
  steps : ℕ
  last : World
  run : Reach env nx s steps last
  receives : last.out_pc ≡ out_receiving
  still_up : Up last
  same_sent : last.out.sent ≡ s.out.sent
  same_queue : last.queue ≡ s.queue
  same_in : last.in_pc ≡ s.in_pc

-- A run after which the messages `ms` that waited are delivered.
record Drained (env : Env) (nx : NxCore) (s : World) (ms : List Bytes) : Type 0 where
  steps : ℕ
  last : World
  run : Reach env nx s steps last
  got : last.out.sent ≡ s.out.sent ++ ms
  empty : last.queue ≡ []
  same_in : last.in_pc ≡ s.in_pc

up_cmd : (s : World) → told s.control ≢ down → (s.control.shared.value.cmd == cmd_shutdown) ≡ false
up_cmd s n = ground (arith, n)

pull_open : (s : World) → Up s → has_pull s.out_pc ≡ true
pull_open s v = at s.out_pc refl
  where
    at : (p : OutPc) → s.out_pc ≡ p → has_pull s.out_pc ≡ true
    at out_reading p = ap has_pull p
    at out_receiving p = ap has_pull p
    at out_closing p = ap has_pull p
    at out_done p = absurd (v.up (v.inv.out_left (ap is_looping p)))

module _ {env : Env} {nx : NxCore} where
  reads_on : (s : World) → Up s → s.out_pc ≡ out_reading → AtReceive env nx s
  reads_on s v p =
      let (r, o, f) =
        read_shared-IsFresh s.control.shared s.out.reader v.inv.owner.ready.shared_valid
          (Behind-InSync v.inv.out_near.behind) in
      let st : OutStep s _ =
        OutStep.out_reads r p o (ap (λ c. c == cmd_shutdown) f.shows.same_cmd ∙ up_cmd s v.up) in
      record {
        steps = 1;
        last = _;
        run = next here (Step.out st);
        receives = refl;
        still_up = record {
          inv = Step-Inv {env = env} {nx = nx} (Step.out st) v.bounded v.inv;
          bounded = v.bounded;
          up = v.up;
        };
        same_sent = refl;
        same_queue = refl;
        same_in = refl;
      }

  to_receive : (s : World) → Up s → AtReceive env nx s
  to_receive s v = at s.out_pc refl
    where
      at : (p : OutPc) → s.out_pc ≡ p → AtReceive env nx s
      at out_reading p = reads_on s v p
      at out_receiving p = record {
        steps = 0;
        last = s;
        run = here;
        receives = p;
        still_up = v;
        same_sent = refl;
        same_queue = refl;
        same_in = refl;
      }
      at out_closing p = absurd (v.up (v.inv.out_left (ap is_looping p)))
      at out_done p = absurd (v.up (v.inv.out_left (ap is_looping p)))

  -- The messages that wait are delivered one after the other.
  drain : (ms : List Bytes) (s : World) → Up s → s.queue ≡ ms → AllSmall ms → Drained env nx s ms
  drain [] s v q l = record {
    steps = 0;
    last = s;
    run = here;
    got = sym (append-nil s.out.sent);
    empty = q;
    same_in = refl;
  }
  drain (m ∷ ms) s v q l =
      let z = to_receive s v in
      let a = length-replicate {A = ℕ} out_buffer_size 0 in
      let st : OutStep z.last _ =
        OutStep.passes (round m) m ms _ z.receives (z.same_queue ∙ q) a refl (omega (arith, l.0))
          (pass_on-passed (round m) z.last.out.reader z.last.out.sent a (inr (refl, l.0))) in
      let y : Up _ = record {
        inv = Step-Inv {env = env} {nx = nx} (Step.out st) z.still_up.bounded z.still_up.inv;
        bounded = z.still_up.bounded;
        up = z.still_up.up;
      } in
      let d = drain ms _ y refl l.1 in
      let (n, r) = Reach-trans (next z.run (Step.out st)) d.run in
      record {
        steps = n;
        last = d.last;
        run = r;
        got = d.got ∙ append_assoc z.last.out.sent (m ∷ []) ms ∙ ap (λ x. x ++ m ∷ ms) z.same_sent;
        empty = d.empty;
        same_in = d.same_in ∙ z.same_in;
      }

  -- The response that is about to be sent joins the queue.
  answered :
      (s : World) (res : Response)
      → Up s
      → s.in_pc ≡ answering res
      → AreSmall env s
      → Delivered env nx s (s.queue ++ pending env s.in_pc)
  answered s res v i f =
      let m = env.codec.serialize_response res in
      let st : InStep env s _ =
        InStep.answers (pos 0) res _ i (pull_open s v) (reply-sent env res s.control) in
      let y : Up _ = record {
        inv = Step-Inv {env = env} {nx = nx} (Step.control st) v.bounded v.inv;
        bounded = v.bounded;
        up = v.up;
      } in
      let d : Drained env nx _ (s.queue ++ m ∷ []) =
        drain (s.queue ++ m ∷ []) _ y refl
          (AllSmall-snoc s.queue m f.queued (subst (IsSmall env) i f.next)) in
      let (n, r) = Reach-trans (next here (Step.control st)) d.run in
      record {
        steps = n;
        last = d.last;
        run = r;
        got = d.got ∙ ap (λ p. s.out.sent ++ (s.queue ++ pending env p)) (sym i);
        nothing_waits = d.empty;
        nothing_pending = ap (pending env) d.same_in;
      }

  nothing_answered :
      (s : World)
      → Up s
      → pending env s.in_pc ≡ []
      → AreSmall env s
      → Delivered env nx s (s.queue ++ pending env s.in_pc)
  nothing_answered s v i f =
      let d = drain s.queue s v refl f.queued in
      record {
        steps = d.steps;
        last = d.last;
        run = d.run;
        got =
            d.got
            ∙ ap (λ l. s.out.sent ++ l) (sym (append-nil s.queue) ∙ ap (λ l. s.queue ++ l) (sym i));
        nothing_waits = d.empty;
        nothing_pending = ap (pending env) d.same_in ∙ i;
      }

module _ {env : Env} {nx : NxCore} {g i o m t : Bytes} (a : IsAllocated g i o m t) where
  -- Responses get out: from every state that the program reaches before a shutdown is processed, it can
  -- go on until the clients have got every response that waits in the inproc channel and the one that
  -- is about to be sent to it, in this order and after what they had got, and no response waits. The
  -- responses have at most 1024 bytes, and fewer than 2^32 - 1 requests have been processed.
  pub answers_get_out :
      {n : ℕ} {s : World}
      → Reach env nx (start g i o m t) n s
      → Bounded s
      → told s.control ≢ down
      → AreSmall env s
      → Delivered env nx s (s.queue ++ pending env s.in_pc)
  answers_get_out {n} {s} r b u f = at s.in_pc refl
    where
      v : Up s
      v = record { inv = reached-Inv a r b; bounded = b; up = u }

      at : (p : InPc) → s.in_pc ≡ p → Delivered env nx s (s.queue ++ pending env s.in_pc)
      at listening p = nothing_answered s v (ap (pending env) p) f
      at in_done p = nothing_answered s v (ap (pending env) p) f
      at (answering res) p = answered s res v p f
