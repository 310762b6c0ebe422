-- ===== src/Program/Ending/Onward.antt =====
-- impl/all/core/wineing.cc: after a shutdown request some action is possible until every thread has
-- ended.
use wineing.Prelude.{
  ℕ, pos, ◌<◌, ◌≤◌, ◌≡◌, ◌≢◌, refl, ap, subst, List, [], ◌∷◌, ◌++◌, some, arith, length, inr,
  replicate, length-replicate, true,
}
use wineing.Prelude.Memory.{Bytes}
use wineing.Proto.{Response}
use wineing.Chan.{chan_send-all}
use wineing.Control.{Env, InState, reply}
use wineing.Control.Spec.{down, told}
use wineing.Reader.Fresh.{read_shared-IsFresh}
use wineing.Reader.Behind.{Behind-InSync}
use wineing.Market.{action, NxCore}
use wineing.Out.{OutTurn, out_buffer_size}
use wineing.Out.Forward.{pass_on-passed}
use wineing.Program.{
  InPc, listening, answering, in_done, OutPc, has_pull, out_reading, out_receiving, out_closing,
  out_done, MarketPc, market_reading, in_nxcore, nx_stopping, market_done, World, InStep, OutStep,
  MarketStep, Step,
}
use wineing.Program.Invariant.{Inv, answer_count}
use wineing.System.Delivery.{market_turn-read}
use wineing.Program.Ending.{in_work, out_work, market_work, work, down-cmd}

abbrev pub AllSmall : List Bytes → Type 0
AllSmall [] = Unit {0}
AllSmall (m ∷ ms) = (length m ≤ out_buffer_size) × AllSmall ms

pub AllSmall-snoc :
    (ms : List Bytes) (m : Bytes)
    → AllSmall ms
    → length m ≤ out_buffer_size
    → AllSmall (ms ++ m ∷ [])
AllSmall-snoc [] m h l = (l, tt)
AllSmall-snoc (x ∷ ms) m h l = (h.0, AllSmall-snoc ms m h.1 l)

abbrev pub IsSmall : Env → InPc → Type 0
IsSmall env (answering res) = length (env.codec.serialize_response res) ≤ out_buffer_size
IsSmall env _ = Unit {0}

-- The response that is about to be sent finds the PULL end.
abbrev pub Connected : InPc → OutPc → Type 0
Connected (answering res) o = has_pull o ≡ true
Connected _ o = Unit {0}

-- Every response on its way fits in the buffer of `cchan_out_thread`, none was lost on its way to
-- the inproc channel, and that is open for the next one.
pub record Flows (env : Env) (s : World) : Type 0 where
  pub queued : AllSmall s.queue
  pub next : IsSmall env s.in_pc
  pub sent : s.unsent ≡ 0
  pub connected : Connected s.in_pc s.out_pc

none_left : (s : World) (o : OutPc) → s.in_pc ≡ in_done → Connected s.in_pc o
none_left s o i = rw i tt

pub record Onward (env : Env) (nx : NxCore) (s : World) : Type 0 where
  pub after : World
  pub step : Step env nx s after
  pub flows : Flows env after

pub reply-sent :
    (env : Env) (res : Response) (s : InState)
    → reply env (pos 0) (res, s)
      ≡ some (record s { sent = s.sent ++ env.codec.serialize_response res ∷ [] })
unfolding reply
reply-sent env res s = rw (chan_send-all (pos 0) (env.codec.serialize_response res) s.sent)

-- A round that receives `m` and whose send succeeds.
abbrev pub round : Bytes → OutTurn
round m = record {
  shared = record { version = 0; value = record { cmd = 0; buffer = []; size = 0 } };
  memory = replicate out_buffer_size 0;
  received = record { rc = pos 0; message = m };
  send_rc = pos 0;
}

module _ {env : Env} {nx : NxCore} (s : World) (v : Inv s) (d : told s.control ≡ down)
    (f : Flows env s) where
  -- The control thread sends its response or leaves.
  in_goes_on : s.in_pc ≢ in_done → Onward env nx s
  in_goes_on h = at s.in_pc refl
    where
      at : (pc : InPc) → s.in_pc ≡ pc → Onward env nx s
      at in_done e = absurd (h e)
      at listening e = record {
        after = _;
        step =
            Step.control
              (InStep.in_leaves e (ground (arith, down-cmd s.control d, v.owner.same_cmd)));
        flows = record { queued = f.queued; next = tt; sent = f.sent; connected = tt };
      }
      at (answering res) e = record {
        after = _;
        step = Step.control (
            InStep.answers (pos 0) res _ e (subst (λ p. Connected p s.out_pc) e f.connected)
              (reply-sent env res s.control));
        flows = record {
          queued = AllSmall-snoc s.queue _ f.queued (subst (IsSmall env) e f.next);
          next = tt;
          sent = f.sent;
          connected = tt;
        };
      }

  takes :
      s.in_pc ≡ in_done
      → s.out_pc ≡ out_receiving
      → (q : List Bytes) → s.queue ≡ q
      → Onward env nx s
  takes i e [] q = absurd (omega (arith, v.served d e, ap length q, ap answer_count i, f.sent))
  takes i e (m ∷ rest) q =
      let small = subst AllSmall q f.queued in
      let a = length-replicate {A = ℕ} out_buffer_size 0 in
      record {
        after = _;
        step = Step.out (
            OutStep.passes (round m) m rest _ e q a refl (omega (arith, small.0))
              (pass_on-passed (round m) s.out.reader s.out.sent a (inr (refl, small.0))));
        flows = record {
          queued = small.1;
          next = f.next;
          sent = f.sent;
          connected = none_left s _ i;
        };
      }

  -- `cchan_out_thread` takes the message that waits, or leaves.
  out_goes_on : s.in_pc ≡ in_done → s.out_pc ≢ out_done → Onward env nx s
  out_goes_on i h = at s.out_pc refl
    where
      at : (pc : OutPc) → s.out_pc ≡ pc → Onward env nx s
      at out_done e = absurd (h e)
      at out_closing e = record {
        after = _;
        step = Step.out (OutStep.out_closes e);
        flows = record {
          queued = f.queued;
          next = f.next;
          sent = f.sent;
          connected = none_left s _ i;
        };
      }
      at out_reading e =
          (let (r, o, x) =
              read_shared-IsFresh s.control.shared s.out.reader v.owner.ready.shared_valid
                (Behind-InSync v.out_near.behind) in
            record {
              after = _;
              step = Step.out (
                  OutStep.out_leaves r e o
                    (ground (arith, x.shows.same_cmd, down-cmd s.control d)));
              flows = record {
                queued = f.queued;
                next = f.next;
                sent = f.sent;
                connected = none_left s _ i;
              };
            })
      at out_receiving e = takes i e s.queue refl

  market_goes_on : s.market_pc ≢ market_done → Onward env nx s
  market_goes_on h = at s.market_pc refl
    where
      at : (pc : MarketPc) → s.market_pc ≡ pc → Onward env nx s
      at market_done e = absurd (h e)
      at market_reading e =
          (let (r, o, x) =
              read_shared-IsFresh s.control.shared s.market v.owner.ready.shared_valid
                (Behind-InSync v.market_near.behind) in
            record {
              after = _;
              step = Step.market (
                  MarketStep.market_reads (action r.t_data) r e
                    (market_turn-read s.control.shared s.market r o));
              flows = record {
                queued = f.queued;
                next = f.next;
                sent = f.sent;
                connected = f.connected;
              };
            })
      at in_nxcore e = record {
        after = _;
        step = Step.market (MarketStep.nx_ends e);
        flows = record { queued = f.queued; next = f.next; sent = f.sent; connected = f.connected };
      }
      at nx_stopping e = record {
        after = _;
        step = Step.market (MarketStep.nx_obeys e);
        flows = record { queued = f.queued; next = f.next; sent = f.sent; connected = f.connected };
      }

  -- While there is work some thread has an action.
  pub goes_on : 0 < work s → Onward env nx s
  goes_on h = at s.in_pc refl
    where
      other : s.in_pc ≡ in_done → Onward env nx s
      other i = out_at s.out_pc refl
        where
          out_at : (pc : OutPc) → s.out_pc ≡ pc → Onward env nx s
          out_at out_done e =
              market_goes_on (λ m. omega (arith, h, ap in_work i, ap out_work e, ap market_work m))
          out_at out_closing e = out_goes_on i (λ q. cc (e, q))
          out_at out_reading e = out_goes_on i (λ q. cc (e, q))
          out_at out_receiving e = out_goes_on i (λ q. cc (e, q))

      at : (pc : InPc) → s.in_pc ≡ pc → Onward env nx s
      at in_done e = other e
      at listening e = in_goes_on (λ q. cc (e, q))
      at (answering res) e = in_goes_on (λ q. cc (e, q))
