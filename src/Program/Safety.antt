-- ===== src/Program/Safety.antt =====
-- impl/all/core/wineing.cc: what the program never does, in any order of its threads' actions.
use mathlib.Core.List.{Sublistᴰ}
use wineing.Prelude.{ℕ, ◌+◌, ◌≡◌, ◌++◌, arith, length, ◌<◌, length-append, ◌⊎◌, inl, inr, ap}
use wineing.Prelude.Memory.{Bytes}
use wineing.Ctrl.{default_data_size}
use wineing.Control.{Env}
use wineing.Control.Spec.{down, told}
use wineing.Market.{NxCore}
use wineing.Program.{in_done, out_done, market_done, World, Reach, here, next, start}
use wineing.Program.Invariant.{Inv, Bounded, answer_count, start-Inv, is_looping}
use wineing.Program.Moves.{Step-Inv, Step-heard}
use native.Mathlib.Decide.{dec_lt}
use wineing.Program.Answers.Sublists.{Sublist-same}
use wineing.Program.Answers.{length-pending, Told, expected, pending, start-Told}
use wineing.Program.Answers.Moves.{Step-Told}

-- The five buffers have their size.
pub record IsAllocated (g i o m t : Bytes) : Type 0 where
  pub of_g : length g ≡ default_data_size
  pub of_in : length i ≡ default_data_size
  pub of_out : length o ≡ default_data_size
  pub of_market : length m ≡ default_data_size
  pub of_tape : length t ≡ default_data_size

pub Reach-Inv :
    {env : Env} {nx : NxCore} {s : World} {n : ℕ} {t : World}
    → Inv s
    → Reach env nx s n t
    → Bounded t
    → Inv t
Reach-Inv v here b = v
Reach-Inv v (next r st) b = Step-Inv st b (Reach-Inv v r (omega (arith, Step-heard st)))

module _ {env : Env} {nx : NxCore} {g i o m t : Bytes} (a : IsAllocated g i o m t) where
  pub reached-Inv : {n : ℕ} {s : World} → Reach env nx (start g i o m t) n s → Bounded s → Inv s
  reached-Inv = Reach-Inv (start-Inv g i o m t a.of_g a.of_in a.of_out a.of_market a.of_tape)

  pub Reach-Told : {n : ℕ} {s : World} → Reach env nx (start g i o m t) n s → Bounded s → Told env s
  Reach-Told here b = start-Told env g i o m t
  Reach-Told (next r st) b =
      Step-Told st (reached-Inv r (omega (arith, Step-heard st)))
        (Reach-Told r (omega (arith, Step-heard st)))

  -- What the clients get, what waits in the inproc channel and what is about to be sent to it is, in
  -- this order, a subsequence of the abstract machine's responses to the requests that were
  -- processed, in every order of the threads' actions. Exactly as many responses are missing from it
  -- as sends have failed, so no response is invented, doubled or overtaken, and where no send has
  -- failed it is all of them. Fewer than 2^32 - 1 requests have been processed.
  pub answers_in_order :
      {n : ℕ} {s : World}
      → Reach env nx (start g i o m t) n s
      → Bounded s
      → Sublistᴰ ((s.out.sent ++ s.queue) ++ pending env s.in_pc) (expected env s.heard)
        × (length s.out.sent + length s.queue + answer_count s.in_pc + s.unsent + s.dropped
            ≡ length (expected env s.heard))
        × ((0 < s.unsent + s.dropped)
            ⊎ (((s.out.sent ++ s.queue) ++ pending env s.in_pc) ≡ expected env s.heard))
  answers_in_order {n} {s} r b =
      let w = Reach-Told r b in
      (
        w.kept,
        w.counted,
        elim (dec_lt 0 (s.unsent + s.dropped)) [
          | yes l ↦ inl l
          | no l ↦ inr (
              Sublist-same w.kept (
                omega (
                  arith,
                  w.counted,
                  l,
                  length-append (s.out.sent ++ s.queue) (pending env s.in_pc),
                  length-append s.out.sent s.queue,
                  length-pending env s.in_pc,
                )))
        ],
      )

  -- The loops end only after a shutdown request, in every order of the threads' actions: if a thread
  -- has left its loop then the published command is a shutdown. Fewer than 2^32 - 1 requests have
  -- been processed.
  pub leaves_after_shutdown :
      {n : ℕ} {s : World}
      → Reach env nx (start g i o m t) n s
      → Bounded s
      → (s.in_pc ≡ in_done) ⊎ ((s.out_pc ≡ out_done) ⊎ (s.market_pc ≡ market_done))
      → told s.control ≡ down
  leaves_after_shutdown r b (inl e) = (reached-Inv r b).in_left e
  leaves_after_shutdown r b (inr (inl e)) = (reached-Inv r b).out_left (ap is_looping e)
  leaves_after_shutdown r b (inr (inr e)) = (reached-Inv r b).market_left e
