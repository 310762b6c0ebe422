-- ===== src/Program/Leaks.antt =====
-- impl/all/core/wineing.cc and impl/wine/nx/nxtape.cc: the buffers that the threads and the callback
-- allocate for messages, over a run of the program.
use wineing.Prelude.{ℕ, ℤ, ◌+◌, ◌≡◌, true, false, ◌==◌, if◌then◌else◌}
use wineing.Chan.Buffers.{send_buffer}
use wineing.Control.{Env}
use wineing.Market.{NxCore}
use wineing.Program.{
  OutPc, out_receiving, World, InStep, OutStep, MarketStep, Step, Reach, here, next,
}

-- The buffers after an action, once ZeroMQ is done with the messages that it took over. The response
-- thread allocates one after its read, before its receive.
abbrev in_buffers : {env : Env} {s t : World} → InStep env s t → ℕ → ℕ
in_buffers (InStep.answers rc res c i h e) n = send_buffer true rc (n + 1)
in_buffers _ n = n

abbrev out_buffers : {s t : World} → OutStep s t → ℕ → ℕ
out_buffers (OutStep.out_reads r p e c) n = n + 1
out_buffers (OutStep.passes t m rest st p q a z l e) n = send_buffer true t.send_rc n
out_buffers _ n = n

abbrev callback_buffers : NxCore → ℕ → ℤ → ℕ → ℕ
callback_buffers nx message rc n =
    if message == nx.msg_status then send_buffer false rc (n + 1) else n

abbrev market_buffers : {env : Env} {nx : NxCore} {s t : World} → MarketStep env nx s t → ℕ → ℕ
market_buffers {nx} (MarketStep.nx_calls message rc n p e) k = callback_buffers nx message rc k
market_buffers {nx} (MarketStep.nx_stops message rc n p e) k = callback_buffers nx message rc k
market_buffers _ k = k

abbrev step_buffers : {env : Env} {nx : NxCore} {s t : World} → Step env nx s t → ℕ → ℕ
step_buffers (Step.control m) n = in_buffers m n
step_buffers (Step.out m) n = out_buffers m n
step_buffers (Step.market m) n = market_buffers m n

-- Over a run.
unfoldable pub buffers :
    {env : Env} {nx : NxCore} {w : World} {n : ℕ} {s : World} → Reach env nx w n s → ℕ
buffers here = 0
buffers (next r st) = step_buffers st (buffers r)

-- The receives of the response thread that failed.
abbrev failed_out : {s t : World} → OutStep s t → ℕ
failed_out (OutStep.fails t st p a z e) = 1
failed_out _ = 0

abbrev failed_step : {env : Env} {nx : NxCore} {s t : World} → Step env nx s t → ℕ
failed_step (Step.out st) = failed_out st
failed_step _ = 0

unfoldable pub failed_receives :
    {env : Env} {nx : NxCore} {w : World} {n : ℕ} {s : World} → Reach env nx w n s → ℕ
failed_receives here = 0
failed_receives (next r st) = failed_receives r + failed_step st

-- The status messages that NxCore gave to the callback.
abbrev is_status : NxCore → ℕ → ℕ
is_status nx message = if message == nx.msg_status then 1 else 0

abbrev status_market : {env : Env} {nx : NxCore} {s t : World} → MarketStep env nx s t → ℕ
status_market {nx} (MarketStep.nx_calls message rc n p e) = is_status nx message
status_market {nx} (MarketStep.nx_stops message rc n p e) = is_status nx message
status_market _ = 0

abbrev status_step : {env : Env} {nx : NxCore} {s t : World} → Step env nx s t → ℕ
status_step (Step.market st) = status_market st
status_step _ = 0

unfoldable pub status_messages :
    {env : Env} {nx : NxCore} {w : World} {n : ℕ} {s : World} → Reach env nx w n s → ℕ
status_messages here = 0
status_messages (next r st) = status_messages r + status_step st

-- The buffer that the response thread receives into.
abbrev pub in_use : OutPc → ℕ
in_use out_receiving = 1
in_use _ = 0

abbrev Balanced : ℕ → ℕ → ℕ → World → Type 0
Balanced b f m s = b ≡ s.unsent + s.dropped + f + m + in_use s.out_pc
