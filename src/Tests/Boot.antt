-- ===== src/Tests/Boot.antt =====
-- The threads' start: a market thread that comes late, and a program that cannot open its channels.
use wineing.Boot.Hangs.Unsent.{Unsendable, late_response_hangs}
use wineing.Prelude.{
  ℕ, ℤ, pos, negsuc, ◌≡◌, ◌≢◌, ◌↔◌, ◌⊎◌, ◌==◌, inl, inr, refl, true, [], ◌∷◌, none, some, arith,
}
use wineing.Ctrl.{cmd_shutdown}
use wineing.Proto.{shutdown, shutdown_ok}
use wineing.Chan.{ZmqRecv}
use wineing.Chan.Socket.{
  Zmq, chan_init, chan_bind, attach, chan_type_pub, chan_type_pull_bind, chan_type_push_connect,
}
use wineing.Control.{respond, signal, in_start}
use wineing.Control.Owner.{published, published-IsOwner}
use wineing.Control.Outcome.{process-shutdown}
use wineing.Control.Round.{recv-request}
use wineing.Reader.{read_shared, reader_init}
use wineing.Reader.Fresh.{refreshed, read_shared-changed}
use wineing.Program.{InStep, OutStep}
use wineing.Boot.{bind_fails, Boot, Endpoints, Opens, OutOpens, Step, Reach, here, next, boot}
use wineing.Boot.Safety.{Returned, AllFailed, IsShutDown, returns_when}
use wineing.Boot.Sockets.{sockets, failures}
use wineing.Boot.Sockets.Clean.{Clean}
use wineing.Boot.Sockets.Left.{shutdown_waits}
use wineing.Chan.Sockets.{chan_shutdown}
use wineing.Boot.Ending.{open_zmq, open_zmq-opens, open_zmq-IsInproc, run_returns}
use wineing.Chan.Sockets.{ichan_name}
use wineing.Tests.Data.{
  request, env, memory, memory-IsAllocated, length-memory, s₀, s₀-IsOwner, nx, codec,
}
use wineing.Prelude.Memory.{Bytes, codes}

abbrev pub ports : Endpoints
ports = record {
  cchan_in = codes "tcp://*:9990";
  cchan_out = codes "tcp://*:9991";
  mchan = codes "tcp://*:9992";
}

-- ZeroMQ whose binds and connects return `rc`.
abbrev zmq : ℤ → Zmq
zmq rc = record {
  types = record { zmq_pub = 1; zmq_sub = 2; zmq_push = 8; zmq_pull = 7; zmq_req = 3; zmq_rep = 4 };
  has_socket = λ t. true;
  bind_rc = λ e. rc;
  connect_rc = λ e. rc;
}

abbrev pub b₀ : Boot
b₀ = boot memory memory memory memory memory

-- The response thread is in its loop, and the control thread has bound `cchan_in`.
abbrev bound : (s : Boot) × Reach env nx ports b₀ 3 s
bound = (
  _,
  next
      (next
        (next here (
          Step.out_opens
            (OutOpens.binds_out open_zmq refl (open_zmq-opens ports.cchan_out chan_type_pub))))
        (Step.out_opens
          (OutOpens.binds_inproc open_zmq refl (open_zmq-opens ichan_name chan_type_pull_bind))))
      (Step.in_opens
        (Opens.binds open_zmq refl (open_zmq-opens ports.cchan_in chan_type_pull_bind))),
)

-- The control thread is in its loop, and the market thread has bound `mchan`.
abbrev opened : (s : Boot) × Reach env nx ports b₀ 5 s
opened = (
  _,
  next
      (next bound.1 (
        Step.in_opens (
          Opens.connects open_zmq refl (open_zmq-IsInproc bound.0 refl)
            (open_zmq-opens ichan_name chan_type_push_connect))))
      (Step.market_opens (Opens.binds open_zmq refl (open_zmq-opens ports.mchan chan_type_pub))),
)

abbrev heard : ZmqRecv
heard = record { rc = pos 0; message = 2 ∷ [] }

-- A shutdown request is processed.
abbrev pub shut : (s : Boot) × Reach env nx ports b₀ 6 s
unfolding in_start
shut = (
  _,
  next opened.1 (
      Step.in_runs refl (
        InStep.hears heard (pos 1) (request shutdown none)
          (respond (request shutdown none) shutdown_ok) (signal (published cmd_shutdown s₀)) refl
          refl (recv-request codec heard (request shutdown none) refl refl (omega arith)) refl
          (process-shutdown env (request shutdown none) s₀ s₀-IsOwner.ready refl))),
)

-- The market thread still sleeps when the response thread reads the shutdown and leaves.
pub shut-read :
    read_shared shut.0.program.control.shared shut.0.program.out.reader
    ≡ some (refreshed shut.0.program.control.shared shut.0.program.out.reader)
unfolding in_start signal published reader_init
shut-read =
    read_shared-changed shut.0.program.control.shared shut.0.program.out.reader
      (published-IsOwner cmd_shutdown s₀ s₀-IsOwner.ready).ready.shared_valid
      (record { allocated = length-memory; within = omega arith }) (λ e. cc)

pub shut-leaves :
    ((refreshed shut.0.program.control.shared shut.0.program.out.reader).t_data.cmd == cmd_shutdown)
    ≡ true
unfolding in_start signal published refreshed wineing.Ctrl.Copy.copied
shut-leaves = refl

abbrev late : (s : Boot) × Reach env nx ports b₀ 8 s
unfolding in_start
late = (
  _,
  next (next shut.1 (Step.out_runs refl (OutStep.out_leaves _ refl shut-read shut-leaves)))
      (Step.out_runs refl (OutStep.out_closes refl)),
)

late_response_hangs_example :
    Unsendable (respond (request shutdown none) shutdown_ok) late.0 × (¬ Returned late.0)
unfolding in_start
late_response_hangs_example =
    late_response_hangs {env = env} {nx = nx} {e = ports}
      (record { in_inside = refl; to_send = refl; closed = refl }) here

codes_differ : nx.callback_stop ≢ nx.callback_continue
codes_differ e = cc

-- The market thread gets in, and all three leave.
run_returns_example :
    (k : ℕ) × (u : Boot) × Returned u × (q : Reach env nx ports shut.0 k u) × Clean q
unfolding in_start signal published wineing.Ctrl.Copy.copied
run_returns_example =
    run_returns memory-IsAllocated codes_differ shut.1 (omega arith) refl (inr (λ e. cc, λ e. cc))
      (record { queued = tt; next = omega arith; sent = refl; connected = refl })

-- No endpoint can be bound.
none_binds : (fqcn : Bytes) → bind_fails (zmq (negsuc 0)) fqcn chan_type_pub ≡ true
unfolding chan_bind chan_init attach
none_binds fqcn = refl

none_binds_in : (fqcn : Bytes) → bind_fails (zmq (negsuc 0)) fqcn chan_type_pull_bind ≡ true
unfolding chan_bind chan_init attach
none_binds_in fqcn = refl

abbrev refused : (s : Boot) × Reach env nx ports b₀ 3 s
refused = (
  _,
  next
      (next
        (next here (
          Step.out_opens
            (OutOpens.gives_up_out (zmq (negsuc 0)) refl (none_binds ports.cchan_out))))
        (Step.in_opens (Opens.gives_up (zmq (negsuc 0)) refl (none_binds_in ports.cchan_in))))
      (Step.market_opens (Opens.gives_up (zmq (negsuc 0)) refl (none_binds ports.mchan))),
)

returns_when_example : AllFailed refused.0 ⊎ IsShutDown refused.0
returns_when_example =
    returns_when memory-IsAllocated refused.1 (omega arith)
      (record { of_in = inl refl; of_out = inl refl; of_market = inl refl })

-- The response thread's inproc channel cannot be bound, nor can the others' first ones.
abbrev half_refused : (s : Boot) × Reach env nx ports b₀ 4 s
unfolding chan_bind chan_init attach
half_refused = (
  _,
  next
      (next
        (next
          (next here (
            Step.out_opens
              (OutOpens.binds_out open_zmq refl (open_zmq-opens ports.cchan_out chan_type_pub))))
          (Step.out_opens (OutOpens.gives_up_inproc (zmq (negsuc 0)) refl refl)))
        (Step.in_opens (Opens.gives_up (zmq (negsuc 0)) refl (none_binds_in ports.cchan_in))))
      (Step.market_opens (Opens.gives_up (zmq (negsuc 0)) refl (none_binds ports.mchan))),
)

shutdown_waits_example :
    (sockets half_refused.1 ≡ failures half_refused.1)
    × ((chan_shutdown (sockets half_refused.1) true ≡ true)
        ↔ ((failures half_refused.1 ≡ 0) × (true ≡ true)))
unfolding chan_bind chan_init attach
shutdown_waits_example =
    shutdown_waits memory memory memory memory memory half_refused.1 true
      ((((tt, refl), refl), refl), refl)
      (record { of_in = inl refl; of_out = inl refl; of_market = inl refl })

half_refused-left : sockets half_refused.1 ≡ 4
unfolding sockets wineing.Chan.Sockets.open_chan chan_bind chan_init attach
half_refused-left = refl
