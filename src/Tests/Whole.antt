-- ===== src/Tests/Whole.antt =====
-- The program from its command line to its end.
use wineing.Prelude.{pos, ◌≡◌, refl, inr, map, List, [], ◌∷◌, none, some, true, arith}
use wineing.Ctrl.{cmd_shutdown}
use wineing.Proto.{shutdown, shutdown_ok}
use wineing.Control.{respond, signal, in_start}
use wineing.Control.Owner.{published}
use wineing.Chan.Socket.{chan_init, chan_bind, chan_type_push_connect}
use wineing.Chan.Sockets.{ichan_name, open_chan, chan_destroy, chan_shutdown}
use wineing.Cmd.{default_conf}
use wineing.Cmd.Options.{
  Opt, cchan_in, cchan_out, mchan, tape_root, spell, cmd_parse-spell, apply_all,
}
use wineing.App.{wineing_init}
use wineing.App.Whole.{Host, Finished, Orderly, main_ends}
use wineing.Reader.{reader_init}
use wineing.Reader.Fresh.{refreshed}
use wineing.Market.{leaving, market_turn}
use wineing.Program.{InStep, OutStep, MarketStep}
use wineing.Program.Ending.Onward.{reply-sent}
use wineing.Boot.{Boot, Opens, Step, Reach, next}
use wineing.Boot.Ending.{open_zmq, open_zmq-opens, open_zmq-IsInproc}
use wineing.Boot.Sockets.{sockets, close_both}
use wineing.Nx.{wininf_nxcore_load}
use wineing.Tests.Boot.{ports, b₀, shut, shut-read, shut-leaves}
use wineing.Tests.Data.{request, env, nx, codec, memory, memory-IsAllocated, s₀}

abbrev host : Host
host = record {
  file_exists = env.file_exists;
  codec = codec;
  nx = nx;
  g_memory = memory;
  in_memory = memory;
  out_memory = memory;
  market_memory = memory;
  tape_memory = memory;
}

abbrev options : List Opt
options =
    cchan_in ports.cchan_in
    ∷ cchan_out ports.cchan_out
    ∷ mchan ports.mchan
    ∷ tape_root env.tape_basedir
    ∷ []

market_leaves :
    market_turn shut.0.program.control.shared shut.0.program.market
    ≡ some (leaving, refreshed shut.0.program.control.shared shut.0.program.market)
unfolding in_start signal published reader_init market_turn refreshed wineing.Ctrl.Copy.copied
market_leaves = rw shut-read refl

-- The market thread joins, the response is sent, and the three loops end.
abbrev ended : (s : Boot) × Reach env nx ports b₀ 12 s
unfolding in_start signal published
ended = (
  _,
  next
      (next
        (next
          (next
            (next
              (next shut.1 (
                Step.market_opens (
                  Opens.connects open_zmq refl (open_zmq-IsInproc shut.0 refl)
                    (open_zmq-opens ichan_name chan_type_push_connect))))
              (Step.in_runs refl (
                InStep.answers (pos 0) (respond (request shutdown none) shutdown_ok) _ refl refl (
                  reply-sent env (respond (request shutdown none) shutdown_ok)
                    (signal (published cmd_shutdown s₀))))))
            (Step.in_runs refl (InStep.in_leaves refl refl)))
          (Step.out_runs refl (OutStep.out_leaves _ refl shut-read shut-leaves)))
        (Step.out_runs refl (OutStep.out_closes refl)))
      (Step.market_runs refl (MarketStep.market_reads leaving _ refl market_leaves)),
)

abbrev finished : Finished host (map spell options) true
unfolding in_start signal published wineing_init wininf_nxcore_load sockets chan_shutdown close_both
    chan_destroy open_chan chan_bind chan_init
finished = record {
  conf = apply_all options default_conf;
  parsed = cmd_parse-spell options default_conf;
  tape_dir = env.tape_basedir;
  ports = ports;
  read = refl;
  init = refl;
  steps = 12;
  last = ended.0;
  run = ended.1;
  joined = record {
    of_in = inr (refl, refl);
    of_out = inr (refl, refl);
    of_market = inr (refl, refl);
  };
  sent = true;
  closed = refl;
}

main_ends_example : Orderly options finished
unfolding in_start signal published chan_bind chan_init finished
main_ends_example =
    main_ends options memory-IsAllocated finished
      ((((((((((((tt, refl), refl), refl), refl), refl), tt), refl), tt), tt), tt), tt), tt)
      (omega arith)
