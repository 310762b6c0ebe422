-- ===== src/Cmd/Usage.antt =====
-- main.win.cc, `cmd_print_usage`: the text that a wrong command line prints.
use wineing.Prelude.{◌++◌}
use wineing.Prelude.Memory.{Bytes, codes}

unfoldable pub cmd_print_usage : Bytes
cmd_print_usage =
    codes
      "Usage: wineing.exe --cchan-in=<fqcn> --cchan-out=<fqcn> --mchan=<fqcn> [--tape-root=<dir>]\n\n"
    ++ codes "Wineing TBD.\n\n"
    ++ codes "ZMQ channels:\n"
    ++ codes "  --cchan-in       Incoming control messages channel (binds to a\n"
    ++ codes "                   ZMQ PULL socket)\n"
    ++ codes "  --cchan-out      Outgoing control messages channel (binds to a\n"
    ++ codes "                   ZMQ PUSH socket)\n"
    ++ codes "  --mchan          Market data channel (binds to a ZMQ PUB socket\n"
    ++ codes "                   socket)\n"
    ++ codes "NxCore related options:\n"
    ++ codes "  [--tape-root]    The directory from which to serve the tape files\n"
    ++ codes "                   Defaults to 'C:\\md\\'. The path has to end in '\\'\n"
