-- ===== src/Tests/Program.antt =====
-- The command line, the program's life and the platform's functions at concrete inputs.
use wineing.Log.{log, log_level, log_info, log_none}
use wineing.Nx.Linux.{wininf_nxcore_load, wininf_nxcore_run, nxtape_process}
use wineing.Prelude.{
  ℕ, pos, negsuc, ◌≡◌, ◌↔◌, refl, true, false, List, [], ◌∷◌, ◌++◌, map, none, some, if◌then◌else◌,
}
use wineing.Prelude.Memory.{codes}
use wineing.Nx.{FileApi, wininf_file_exists, wininf_file_exists_lem}
use wineing.Cmd.{default_conf, cmd_parse, parse_args, parse_arg, configured, usage}
use wineing.Cmd.Options.{
  Opt, cchan_in, cchan_out, mchan, spell, apply_all, see_all, none_seen, is_complete,
  cmd_parse-spell,
}
use wineing.App.{main}
use wineing.App.Lifecycle.{outcome, main-spell}
use wineing.Chan.Socket.{Zmq, Chan, socket, chan_bind}

abbrev options : List Opt
options =
    mchan (codes "tcp://*:1")
    ∷ cchan_in (codes "a")
    ∷ cchan_out (codes "b")
    ∷ cchan_in (codes "c=d")
    ∷ []

cmd_parse-spell_example :
    cmd_parse (map spell options) default_conf
    ≡ some (
        if is_complete (see_all options none_seen)
        then configured (apply_all options default_conf)
        else usage)
cmd_parse-spell_example = cmd_parse-spell options default_conf

main-spell_example :
    main (map spell options) true
    ≡ some (outcome (apply_all options default_conf) (is_complete (see_all options none_seen)) true)
main-spell_example = main-spell options true

short_option : cmd_parse (codes "--mchan=a" ∷ codes "--c" ∷ []) default_conf ≡ none
unfolding cmd_parse parse_args parse_arg
short_option = refl

-- A disk with one directory.
abbrev directory : FileApi
directory = record {
  get_file_attributes = λ p. 0x10;
  invalid_file_attributes = 0xffff_ffff;
  file_attribute_directory = 0x10;
}

wininf_file_exists_lem_example :
    (wininf_file_exists directory (codes "C:\\") ≡ negsuc 0) ↔ (◌≡◌ {A = ℕ} 0x10 0xffff_ffff)
wininf_file_exists_lem_example =
    wininf_file_exists_lem directory (codes "C:\\") (record { invalid = refl; directory = refl })

abbrev zmq : Zmq
zmq = record {
  types = record { zmq_pub = 1; zmq_sub = 2; zmq_push = 8; zmq_pull = 7; zmq_req = 3; zmq_rep = 4 };
  has_socket = λ t. true;
  bind_rc = λ e. pos 0;
  connect_rc = λ e. negsuc 0;
}

abbrev invalid_chan : Chan
invalid_chan = record { fqcn = codes "tcp://a"; type = 9; sock = false }

-- A channel of an invalid type gets a socket of type 0, and nothing is bound.
invalid_opens :
    chan_bind zmq invalid_chan ≡ (pos 0, record invalid_chan { sock = true }, socket 0 ∷ [])
unfolding chan_bind
invalid_opens = refl

-- A build with `DEBUG` logs a line at `LOG_INFO`, and one for `LOG_NONE` does not; a level that has no
-- name is read out of bounds.
logged :
    log
      (log_level true none)
      log_info
      (codes "12:00")
      (codes "Starting")
      (codes "main.cc")
      (codes "28")
      []
    ≡ some (codes "12:00: [INFO ] Starting (main.cc:28)" ++ 10 ∷ [])
unfolding log
logged = refl

not_logged :
    log
      (log_level true (some log_none))
      log_info
      (codes "12:00")
      []
      (codes "main.cc")
      (codes "28")
      []
    ≡ some []
unfolding log
not_logged = refl

no_level : log (log_level false none) 6 (codes "12:00") [] (codes "main.cc") (codes "28") [] ≡ none
unfolding log
no_level = refl

-- The stubs for Linux report success, whatever the tape is.
no_nxcore : wininf_nxcore_run (codes "a.nx") false ≡ some (pos 0, false)
no_nxcore = refl

no_callback : nxtape_process 1 wininf_nxcore_load ≡ some (pos 0, pos 0)
no_callback = refl

line_break : codes "C:\\\n" ≡ 67 ∷ 58 ∷ 92 ∷ 10 ∷ []
line_break = refl
