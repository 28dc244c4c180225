-- ===== src/Tests/Modes.antt =====
-- The modes of the program at concrete inputs: the command line, the standard input, the trap log
-- and the connections of a worker.
use nagios_snmp.Base.{
  ℕ, ◌+◌, Bool, Result, true, false, List, [], ◌∷◌, ◌++◌, map, none, some, Bytes, codes, ok, fault,
  garbage_ptr, ◌>>=◌, if◌then◌else◌, ◌≡◌, refl, arith,
}
use nagios_snmp.Socket.{bytes}
use nagios_snmp.Socket.Framing.{joined}
use nagios_snmp.Config.{Options, options}
use nagios_snmp.Config.Load.{config_load}
use nagios_snmp.Command.{command_expand_1}
use nagios_snmp.Exec.Start.{exec_trap}
use nagios_snmp.Log.{Log, fresh_log}
use nagios_snmp.Main.{
  Argument, letter, Args, fresh_args, parse_arguments, started_standalone, started_daemon,
  start_log,
}
use nagios_snmp.Main.Sane.{named, refused, run, main-starts}
use nagios_snmp.Standalone.{Progress, standalone_init, standalone_start_main_loop}
use nagios_snmp.Standalone.Accepts.{standalone-accepts}
use nagios_snmp.Trap.Parse.Tokens.{unwords}
use nagios_snmp.Trap.Parse.Wire.{vars_of, message_tokens}
use nagios_snmp.Trap.Parse.RoundTrip.{primary_value, trap_of}
use nagios_snmp.Trap.Serialize.{mode_new, header}
use nagios_snmp.Trap.Serialize.Contents.{assignment}
use nagios_snmp.Trap.Serialize.Bounds.{trap_serialize_fits}
use nagios_snmp.Traplog.{log_all}
use nagios_snmp.Traplog.Session.{child_thread-logged}
use nagios_snmp.Worker.{child_thread}
use nagios_snmp.Worker.Loop.{wake, WorkerState}
use nagios_snmp.Worker.Alive.{client_on, serve_all, worker_loop_alive}
use nagios_snmp.Tests.Configs.{ini, entries, system}
use nagios_snmp.Tests.Runs.{texts, numbers, loaded, quiet, plugin}
use nagios_snmp.Tests.Sessions.{settings, silent, known, known-IsSound, written, known_runs}

child_thread-logged_example :
    (child_thread texts numbers loaded settings plugin
        (λ n. true)
        (λ f. true)
        100
        5
        3
        false
        (map bytes (codes "TRAP :: h :: [1.1] :: " ∷ [])
          ++ bytes (codes ".1.3.6.1.6.3.1.1.4.1.0 .9" ++ b'\n' ∷ []) ∷ [])
        quiet
      >>= λ session. log_all mode_new (codes "; ") session.logged (codes "earlier\n"))
    ≡ ok (
        codes "earlier\n"
        ++ ((header true (codes "; ") (trap_of 100 5 (codes "1.1") (codes ".9") known)
              ++ (codes "; " ++ unwords (map assignment (vars_of known))))
            ++ codes "\n"))
unfolding joined primary_value
child_thread-logged_example =
    child_thread-logged texts numbers loaded settings plugin (λ n. true) (λ f. true) 100 5 3 false
      quiet (codes "; ") (codes "earlier\n") known (codes "TRAP :: h :: [1.1] :: " ∷ [])
      (codes ".1.3.6.1.6.3.1.1.4.1.0 .9") b'\n' [] [] (codes ":: ") (codes "1.1") [] (codes ".9")
      true 2 written known-IsSound (omega arith) refl refl refl refl refl (ground arith)
      (ground arith) refl (omega arith) known_runs ((λ e. cc), tt)

abbrev idle : WorkerState
idle = record { queue = []; sessions = []; trap_parsed = 3; channel = quiet }

worker_loop_alive_example :
    serve_all texts numbers loaded settings silent
      (λ n. true)
      (λ f. true)
      (λ n. (100, 5))
      (λ n. true)
      (map wake []
        ++ wake (
            client_on true
              (map bytes (codes "AL" ∷ []) ++ bytes (codes "IVE? you" ++ b'\n' ∷ []) ∷ []))
          ∷ [])
      idle
    ≡ ok (record idle {
      sessions =
          []
          ++ record {
            sent = if settings.send_enabled then codes "YES" ∷ codes "\n" ∷ [] else [];
            trap_parsed = 3;
            channel = quiet;
            logged = [];
            closed = true;
          }
            ∷ [];
    })
unfolding joined nagios_snmp.Worker.Loop.worker_start_main_loop
worker_loop_alive_example =
    worker_loop_alive texts numbers loaded settings silent (λ n. true) (λ f. true) (λ n. (100, 5))
      (λ n. true) [] idle idle true (codes "you" ∷ []) (codes "AL" ∷ []) (codes "IVE? you") b'\n' []
      [] (ground arith) refl refl (ground arith) (ground arith) refl (omega arith) refl

-- `-S -C a.ini -c run -O .9`
abbrev arguments : List Argument
arguments =
    letter b'S' none
    ∷ letter b'C' (some (codes "a.ini"))
    ∷ letter b'c' (some (codes "run"))
    ∷ letter b'O' (some (codes ".9"))
    ∷ []

abbrev parsed : Args
parsed = record {
  config_file = some (codes "a.ini");
  is_daemon = false;
  command = some (codes "run");
  oid = some (codes ".9");
  trap_tokenizer = none;
  print_diagnostics = false;
  dump_config = false;
  verbose = true;
  print_help = false;
  print_version = false;
  username = none;
  groupname = none;
}

abbrev pub loaded_options : Options
loaded_options = elim (config_load system (ini entries) (some (codes "a.ini")) none options) [
  | ok os ↦ os
  | fault e ↦ options
]

abbrev started_log : Log
started_log =
    elim (start_log (ini entries) system (λ name. none) (λ name. none) (λ name. true) options parsed
      loaded_options) [ ok log ↦ log | fault e ↦ fresh_log ]

main-starts_example :
    run (ini entries) system (λ name. none) (λ name. none) (λ name. true) options arguments ≡ (
      if parsed.is_daemon
      then (do
        uid ← named (λ name. none) parsed.username
        gid ← named (λ name. none) parsed.groupname
        ok (started_daemon uid gid loaded_options started_log))
      else (do
        checked ← refused (standalone_init parsed.oid parsed.command)
        ok (started_standalone parsed.oid parsed.command loaded_options started_log)))
unfolding parse_arguments fresh_args options nagios_snmp.Util.is_empty nagios_snmp.Util.xstrdup
    config_load start_log nagios_snmp.Config.config_get_option_value
main-starts_example =
    main-starts (ini entries) system (λ name. none) (λ name. none) (λ name. true) options arguments
      parsed loaded_options started_log refl refl refl refl

abbrev begun : Progress
begun = record { printed = []; trap_parsed = 3; channel = quiet }

abbrev text : Bytes
text =
    header true (codes ",") (trap_of 100 5 (codes "1.1") (codes ".9") known)
    ++ (codes "," ++ unwords (map assignment (vars_of known)))

standalone-accepts_example :
    (standalone_start_main_loop texts numbers loaded settings mode_new plugin
        (λ n. true)
        (λ f. true)
        100
        5
        (some (codes ".9"))
        (some (codes "run"))
        ((unwords (message_tokens (codes "::") known) ++ codes "\n") ∷ [])
        begun
      ≡ ok (record {
        printed =
            begun.printed
            ++ codes "ACCEPTED\n"
              ∷ codes "=== begin serialized trap ===\n"
              ∷ (text ++ codes "\n")
              ∷ codes "=== end   serialized trap ===\n"
              ∷ [];
        trap_parsed = 3 + 1;
        channel = quiet;
      }))
    × (standalone_start_main_loop texts numbers loaded settings mode_new plugin
          (λ n. true)
          (λ f. true)
          100
          5
          (some (codes ".9"))
          (some (codes "run"))
          ((unwords (message_tokens (codes "::") known) ++ codes "\n") ∷ codes "ALIVE?\n" ∷ [])
          begun
        ≡ fault garbage_ptr)
unfolding primary_value command_expand_1 exec_trap loaded nagios_snmp.Base.tokens
    nagios_snmp.Db.db_lookup_host_by_cmd_id nagios_snmp.Db.db_extract_host_address
    nagios_snmp.Db.db_extract_expanded_text nagios_snmp.Db.db_lookup_svc_by_cmd_id
    nagios_snmp.Db.db_extract_host_name nagios_snmp.Base.Decimal.decimal
    nagios_snmp.Base.Decimal.decimal_int
standalone-accepts_example =
    standalone-accepts texts numbers loaded settings mode_new plugin (λ n. true) (λ f. true) 100 5
      known (codes ":: ") (codes "1.1") [] (codes ".9") (some (codes ".9")) (some (codes "run"))
      (some (codes "run")) begun true 1 quiet text (codes "ALIVE?\n") [] known-IsSound (omega arith)
      refl refl refl refl refl refl
      ((trap_serialize_fits 100 5 (codes "1.1") (codes ".9") (codes ",") known true
        ((λ e. cc), tt)).0)
