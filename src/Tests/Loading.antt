-- ===== src/Tests/Loading.antt =====
-- The tables loaded from a server at a concrete input: it knows five statements.
use nagios_snmp.Base.{
  ◌⊎◌, Fault, fault, out_of_fuel, ◌≢◌, ℕ, ◌+◌, ◌≤◌, Bool, true, List, [], ◌∷◌, ◌++◌, none, some,
  Bytes, CString, codes, equal, Result, ok, ◌>>=◌, if◌then◌else◌, ◌≡◌, refl, ap, sym, ◌∙◌, map,
  arith,
}
use nagios_snmp.Base.Int.{pos}
use nagios_snmp.Channel.{Channel}
use nagios_snmp.Exec.Start.{exec_trap}
use nagios_snmp.Config.{Options, options}
use nagios_snmp.Query.{query_init}
use nagios_snmp.Query.Lines.{file_of}
use nagios_snmp.Query.Statements.{Statement, lines_of, stored}
use nagios_snmp.Query.RoundTrip.{query_init-fetch}
use nagios_snmp.Db.Load.{db_init}
use nagios_snmp.Db.Connect.{Answer, MySql, connected_db_init}
use nagios_snmp.Db.Connect.Served.{Serves, Admits, connected_db_init-rows}
use nagios_snmp.Settings.{pipe}
use nagios_snmp.Trap.Serialize.{mode_new}
use nagios_snmp.Main.Boot.{Booted, boot}
use nagios_snmp.Main.Boot.Runs.{boot-exec_trap}
use nagios_snmp.Tests.Queries.{finds, marked, behind_prefix, matcher, matcher_marks}
use nagios_snmp.Tests.Runs.{texts, numbers, rows, loaded, loads, trap, plugin, quiet}
use nagios_snmp.Tests.Modes.{loaded_options}

abbrev statement : Bytes → Bytes → Statement
statement name text = record { name = name; first = text; more = []; after = [] ∷ [] }

abbrev statements : List Statement
statements =
    statement (codes "Q_FETCH_RESOURCES") (codes "SELECT r;")
    ∷ statement (codes "Q_FETCH_COMMANDS") (codes "SELECT c;")
    ∷ statement (codes "Q_FETCH_HOSTS") (codes "SELECT h;")
    ∷ statement (codes "Q_FETCH_SVCS") (codes "SELECT s;")
    ∷ statement (codes "Q_FETCH_TRAP_HANDLERS") (codes "SELECT t;")
    ∷ []

abbrev answer : List (List CString) → Answer
answer rows = record { rows = rows; error = some [] }

abbrev server : MySql
server = record {
  instantiated = true;
  real_connect =
      λ host user password name. equal (elim user [ none ↦ [] | some u ↦ u ]) (codes "nagios");
  takes = λ text. true;
  result = λ text.
      if equal text (codes "SELECT r;")
      then some (answer rows.resource_rows)
      else if equal text (codes "SELECT c;")
      then some (answer rows.command_rows)
      else if equal text (codes "SELECT h;")
      then some (answer rows.host_rows)
      else if equal text (codes "SELECT s;")
      then some (answer rows.svc_rows)
      else if equal text (codes "SELECT t;")
      then some (answer rows.trap_handler_rows)
      else none;
}

serves : Serves server statements rows
unfolding nagios_snmp.Util.is_empty nagios_snmp.Util.blank_to_space
serves = record {
  resources = (_, _, refl, refl, refl, refl);
  commands = (_, _, refl, refl, refl, refl);
  hosts = (_, _, refl, refl, refl, refl);
  svcs = (_, _, refl, refl, refl, refl);
  trap_handlers = (_, _, refl, refl, refl, refl);
}

admits : Admits server loaded_options
unfolding options nagios_snmp.Config.config_get_option_value nagios_snmp.Config.Load.config_load
    nagios_snmp.Util.is_empty nagios_snmp.Util.xstrdup
admits = (_, _, _, _, refl, refl, refl, refl, refl, refl)

connected_db_init-rows_example :
    (query_init matcher (some (file_of ((codes "-- queries" ∷ []) ++ lines_of statements)))
      >>= connected_db_init server texts numbers true loaded_options)
    ≡ db_init texts numbers true rows
unfolding finds marked behind_prefix
connected_db_init-rows_example =
    connected_db_init-rows texts numbers server matcher matcher_marks (codes "-- queries" ∷ [])
      statements rows loaded_options true (ground arith) (ground arith) admits serves

abbrev file : Bytes
file = file_of ((codes "-- queries" ∷ []) ++ lines_of statements)

abbrev booted : Booted texts numbers
booted = record {
  stream = pipe (codes "/usr/local/nagios/var/rw/nagios.cmd");
  db = loaded;
  trap_tokenizer = some (codes "@TRAPTKN@");
  trap_serialize_mode = mode_new;
  trap_log_delimiter = codes ",";
  trap_log = some (codes "/var/log/nagiostrapd.traps");
  stack_max_executions = pos 10000;
}

read : query_init matcher (some file) ≡ ok (map stored statements)
unfolding finds marked behind_prefix
read =
    (query_init-fetch matcher matcher_marks (codes "-- queries" ∷ []) statements [] (ground arith)
      (ground arith)).0

made :
    connected_db_init server texts numbers true loaded_options (map stored statements) ≡ ok loaded
unfolding finds marked behind_prefix
made =
    ap (λ m. m >>= connected_db_init server texts numbers true loaded_options) (sym read)
    ∙ connected_db_init-rows texts numbers server matcher matcher_marks (codes "-- queries" ∷ [])
        statements rows loaded_options true (ground arith) (ground arith) admits serves
    ∙ loads

starts :
    boot matcher server texts numbers
      (λ path. true)
      (λ path. true)
      (λ path. some file)
      true
      loaded_options
    ≡ ok booted
unfolding boot options nagios_snmp.Config.config_get_option_value
    nagios_snmp.Config.Load.config_load nagios_snmp.Util.is_empty nagios_snmp.Util.xstrdup
    nagios_snmp.Settings.channel_init nagios_snmp.Settings.trap_init
    nagios_snmp.Settings.traplog_init nagios_snmp.Settings.exec_init
    nagios_snmp.Trap.Serialize.serialize_mode_of
starts = rw read (rw made refl)

abbrev handled : Result (Bool × ℕ × Channel)
handled =
    exec_trap texts numbers plugin (λ n. true) (λ f. true) 10000 booted.db (some trap) none none
      quiet

boot-exec_trap_example :
    ((done : Bool) × (runs : ℕ) × (out : Channel) × (handled ≡ ok (done, runs, out))
      × (runs ≤ 10000 + 1))
    ⊎ ((e : Fault) × (handled ≡ fault e) × (e ≢ out_of_fuel))
boot-exec_trap_example =
    boot-exec_trap matcher server texts numbers (λ path. true) (λ path. true) (λ path. some file)
      plugin (λ n. true) (λ f. true) true loaded_options booted 10000 (some trap) none none quiet
      starts refl
