-- ===== src/Main.antt =====
-- src/main.c: from the command line to the main loop. What `getopt_long` gives in turn is an
-- argument, and so are the tables of users and groups; what is printed on the way is left out.
pub mod Sane
pub mod Boot
use nagios_snmp.Base.{
  ℕ, Bool, true, false, not, ◌&&◌, ◌||◌, List, [], ◌∷◌, Option, none, some, Bytes, CString, Result,
  ok, fault, assertion, exit_failure, ◌>>=◌, ◌==◌, if◌then◌else◌,
}
use nagios_snmp.Util.{is_empty}
use nagios_snmp.Config.{Options, config_dump, config_get_option_value}
use nagios_snmp.Config.Load.{Ini, System, config_load}
use nagios_snmp.Log.{Log, fresh_log, log_init}
use nagios_snmp.Base.{codes}

-- The long options that set a variable of their own.
pub data LongFlag : Type 0 where
  daemon standalone quiet verbose diagnostics dump_config help version : LongFlag

-- What a call of `getopt_long` gives: 0 behind such an option, or a letter and `optarg`.
pub data Argument : Type 0 where
  long : LongFlag → Argument
  letter : ℕ → CString → Argument

-- The static variables, and whether there are trailing arguments.
pub record Args : Type 0 where
  pub config_file : CString
  pub is_daemon : Bool
  pub command : CString
  pub oid : CString
  pub trap_tokenizer : CString
  pub print_diagnostics : Bool
  pub dump_config : Bool
  pub verbose : Bool
  pub print_help : Bool
  pub print_version : Bool
  pub username : CString
  pub groupname : CString

unfoldable pub fresh_args : Args
fresh_args = record {
  config_file = none;
  is_daemon = true;
  command = none;
  oid = none;
  trap_tokenizer = none;
  print_diagnostics = false;
  dump_config = false;
  verbose = true;
  print_help = false;
  print_version = false;
  username = none;
  groupname = none;
}

unfoldable pub set_flag : LongFlag → Args → Args
set_flag daemon a = record a { is_daemon = true }
set_flag standalone a = record a { is_daemon = false }
set_flag quiet a = record a { verbose = false }
set_flag verbose a = record a { verbose = true }
set_flag diagnostics a = record a { print_diagnostics = true }
set_flag dump_config a = record a { dump_config = true }
set_flag help a = record a { print_help = true }
set_flag version a = record a { print_version = true }

-- The `switch`; any other letter aborts.
unfoldable pub set_letter : ℕ → CString → Args → Result Args
set_letter c optarg a =
    if c == b'C'
    then ok (record a { config_file = optarg })
    else if c == b'c'
    then ok (record a { command = optarg })
    else if c == b'd'
    then ok (record a { print_diagnostics = true })
    else if c == b'D'
    then ok (record a { is_daemon = true })
    else if c == b'g'
    then ok (record a { groupname = optarg })
    else if c == b'O'
    then ok (record a { oid = optarg })
    else if c == b'q'
    then ok (record a { verbose = false })
    else if c == b'S'
    then ok (record a { is_daemon = false })
    else if c == b'T'
    then ok (record a { trap_tokenizer = optarg })
    else if c == b'u'
    then ok (record a { username = optarg })
    else if c == b'v'
    then ok (record a { verbose = true })
    else if c == b'?'
    then ok a
    else fault assertion

unfoldable pub parse_arguments : List Argument → Args → Result Args
unfolding set_flag set_letter
parse_arguments [] a = ok a
parse_arguments (long flag ∷ more) a = parse_arguments more (set_flag flag a)
parse_arguments (letter c optarg ∷ more) a = do
  next ← set_letter c optarg a
  parse_arguments more next

-- The id behind `-u` or `-g`: 0 with no name or in standalone mode; an unknown name ends the program.
unfoldable pub id_of : (Bytes → Option ℕ) → Bool → CString → Result ℕ
id_of find is_daemon none = ok 0
id_of find is_daemon (some name) =
    if is_empty (some name)
    then ok 0
    else if not is_daemon
    then ok 0
    else elim (find name) [ none ↦ fault exit_failure | some id ↦ ok id ]

-- How the program goes on.
pub data Ending : Type 0 where
  printed_version : Ending
  printed_help : Ending
  dumped : Bytes → Ending
  diagnosed : Options → Ending
  started_daemon : ℕ → ℕ → Options → Log → Ending
  started_standalone : CString → CString → Options → Log → Ending

-- The checks on the mode.
unfoldable pub check_mode : Args → Result (Unit {0})
check_mode a =
    if not a.is_daemon && is_empty a.command
    then fault exit_failure
    else if not a.is_daemon && is_empty a.oid
    then fault exit_failure
    else ok tt

module _ (I : Ini) (sys : System) (getpwnam getgrnam : Bytes → Option ℕ)
    (opens_log : CString → Bool) (options : Options) where
  -- `log_init(is_daemon && !print_diagnostics, verbose)`: the options are read for a daemon only.
  unfoldable pub open_log : Bool → Bool → Options → Result Log
  unfolding log_init
  open_log false is_verbose os = log_init false is_verbose none true fresh_log
  open_log true is_verbose os = do
    verbosity ← config_get_option_value (codes ":log_verbosity") os
    error_log ← config_get_option_value (codes ":error_log") os
    log_init true is_verbose verbosity (opens_log error_log) fresh_log

  unfoldable pub start_log : Args → Options → Result Log
  unfolding open_log
  start_log a os =
      open_log (a.is_daemon && not a.print_diagnostics)
        (a.verbose && not (a.print_diagnostics || a.dump_config)) os

  unfoldable pub start : ℕ → ℕ → Args → Options → Result Ending
  start uid gid a os = do
    log ← start_log a os
    ok (
        if a.print_diagnostics
        then diagnosed os
        else if a.is_daemon
        then started_daemon uid gid os log
        else started_standalone a.oid a.command os log)

  unfoldable pub configure : Args → Result Ending
  unfolding check_mode id_of config_load config_dump start
  configure a = do
    checked ← check_mode a
    uid ← id_of getpwnam a.is_daemon a.username
    gid ← id_of getgrnam a.is_daemon a.groupname
    os ← config_load sys I a.config_file a.trap_tokenizer options
    if a.dump_config then ok (dumped (config_dump os)) else start uid gid a os

  unfoldable pub main : List Argument → Result Ending
  unfolding parse_arguments configure fresh_args
  main arguments = do
    a ← parse_arguments arguments fresh_args
    if a.print_version
        then ok printed_version
        else if a.print_help
        then ok printed_help
        else configure a
