-- ===== src/Config.antt =====
-- src/config.c: the table of options, and where their values come from. The INI file is read by
-- another library, which is a parameter; files, pipes and temporary names are the system's.
pub mod Table
pub mod Load
pub mod Ini
pub mod Php
use nagios_snmp.Base.{
  ℕ, ◌+◌, Bool, true, false, ◌&&◌, ◌||◌, List, [], ◌∷◌, ◌++◌, Option, none, some, Bytes, CString,
  codes, equal, deref, printed, Result, ok, fault, critical, overflow, ◌>>=◌, ◌>>◌, ltb, leb, ◌==◌,
  has, if◌then◌else◌, drop,
}
use nagios_snmp.Util.{is_empty, xstrdup}

pub record OptionElement : Type 0 where
  pub key : Bytes
  pub value : CString
  pub mandatory : Bool

abbrev pub Options : Type 0
Options = List OptionElement

abbrev entry : Bytes → CString → OptionElement
entry key value = record { key = key; value = value; mandatory = false }

-- `options[]` without its end mark, as built with NDEBUG.
unfoldable pub options : Options
options =
    entry (codes ":daemonize") (some (codes "true"))
    ∷ entry (codes ":db_host") none
    ∷ entry (codes ":db_user") none
    ∷ entry (codes ":db_password") none
    ∷ entry (codes ":db_name") none
    ∷ entry (codes ":diagnostics_pool") (some (codes "/var/spool/nagiostrapd/diagnostics"))
    ∷ entry (codes ":enable_monitor") (some (codes "true"))
    ∷ entry (codes ":error_log") (some (codes "/var/log/nagiostrapd.error"))
    ∷ entry (codes ":listen_on_private_socket") (some (codes "false"))
    ∷ entry (codes ":localhost_only") (some (codes "true"))
    ∷ entry (codes ":local_socket_prefix") (some (codes "/tmp/nagiostrapd"))
    ∷ entry (codes ":log_verbosity") (some (codes "warning"))
    ∷ entry (codes ":monitor_port_number") (some (codes "6111"))
    ∷ entry (codes ":nagios_pipe") (some (codes "/usr/local/nagios/var/rw/nagios.cmd"))
    ∷ entry (codes ":pending_connections") (some (codes "100"))
    ∷ entry (codes ":php_cli") (some (codes "/usr/bin/php"))
    ∷ entry (codes ":pid_file") (some (codes "/var/run/nagiostrapd.pid"))
    ∷ entry (codes ":plugins_max_executions") (some (codes "10000"))
    ∷ entry (codes ":port_number") (some (codes "6110"))
    ∷ entry (codes ":query_source_file") (some (codes "/etc/nagiostrapd/nagiostrapd.sql"))
    ∷ entry (codes ":send_enabled") (some (codes "true"))
    ∷ entry (codes ":nagios_conf_file") (some (codes "/usr/local/nagios/nagios.conf.php"))
    ∷ entry (codes ":socket_reuse") (some (codes "true"))
    ∷ entry (codes ":socket_set_nonblocking") (some (codes "false"))
    ∷ entry (codes ":temp_dir") (some (codes "/tmp"))
    ∷ entry (codes ":threadpool_size") (some (codes "5"))
    ∷ entry (codes ":trap_log") (some (codes "/var/log/nagiostrapd.traps"))
    ∷ entry (codes ":trap_log_delimiter") (some (codes ","))
    ∷ entry (codes ":trap_rate_threshold") (some (codes ".005"))
    ∷ entry (codes ":trap_serialize_mode") (some (codes "new"))
    ∷ entry (codes ":trap_tokenizer") (some (codes "@TRAPTKN@"))
    ∷ entry (codes ":workers") (some (codes "5"))
    ∷ []

-- The loop of `set_option_value`: whether it runs to the end, and the table it leaves.
unfoldable pub set_from : Bytes → CString → Options → Bool × Options
set_from key value [] = (true, [])
set_from key value (o ∷ os) =
    let rest = set_from key value os in
    if equal o.key key
    then (if o.mandatory && is_empty value
        then (false, o ∷ os)
        else (rest.0, record o { value = xstrdup value } ∷ rest.1))
    else (rest.0, o ∷ rest.1)

unfoldable pub set_option_value : CString → CString → Bool → Options → Bool × Options
unfolding set_from
set_option_value none value not_null os = (true, os)
set_option_value (some key) value not_null os =
    if is_empty (some key)
    then (true, os)
    else if is_empty value && not_null
    then (false, os)
    else set_from key value os

-- The first element with the key; a key that is not in the table ends the program.
unfoldable pub config_get_option_value : Bytes → Options → Result CString
config_get_option_value key [] = fault critical
config_get_option_value key (o ∷ os) =
    if equal o.key key then ok o.value else config_get_option_value key os

-- `printf("%s=\"%s\"\n", (options[i].key)+1, options[i].value)`
unfoldable pub config_dump : Options → Bytes
config_dump [] = []
config_dump (o ∷ os) =
    drop 1 o.key ++ (codes "=\"" ++ (printed o.value ++ (codes "\"\n" ++ config_dump os)))
