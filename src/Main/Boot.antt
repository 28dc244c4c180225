-- ===== src/Main/Boot.antt =====
-- src/main.c: the constructors between the log and the main loop, in their order. What can be
-- opened, and the text of the file of statements, are arguments.
pub mod Runs
use nagios_snmp.Base.{Bool, List, Option, Bytes, CString, codes, equal, Result, ok, ◌>>=◌}
use nagios_snmp.Base.Int.{ℤ}
use nagios_snmp.Config.{Options, config_get_option_value}
use nagios_snmp.Regex.{Pcre}
use nagios_snmp.Query.{query_init}
use nagios_snmp.Db.Tables.{HashTable}
use nagios_snmp.Db.{same_int, Db}
use nagios_snmp.Db.Connect.{MySql, connected_db_init}
use nagios_snmp.Trap.Serialize.{SerializeMode}
use nagios_snmp.Settings.{Stream, channel_init, trap_init, traplog_init, exec_init}

-- What the main loop finds.
pub record Booted (S : HashTable Bytes equal) (I : HashTable ℤ same_int) : Type 0 where
  pub stream : Stream
  pub db : Db S I
  pub trap_tokenizer : CString
  pub trap_serialize_mode : SerializeMode
  pub trap_log_delimiter : Bytes
  pub trap_log : CString
  pub stack_max_executions : ℤ

module _ (P : Pcre) (server : MySql) (S : HashTable Bytes equal) (I : HashTable ℤ same_int)
    (opens_pipe : Bytes → Bool) (opens_log : CString → Bool)
    (text_of : CString → Option Bytes) where
  unfoldable pub boot : Bool → Options → Result (Booted S I)
  unfolding channel_init query_init connected_db_init trap_init traplog_init exec_init
  boot is_daemon os = do
    stream ← channel_init opens_pipe is_daemon os
    source ← config_get_option_value (codes ":query_source_file") os
    table ← query_init P (text_of source)
    db ← connected_db_init server S I is_daemon os table
    traps ← trap_init os
    log ← traplog_init opens_log os
    limit ← exec_init os
    ok (record {
      stream = stream;
      db = db;
      trap_tokenizer = traps.0;
      trap_serialize_mode = traps.1;
      trap_log_delimiter = log.0;
      trap_log = log.1;
      stack_max_executions = limit;
    })
