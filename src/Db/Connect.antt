-- ===== src/Db/Connect.antt =====
-- src/db.c: the connection, the statements and their results, around the loading of Db.Load. The
-- client library of MySQL is a parameter; `log_critical` ends the program.
pub mod Served
pub mod Loaded
use nagios_snmp.Base.{
  Bool, true, false, List, [], ◌∷◌, Option, none, some, Bytes, CString, codes, equal, Result, ok,
  fault, critical, ◌>>=◌, if◌then◌else◌,
}
use nagios_snmp.Base.Int.{ℤ}
use nagios_snmp.Util.{is_empty}
use nagios_snmp.Config.{Options, config_get_option_value}
use nagios_snmp.Query.{QueryTable, query_fetch}
use nagios_snmp.Db.Tables.{HashTable}
use nagios_snmp.Db.{same_int, Db}
use nagios_snmp.Db.Load.{
  fetch_resource, fetch_command, fetch_host, fetch_svc, fetch_trap_handler, fresh_db,
}

-- The rows of a result, and what `mysql_error` says behind the last of them.
pub record Answer : Type 0 where
  pub rows : List (List CString)
  pub error : CString

-- `mysql_init`, `mysql_real_connect` with its host, user, password and database, whether
-- `mysql_query` takes a statement, and what `mysql_store_result` gives for it.
pub record MySql : Type 0 where
  pub instantiated : Bool
  pub real_connect : CString → CString → CString → CString → Bool
  pub takes : Bytes → Bool
  pub result : Bytes → Option Answer

module _ (server : MySql) where
  -- The statement that is sent.
  unfoldable pub query : QueryTable → Bytes → Result Bytes
  unfolding query_fetch
  query table query_name = elim (query_fetch query_name table) [
    | none ↦ fault critical
    | some stmt_str ↦ if server.takes stmt_str then ok stmt_str else fault critical
  ]

  unfoldable pub store_result : Bytes → Result Answer
  store_result stmt_str = elim (server.result stmt_str) [
    | none ↦ fault critical
    | some res ↦ ok res
  ]

  unfoldable pub connect : Options → Result (Unit {0})
  unfolding config_get_option_value
  connect os =
      if server.instantiated
      then (do
        host ← config_get_option_value (codes ":db_host") os
        user ← config_get_option_value (codes ":db_user") os
        password ← config_get_option_value (codes ":db_password") os
        name ← config_get_option_value (codes ":db_name") os
        (if server.real_connect host user password name then ok tt else fault critical))
      else fault critical

  module _ (S : HashTable Bytes equal) (I : HashTable ℤ same_int) where
    -- `while ((row = fetch_row(result)))`, with the test behind the last row.
    unfoldable pub fetch_rows :
        (Db S I → List CString → Result (Db S I))
        → CString
        → List (List CString)
        → Db S I
        → Result (Db S I)
    fetch_rows fetch error [] db = if is_empty error then ok db else fault critical
    fetch_rows fetch error (row ∷ rows) db = do
      next ← fetch db row
      fetch_rows fetch error rows next

    -- The frame that the five functions share.
    unfoldable pub fetch_table :
        (Db S I → List CString → Result (Db S I)) → QueryTable → Bytes → Db S I → Result (Db S I)
    unfolding query store_result fetch_rows
    fetch_table fetch table query_name db = do
      stmt_str ← query table query_name
      res ← store_result stmt_str
      fetch_rows fetch res.error res.rows db

    unfoldable pub load_tables : Bool → QueryTable → Result (Db S I)
    unfolding fetch_table fetch_resource fetch_command fetch_host fetch_svc fetch_trap_handler
        fresh_db
    load_tables is_daemon table = do
      db ← fetch_table (fetch_resource S I) table (codes "Q_FETCH_RESOURCES") (fresh_db S I)
      (if is_daemon
          then (do
            db1 ← fetch_table (fetch_command S I) table (codes "Q_FETCH_COMMANDS") db
            db2 ← fetch_table (fetch_host S I) table (codes "Q_FETCH_HOSTS") db1
            db3 ← fetch_table (fetch_svc S I) table (codes "Q_FETCH_SVCS") db2
            fetch_table (fetch_trap_handler S I) table (codes "Q_FETCH_TRAP_HANDLERS") db3)
          else ok db)

    -- `db_init`, from the connection on.
    unfoldable pub connected_db_init : Bool → Options → QueryTable → Result (Db S I)
    unfolding connect load_tables
    connected_db_init is_daemon os table = do connected ← connect os; load_tables is_daemon table
