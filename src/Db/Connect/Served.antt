-- ===== src/Db/Connect/Served.antt =====
-- From the file of statements to the tables: what a server answers is what is loaded.
use nagios_snmp.Base.{
  Bool, true, List, [], ◌∷◌, ◌++◌, map, some, Bytes, CString, codes, equal, Result, ok, ◌>>=◌,
  if◌then◌else◌, All, ◌≡◌, refl, ◌∙◌,
}
use nagios_snmp.Base.Int.{ℤ}
use nagios_snmp.Util.{is_empty}
use nagios_snmp.Regex.{Pcre}
use nagios_snmp.Config.{Options, config_get_option_value}
use nagios_snmp.Query.{QueryTable, query_init, query_fetch}
use nagios_snmp.Query.Lines.{file_of}
use nagios_snmp.Query.Statements.{IsNoise, IsStatement, Marks, Statement, lines_of, lookup, stored}
use nagios_snmp.Query.RoundTrip.{query_init-fetch}
use nagios_snmp.Db.Tables.{HashTable}
use nagios_snmp.Db.{same_int, Db}
use nagios_snmp.Db.Load.{
  Rows, fetch_resource, fetch_command, fetch_host, fetch_svc, fetch_trap_handler, fetch_all,
  fresh_db, db_init,
}
use nagios_snmp.Db.Connect.{
  MySql, query, store_result, connect, fetch_rows, fetch_table, load_tables, connected_db_init,
}

-- The server has rows for the statement of a name, and no error behind them.
abbrev pub Answers : MySql → List Statement → Bytes → List (List CString) → Type 0
Answers server qs name rows =
    (text : Bytes) × (error : CString) × (lookup name qs ≡ some text)
    × (server.takes text ≡ true)
    × (server.result text ≡ some (record { rows = rows; error = error }))
    × (is_empty error ≡ true)

-- The five statements with their rows.
pub record Serves (server : MySql) (qs : List Statement) (rows : Rows) : Type 0 where
  pub resources : Answers server qs (codes "Q_FETCH_RESOURCES") rows.resource_rows
  pub commands : Answers server qs (codes "Q_FETCH_COMMANDS") rows.command_rows
  pub hosts : Answers server qs (codes "Q_FETCH_HOSTS") rows.host_rows
  pub svcs : Answers server qs (codes "Q_FETCH_SVCS") rows.svc_rows
  pub trap_handlers : Answers server qs (codes "Q_FETCH_TRAP_HANDLERS") rows.trap_handler_rows

-- The server lets the program in with what the options say.
abbrev pub Admits : MySql → Options → Type 0
Admits server os =
    (host : CString) × (user : CString) × (password : CString) × (name : CString)
    × (config_get_option_value (codes ":db_host") os ≡ ok host)
    × (config_get_option_value (codes ":db_user") os ≡ ok user)
    × (config_get_option_value (codes ":db_password") os ≡ ok password)
    × (config_get_option_value (codes ":db_name") os ≡ ok name)
    × (server.instantiated ≡ true)
    × (server.real_connect host user password name ≡ true)

connect-Admits : (server : MySql) (os : Options) → Admits server os → connect server os ≡ ok tt
unfolding connect
connect-Admits server os (host, user, password, name, h, u, p, n, i, c) =
    rw i (rw h (rw u (rw p (rw n (rw c refl)))))

module _ (S : HashTable Bytes equal) (I : HashTable ℤ same_int) (server : MySql) where
  fetch_rows-fetch_all :
      (fetch : Db S I → List CString → Result (Db S I)) (error : CString)
      (rows : List (List CString)) (db : Db S I)
      → is_empty error ≡ true
      → fetch_rows server S I fetch error rows db ≡ fetch_all S I fetch db rows
  unfolding fetch_rows fetch_all
  fetch_rows-fetch_all fetch error [] db e = rw e refl
  fetch_rows-fetch_all fetch error (row ∷ rows) db e =
      λ i. fetch db row >>= λ next. fetch_rows-fetch_all fetch error rows next e i

  query-takes :
      (table : QueryTable) (name text : Bytes)
      → query_fetch name table ≡ some text
      → server.takes text ≡ true
      → query server table name ≡ ok text
  unfolding query
  query-takes table name text found taken = rw (query, found, taken) refl

  -- One of the five functions, where its statement is answered.
  fetch_table-Answers :
      (fetch : Db S I → List CString → Result (Db S I)) (qs : List Statement) (name : Bytes)
      (rows : List (List CString)) (db : Db S I)
      → query_fetch name (map stored qs) ≡ lookup name qs
      → Answers server qs name rows
      → fetch_table server S I fetch (map stored qs) name db ≡ fetch_all S I fetch db rows
  unfolding fetch_table store_result
  fetch_table-Answers fetch qs name rows db found (text, error, named, taken, given, ended) =
      rw (query-takes (map stored qs) name text (found ∙ named) taken)
        (rw (store_result, given) (fetch_rows-fetch_all fetch error rows db ended))

  module _ (P : Pcre) (m : Marks P) where
    -- From a file of statements as in `query_init-fetch`, and with a server that admits the program
    -- and has rows for the five statements of the file, the tables are those that `db_init` makes of
    -- these rows, and a fault in a row is a fault of the whole.
    pub connected_db_init-rows :
        (noise : List Bytes) (qs : List Statement) (rows : Rows) (os : Options) (is_daemon : Bool)
        → All (IsNoise P m) noise
        → All (IsStatement P m) qs
        → Admits server os
        → Serves server qs rows
        → (query_init P (some (file_of (noise ++ lines_of qs)))
            >>= connected_db_init server S I is_daemon os)
          ≡ db_init S I is_daemon rows
    unfolding connected_db_init load_tables db_init
    connected_db_init-rows noise qs rows os is_daemon h k admitted served =
        let found = λ (name : Bytes). (query_init-fetch P m noise qs name h k).1 in
        rw ((query_init-fetch P m noise qs [] h k).0) (
          rw (connect-Admits server os admitted) (λ i.
            fetch_table-Answers (fetch_resource S I) qs _ rows.resource_rows (fresh_db S I)
              (found _) served.resources i
            >>= λ db.
                if is_daemon
                then (fetch_table-Answers (fetch_command S I) qs _ rows.command_rows db (found _)
                      served.commands i
                    >>= λ db1.
                        fetch_table-Answers (fetch_host S I) qs _ rows.host_rows db1 (found _)
                          served.hosts i
                        >>= λ db2.
                            fetch_table-Answers (fetch_svc S I) qs _ rows.svc_rows db2 (found _)
                              served.svcs i
                            >>= λ db3.
                                fetch_table-Answers (fetch_trap_handler S I) qs _
                                  rows.trap_handler_rows db3 (found _) served.trap_handlers i)
                else ok db))
