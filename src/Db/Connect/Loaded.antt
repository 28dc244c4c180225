-- ===== src/Db/Connect/Loaded.antt =====
-- The tables that a run of `db_init` leaves behind, whatever the server answers.
use nagios_snmp.Base.{
  Bool, true, false, List, [], ◌∷◌, Bytes, CString, codes, equal, Result, ok, fault, critical, ◌≡◌,
  refl,
}
use nagios_snmp.Base.Post.{Post, Post-bind, Post-then, Post-if, Post-mono, Post-from}
use nagios_snmp.Base.Int.{ℤ}
use nagios_snmp.Util.{is_empty}
use nagios_snmp.Config.{Options}
use nagios_snmp.Query.{QueryTable}
use nagios_snmp.Db.Tables.{HashTable}
use nagios_snmp.Db.{same_int, Db}
use nagios_snmp.Db.Load.{
  Rows, fetch_resource, fetch_command, fetch_host, fetch_svc, fetch_trap_handler, fetch_all,
  fresh_db, db_init,
}
use nagios_snmp.Db.Connect.{
  MySql, query, store_result, connect, fetch_rows, fetch_table, load_tables, connected_db_init,
}

module _ (S : HashTable Bytes equal) (I : HashTable ℤ same_int) (server : MySql) where
  -- What comes out of a loop is what the rows make, as far as there is a value.
  fetch_rows-Post :
      (fetch : Db S I → List CString → Result (Db S I)) (error : CString)
      (rows : List (List CString)) (db : Db S I)
      → Post (λ d. fetch_all S I fetch db rows ≡ ok d) (fetch_rows server S I fetch error rows db)
  unfolding fetch_rows fetch_all
  fetch_rows-Post fetch error [] db =
      Post-if (λ d. ok db ≡ ok d) (is_empty error) (ok db) (fault critical) refl tt
  fetch_rows-Post fetch error (row ∷ rows) db =
      Post-from (λ d. fetch_all S I fetch db (row ∷ rows) ≡ ok d) (fetch db row)
        (fetch_rows server S I fetch error rows)
        (λ next e. rw e (fetch_rows-Post fetch error rows next))

  -- The rows that one of the five functions has read.
  abbrev Read : (Db S I → List CString → Result (Db S I)) → Db S I → Db S I → Type 0
  Read fetch db d = (rows : List (List CString)) × (fetch_all S I fetch db rows ≡ ok d)

  fetch_table-Read :
      (fetch : Db S I → List CString → Result (Db S I)) (table : QueryTable) (name : Bytes)
      (db : Db S I)
      → Post (Read fetch db) (fetch_table server S I fetch table name db)
  unfolding fetch_table
  fetch_table-Read fetch table name db =
      Post-bind (Read fetch db) (query server table name) _ (λ stmt_str.
        Post-bind (Read fetch db) (store_result server stmt_str) _ (λ res.
          Post-mono (λ d. fetch_all S I fetch db res.rows ≡ ok d) (Read fetch db) _
            (λ d e. (res.rows, e)) (fetch_rows-Post fetch res.error res.rows db)))

  -- Tables that are made of some rows.
  abbrev pub IsLoaded : Bool → Db S I → Type 0
  IsLoaded is_daemon d = (rows : Rows) × (db_init S I is_daemon rows ≡ ok d)

  load_tables-IsLoaded :
      (is_daemon : Bool) (table : QueryTable)
      → Post (IsLoaded is_daemon) (load_tables server S I is_daemon table)
  unfolding load_tables db_init
  load_tables-IsLoaded false table =
      Post-then (Read (fetch_resource S I) (fresh_db S I)) (IsLoaded false) _ _
        (fetch_table-Read (fetch_resource S I) table (codes "Q_FETCH_RESOURCES") (fresh_db S I))
        (λ db read. (
          record {
            resource_rows = read.0;
            command_rows = [];
            host_rows = [];
            svc_rows = [];
            trap_handler_rows = [];
          },
          rw read.1 refl,
        ))
  load_tables-IsLoaded true table =
      let step = fetch_table-Read in
      Post-then (Read (fetch_resource S I) (fresh_db S I)) (IsLoaded true) _ _
        (step (fetch_resource S I) table (codes "Q_FETCH_RESOURCES") (fresh_db S I))
        (λ db r.
          Post-then (Read (fetch_command S I) db) (IsLoaded true) _ _
            (step (fetch_command S I) table (codes "Q_FETCH_COMMANDS") db)
            (λ db1 c.
              Post-then (Read (fetch_host S I) db1) (IsLoaded true) _ _
                (step (fetch_host S I) table (codes "Q_FETCH_HOSTS") db1)
                (λ db2 h.
                  Post-then (Read (fetch_svc S I) db2) (IsLoaded true) _ _
                    (step (fetch_svc S I) table (codes "Q_FETCH_SVCS") db2)
                    (λ db3 s.
                      Post-mono (Read (fetch_trap_handler S I) db3) (IsLoaded true)
                        (fetch_table server S I (fetch_trap_handler S I) table
                          (codes "Q_FETCH_TRAP_HANDLERS") db3)
                        (λ d t. (
                          record {
                            resource_rows = r.0;
                            command_rows = c.0;
                            host_rows = h.0;
                            svc_rows = s.0;
                            trap_handler_rows = t.0;
                          },
                          rw r.1 (rw c.1 (rw h.1 (rw s.1 t.1))),
                        ))
                        (step (fetch_trap_handler S I) table (codes "Q_FETCH_TRAP_HANDLERS")
                          db3)))))

  pub connected_db_init-IsLoaded :
      (is_daemon : Bool) (os : Options) (table : QueryTable)
      → Post (IsLoaded is_daemon) (connected_db_init server S I is_daemon os table)
  unfolding connected_db_init
  connected_db_init-IsLoaded is_daemon os table =
      Post-bind (IsLoaded is_daemon) (connect server os) _
        (λ connected. load_tables-IsLoaded is_daemon table)
