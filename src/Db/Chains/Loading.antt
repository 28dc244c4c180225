-- ===== src/Db/Chains/Loading.antt =====
-- The chains are in order once the tables are loaded.
use nagios_snmp.Base.{
  Bool, true, false, List, [], ◌∷◌, Bytes, CString, equal, Result, ok, ◌>>=◌, if◌then◌else◌, tokens,
  get_elem?, ◌≡◌, refl, deref,
}
use nagios_snmp.Base.Post.{Post, Post-bind, Post-elim, Post-then, Post-ok}
use nagios_snmp.Base.Int.{ℤ, atoi}
use nagios_snmp.Util.{xstrdup}
use nagios_snmp.Command.{command_expand_1, command_expand_3}
use nagios_snmp.Db.Tables.{HashTable}
use nagios_snmp.Db.{same_int, Db, deref_in, db_lookup_resource}
use nagios_snmp.Db.Load.{
  fetch_resource, fetch_command, fetch_host, fetch_svc, fetch_trap_handler, fetch_all, fresh_db,
  db_init, Rows, text_column, column, split_args,
}
use nagios_snmp.Db.Chains.{IsChained, new-IsBelow, link_host-IsChained, link_svc-IsChained}

module _ (S : HashTable Bytes equal) (I : HashTable ℤ same_int) where
  -- Nothing but the hosts, the services and their tables matters.
  other-IsChained :
      (db next : Db S I)
      → next ≡ record next {
        hosts = db.hosts;
        svcs = db.svcs;
        hosts_by_host_name = db.hosts_by_host_name;
        hosts_by_address = db.hosts_by_address;
        hosts_by_cmd_id = db.hosts_by_cmd_id;
        svcs_by_host_name = db.svcs_by_host_name;
        svcs_by_host_address = db.svcs_by_host_address;
        svcs_by_cmd_id = db.svcs_by_cmd_id;
      }
      → IsChained S I db
      → IsChained S I next
  other-IsChained db next e c = rw e (record {
    hosts_below = c.hosts_below;
    svcs_below = c.svcs_below;
    by_name = c.by_name;
    by_address = c.by_address;
    by_cmd_id = c.by_cmd_id;
    svc_by_name = c.svc_by_name;
    svc_by_address = c.svc_by_address;
    svc_by_cmd_id = c.svc_by_cmd_id;
  })

  fetch_resource-IsChained :
      (db : Db S I) (row : List CString)
      → IsChained S I db
      → Post (IsChained S I) (fetch_resource S I db row)
  unfolding fetch_resource
  fetch_resource-IsChained db row c = Post-bind (IsChained S I) (text_column 0 row) _ (λ line.
      Post-bind (IsChained S I) (deref (xstrdup (get_elem? (tokens b'=' line) 0))) _
        (λ key. other-IsChained db _ refl c))

  fetch_command-IsChained :
      (db : Db S I) (row : List CString)
      → IsChained S I db
      → Post (IsChained S I) (fetch_command S I db row)
  unfolding fetch_command
  fetch_command-IsChained db row c =
      let P = IsChained S I in
      Post-bind P (text_column 0 row) _ (λ id. Post-bind P (column 1 row) _ (λ name.
        Post-bind P (column 2 row) _ (λ text. Post-bind P (text_column 3 row) _ (λ flag.
          Post-bind P (command_expand_1 (db_lookup_resource S I db) (xstrdup text)) _
            (λ expanded. Post-elim P expanded _ _ tt (λ t. other-IsChained db _ refl c))))))

  fetch_trap_handler-IsChained :
      (db : Db S I) (row : List CString)
      → IsChained S I db
      → Post (IsChained S I) (fetch_trap_handler S I db row)
  unfolding fetch_trap_handler
  fetch_trap_handler-IsChained db row c =
      let P = IsChained S I in
      Post-bind P (text_column 1 row) _ (λ id.
        Post-elim P (I.lookup (atoi id) db.commands_table) _ _ c (λ p.
          Post-bind P (column 0 row) _
            (λ oid. Post-bind P (deref (xstrdup oid)) _ (λ key. other-IsChained db _ refl c))))

  fetch_host-IsChained :
      (db : Db S I) (row : List CString)
      → IsChained S I db
      → Post (IsChained S I) (fetch_host S I db row)
  unfolding fetch_host
  fetch_host-IsChained db row c =
      let P = IsChained S I in
      Post-bind P (text_column 2 row) _ (λ id.
        Post-elim P (I.lookup (atoi id) db.commands_table) _ _ c (λ p.
          Post-bind P (deref_in db.commands p) _ (λ command. Post-bind P (column 0 row) _ (λ name.
            Post-bind P (column 1 row) _ (λ address. Post-bind P (column 3 row) _ (λ args.
              Post-bind P
                (command_expand_3 command.c_expanded_text (xstrdup address) (split_args args)) _
                (λ expanded. Post-elim P expanded _ _ tt (λ t.
                  Post-bind P (deref (xstrdup name)) _ (λ n.
                    Post-bind P (deref (xstrdup address)) _
                      (λ a. link_host-IsChained S I db (atoi id) n a (split_args args) t c))))))))))

  fetch_svc-IsChained :
      (db : Db S I) (row : List CString)
      → IsChained S I db
      → Post (IsChained S I) (fetch_svc S I db row)
  unfolding fetch_svc
  fetch_svc-IsChained db row c =
      let P = IsChained S I in
      Post-bind P (text_column 3 row) _ (λ id.
        Post-elim P (I.lookup (atoi id) db.commands_table) _ _ c (λ p.
          Post-bind P (deref_in db.commands p) _ (λ command. Post-bind P (column 0 row) _ (λ desc.
            Post-bind P (column 1 row) _ (λ name. Post-bind P (column 2 row) _ (λ address.
              Post-bind P (column 4 row) _ (λ args.
                Post-bind P
                  (command_expand_3 command.c_expanded_text (xstrdup address) (split_args args)) _
                  (λ expanded. Post-elim P expanded _ _ tt (λ t.
                    Post-bind P (deref (xstrdup name)) _ (λ n.
                      Post-bind P (deref (xstrdup address)) _ (λ a.
                        link_svc-IsChained S I db (atoi id) n a (xstrdup desc) (split_args args) t
                          c)))))))))))

  fetch_all-IsChained :
      (fetch : Db S I → List CString → Result (Db S I)) (db : Db S I) (rows : List (List CString))
      → ((d : Db S I) (row : List CString) → IsChained S I d → Post (IsChained S I) (fetch d row))
      → IsChained S I db
      → Post (IsChained S I) (fetch_all S I fetch db rows)
  unfolding fetch_all
  fetch_all-IsChained fetch db [] h c = c
  fetch_all-IsChained fetch db (row ∷ rows) h c =
      Post-then (IsChained S I) (IsChained S I) (fetch db row) (λ d. fetch_all S I fetch d rows)
        (h db row c) (λ d k. fetch_all-IsChained fetch d rows h k)

  fresh_db-IsChained : IsChained S I (fresh_db S I)
  unfolding fresh_db
  fresh_db-IsChained = record {
    hosts_below = λ i h e. cc;
    svcs_below = λ i s e. cc;
    by_name = new-IsBelow S 0;
    by_address = new-IsBelow S 0;
    by_cmd_id = new-IsBelow I 0;
    svc_by_name = new-IsBelow S 0;
    svc_by_address = new-IsBelow S 0;
    svc_by_cmd_id = new-IsBelow I 0;
  }

  daemon_tables :
      (is_daemon : Bool) (db : Db S I) (rows : Rows)
      → IsChained S I db
      → Post (IsChained S I) (
          if is_daemon
          then (do
            db1 ← fetch_all S I (fetch_command S I) db rows.command_rows
            db2 ← fetch_all S I (fetch_host S I) db1 rows.host_rows
            db3 ← fetch_all S I (fetch_svc S I) db2 rows.svc_rows
            fetch_all S I (fetch_trap_handler S I) db3 rows.trap_handler_rows)
          else ok db)
  daemon_tables false db rows c = c
  daemon_tables true db rows c =
      let P = IsChained S I in
      Post-then P P (fetch_all S I (fetch_command S I) db rows.command_rows) _
        (fetch_all-IsChained (fetch_command S I) db rows.command_rows fetch_command-IsChained c)
        (λ db1 c1.
          Post-then P P (fetch_all S I (fetch_host S I) db1 rows.host_rows) _
            (fetch_all-IsChained (fetch_host S I) db1 rows.host_rows fetch_host-IsChained c1)
            (λ db2 c2.
              Post-then P P (fetch_all S I (fetch_svc S I) db2 rows.svc_rows) _
                (fetch_all-IsChained (fetch_svc S I) db2 rows.svc_rows fetch_svc-IsChained c2)
                (λ db3 c3.
                  fetch_all-IsChained (fetch_trap_handler S I) db3 rows.trap_handler_rows
                    fetch_trap_handler-IsChained c3)))

  loaded-IsChained :
      (is_daemon : Bool) (rows : Rows) → Post (IsChained S I) (db_init S I is_daemon rows)
  unfolding db_init
  loaded-IsChained is_daemon rows =
      let P = IsChained S I in
      Post-then P P (fetch_all S I (fetch_resource S I) (fresh_db S I) rows.resource_rows) _
        (fetch_all-IsChained (fetch_resource S I) (fresh_db S I) rows.resource_rows
          fetch_resource-IsChained fresh_db-IsChained)
        (λ db c. daemon_tables is_daemon db rows c)

  -- Once the tables are loaded, from whatever rows, the links by name and by address of each host
  -- and each service go to one that was loaded earlier, and each table's entry is one that exists.
  pub db_init-IsChained :
      (is_daemon : Bool) (rows : Rows) (db : Db S I)
      → db_init S I is_daemon rows ≡ ok db
      → IsChained S I db
  db_init-IsChained is_daemon rows db e =
      Post-ok (IsChained S I) (db_init S I is_daemon rows) db e (loaded-IsChained is_daemon rows)
