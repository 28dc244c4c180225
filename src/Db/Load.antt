-- ===== src/Db/Load.antt =====
-- src/db.c: the loading of the tables. The rows that a query returns are an argument; a column that
-- is SQL's NULL is `none`. `log_critical` ends the program.
use nagios_snmp.Base.{
  ℕ, Bool, List, [], ◌∷◌, ◌++◌, Option, none, some, Bytes, CString, codes, equal, tokens, Result,
  ok, fault, null_deref, critical, ◌>>=◌, if◌then◌else◌, length, get_elem?, take, map, deref,
}
use nagios_snmp.Base.Int.{ℤ, atoi}
use nagios_snmp.Util.{xstrdup, extract_filename}
use nagios_snmp.Command.{command_expand_1, command_expand_3}
use nagios_snmp.Db.Tables.{HashTable}
use nagios_snmp.Db.{same_int, Resource, deref_in, Db, db_lookup_resource}

-- A column; a row has those that its query names.
abbrev pub column : ℕ → List CString → Result CString
column i row = elim (get_elem? row i) [ none ↦ fault null_deref | some c ↦ ok c ]

-- A column that libc reads.
abbrev pub text_column : ℕ → List CString → Result Bytes
text_column i row = column i row >>= λ c. deref c

-- The first token that `strtok_r` returns, and the one behind it.
abbrev token_at : ℕ → List Bytes → CString
token_at i ts = get_elem? ts i

abbrev max_args_no : ℕ
max_args_no = 128

-- The arguments, and their number as the length; NULL has none.
unfoldable pub split_args : CString → Option (List CString)
split_args none = none
split_args (some s) = some (map (λ t. xstrdup (some t)) (take max_args_no (tokens b'!' s)))

-- The results of the five queries.
pub record Rows : Type 0 where
  pub resource_rows : List (List CString)
  pub command_rows : List (List CString)
  pub host_rows : List (List CString)
  pub svc_rows : List (List CString)
  pub trap_handler_rows : List (List CString)

module _ (S : HashTable Bytes equal) (I : HashTable ℤ same_int) where
  -- One round of each loop.
  unfoldable pub fetch_resource : Db S I → List CString → Result (Db S I)
  unfolding xstrdup
  fetch_resource db row = do
    line ← text_column 0 row
    let ts = tokens b'=' line
    let resource : Resource = record {
      r_name = xstrdup (token_at 0 ts);
      r_value = xstrdup (token_at 1 ts);
    }
    key ← deref (xstrdup (token_at 0 ts))
    ok (record db {
      resources = db.resources ++ resource ∷ [];
      resources_table = S.insert key (length db.resources) db.resources_table;
    })

  unfoldable pub fetch_command : Db S I → List CString → Result (Db S I)
  unfolding xstrdup command_expand_1 extract_filename db_lookup_resource
  fetch_command db row = do
    id ← text_column 0 row
    name ← column 1 row
    text ← column 2 row
    flag ← text_column 3 row
    expanded ← command_expand_1 (db_lookup_resource S I db) (xstrdup text)
    elim expanded [
      | none ↦ fault critical
      | some expanded_text ↦ ok (record db {
        commands =
            db.commands
            ++ record {
              c_id = atoi id;
              c_name = xstrdup name;
              c_filename = extract_filename (some expanded_text);
              c_text = xstrdup text;
              c_expanded_text = some expanded_text;
              c_use_sender_address = equal flag (codes "1");
            }
              ∷ [];
        commands_table = I.insert (atoi id) (length db.commands) db.commands_table;
      })
    ]

  -- `g_hash_table_steal`, where the lookup has found a chain.
  abbrev steal_text : Bytes → S.Table → S.Table
  steal_text k t = elim (S.lookup k t) [ none ↦ t | some p ↦ S.steal k t ]

  abbrev steal_int : ℤ → I.Table → I.Table
  steal_int k t = elim (I.lookup k t) [ none ↦ t | some p ↦ I.steal k t ]

  -- A new host at the head of its three chains.
  unfoldable pub link_host : Db S I → ℤ → Bytes → Bytes → Option (List CString) → Bytes → Db S I
  link_host db cmd_id name address args text = record db {
    hosts =
        db.hosts
        ++ record {
          h_cmd_id = cmd_id;
          h_host_name = some name;
          h_address = some address;
          h_args = args;
          h_expanded_text = some text;
          h_next_by_name = S.lookup name db.hosts_by_host_name;
          h_next_by_address = S.lookup address db.hosts_by_address;
          h_next_by_cmd_id = I.lookup cmd_id db.hosts_by_cmd_id;
        }
          ∷ [];
    hosts_by_host_name = S.insert name (length db.hosts) (steal_text name db.hosts_by_host_name);
    hosts_by_address = S.insert address (length db.hosts) (steal_text address db.hosts_by_address);
    hosts_by_cmd_id = I.insert cmd_id (length db.hosts) (steal_int cmd_id db.hosts_by_cmd_id);
  }

  unfoldable pub fetch_host : Db S I → List CString → Result (Db S I)
  unfolding xstrdup command_expand_3 split_args link_host
  fetch_host db row = do
    id ← text_column 2 row
    elim (I.lookup (atoi id) db.commands_table) [
      | none ↦ ok db
      | some c ↦ do
        command ← deref_in db.commands c
        host_name ← column 0 row
        address ← column 1 row
        args ← column 3 row
        expanded ← command_expand_3 command.c_expanded_text (xstrdup address) (split_args args)
        elim expanded [
          | none ↦ fault critical
          | some text ↦ do
            name ← deref (xstrdup host_name)
            addr ← deref (xstrdup address)
            ok (link_host db (atoi id) name addr (split_args args) text)
        ]
    ]

  unfoldable pub link_svc :
      Db S I → ℤ → Bytes → Bytes → CString → Option (List CString) → Bytes → Db S I
  link_svc db cmd_id name address description args text = record db {
    svcs =
        db.svcs
        ++ record {
          svc_cmd_id = cmd_id;
          svc_host_name = some name;
          svc_host_address = some address;
          svc_description = description;
          svc_args = args;
          svc_expanded_text = some text;
          svc_next_by_host_name = S.lookup name db.svcs_by_host_name;
          svc_next_by_host_address = S.lookup address db.svcs_by_host_address;
          svc_next_by_cmd_id = I.lookup cmd_id db.svcs_by_cmd_id;
        }
          ∷ [];
    svcs_by_host_name = S.insert name (length db.svcs) (steal_text name db.svcs_by_host_name);
    svcs_by_host_address =
        S.insert address (length db.svcs) (steal_text address db.svcs_by_host_address);
    svcs_by_cmd_id = I.insert cmd_id (length db.svcs) (steal_int cmd_id db.svcs_by_cmd_id);
  }

  unfoldable pub fetch_svc : Db S I → List CString → Result (Db S I)
  unfolding xstrdup command_expand_3 split_args link_svc
  fetch_svc db row = do
    id ← text_column 3 row
    elim (I.lookup (atoi id) db.commands_table) [
      | none ↦ ok db
      | some c ↦ do
        command ← deref_in db.commands c
        description ← column 0 row
        host_name ← column 1 row
        address ← column 2 row
        args ← column 4 row
        expanded ← command_expand_3 command.c_expanded_text (xstrdup address) (split_args args)
        elim expanded [
          | none ↦ fault critical
          | some text ↦ do
            name ← deref (xstrdup host_name)
            addr ← deref (xstrdup address)
            ok (link_svc db (atoi id) name addr (xstrdup description) (split_args args) text)
        ]
    ]

  unfoldable pub fetch_trap_handler : Db S I → List CString → Result (Db S I)
  unfolding xstrdup
  fetch_trap_handler db row = do
    id ← text_column 1 row
    elim (I.lookup (atoi id) db.commands_table) [
      | none ↦ ok db
      | some c ↦ do
        oid ← column 0 row
        key ← deref (xstrdup oid)
        ok (record db {
          trap_handlers =
              db.trap_handlers ++ record { th_oid = some key; th_trap_command = some c } ∷ [];
          trap_handlers_table = S.insert key (length db.trap_handlers) db.trap_handlers_table;
        })
    ]

  -- `while ((row = fetch_row(result)))`
  unfoldable pub fetch_all :
      (Db S I → List CString → Result (Db S I)) → Db S I → List (List CString) → Result (Db S I)
  fetch_all fetch db [] = ok db
  fetch_all fetch db (row ∷ rows) = do next ← fetch db row; fetch_all fetch next rows

  unfoldable pub fresh_db : Db S I
  fresh_db = record {
    resources = [];
    commands = [];
    hosts = [];
    svcs = [];
    trap_handlers = [];
    resources_table = S.new;
    commands_table = I.new;
    hosts_by_host_name = S.new;
    hosts_by_address = S.new;
    hosts_by_cmd_id = I.new;
    svcs_by_host_name = S.new;
    svcs_by_host_address = S.new;
    svcs_by_cmd_id = I.new;
    trap_handlers_table = S.new;
  }

  -- `db_init`, once it is connected. A program that is no daemon loads the resources alone, and
  -- leaves the other tables unset; they are the empty ones here.
  unfoldable pub db_init : Bool → Rows → Result (Db S I)
  unfolding fetch_all fetch_resource fetch_command fetch_host fetch_svc fetch_trap_handler fresh_db
  db_init is_daemon rows = do
    db ← fetch_all fetch_resource fresh_db rows.resource_rows
    (if is_daemon
        then (do
          db1 ← fetch_all fetch_command db rows.command_rows
          db2 ← fetch_all fetch_host db1 rows.host_rows
          db3 ← fetch_all fetch_svc db2 rows.svc_rows
          fetch_all fetch_trap_handler db3 rows.trap_handler_rows)
        else ok db)
