-- ===== src/Db.antt =====
-- src/db.c: the tables of commands, hosts, services and trap handlers that are loaded from the
-- database, and their lookups. A pointer is an index into a store, and NULL is `none`.
pub mod Tables
pub mod Load
pub mod Connect
pub mod Chains
use nagios_snmp.Base.{
  ℕ, Bool, true, false, ◌&&◌, List, [], Option, none, some, Bytes, CString, equal, Result, ok,
  fault, null_deref, ◌>>=◌, ◌==◌, if◌then◌else◌, get_elem?,
}
use nagios_snmp.Base.Int.{ℤ, pos, negsuc}
use nagios_snmp.Util.{is_empty, xstrdup}
use Tables.{HashTable}

-- `g_int_equal`
abbrev pub same_int : ℤ → ℤ → Bool
same_int (pos a) (pos b) = a == b
same_int (negsuc a) (negsuc b) = a == b
same_int (pos a) (negsuc b) = false
same_int (negsuc a) (pos b) = false

pub record Resource : Type 0 where
  pub r_name : CString
  pub r_value : CString

pub record Command : Type 0 where
  pub c_id : ℤ
  pub c_name : CString
  pub c_filename : CString
  pub c_text : CString
  pub c_expanded_text : CString
  pub c_use_sender_address : Bool

-- `h_args` and `h_args_no`: NULL, or the arguments.
pub record Host : Type 0 where
  pub h_cmd_id : ℤ
  pub h_host_name : CString
  pub h_address : CString
  pub h_args : Option (List CString)
  pub h_expanded_text : CString
  pub h_next_by_name : Option ℕ
  pub h_next_by_address : Option ℕ
  pub h_next_by_cmd_id : Option ℕ

pub record Svc : Type 0 where
  pub svc_cmd_id : ℤ
  pub svc_host_name : CString
  pub svc_host_address : CString
  pub svc_description : CString
  pub svc_args : Option (List CString)
  pub svc_expanded_text : CString
  pub svc_next_by_host_name : Option ℕ
  pub svc_next_by_host_address : Option ℕ
  pub svc_next_by_cmd_id : Option ℕ

-- `th_trap_command` is a pointer to a command.
pub record TrapHandler : Type 0 where
  pub th_oid : CString
  pub th_trap_command : Option ℕ

pub data LookupFlag : Type 0 where
  no_flag next_by_host_name next_by_host_address : LookupFlag

abbrev pub deref_in {ℓ} : {A : Type ℓ} → List A → ℕ → Result A
deref_in store p = elim (get_elem? store p) [ none ↦ fault null_deref | some a ↦ ok a ]

-- The tables are GLib's: one kind with texts for keys, one with integers.
module _ (S : HashTable Bytes equal) (I : HashTable ℤ same_int) where
  pub record Db : Type 0 where
    pub resources : List Resource
    pub commands : List Command
    pub hosts : List Host
    pub svcs : List Svc
    pub trap_handlers : List TrapHandler
    pub resources_table : S.Table
    pub commands_table : I.Table
    pub hosts_by_host_name : S.Table
    pub hosts_by_address : S.Table
    pub hosts_by_cmd_id : I.Table
    pub svcs_by_host_name : S.Table
    pub svcs_by_host_address : S.Table
    pub svcs_by_cmd_id : I.Table
    pub trap_handlers_table : S.Table

  unfoldable pub db_lookup_resource : Db → Bytes → CString
  unfolding xstrdup
  db_lookup_resource db key = elim (S.lookup key db.resources_table) [
    | none ↦ none
    | some p ↦ elim (get_elem? db.resources p) [ none ↦ none | some r ↦ xstrdup r.r_value ]
  ]

  -- The result -1 is `negsuc 0`.
  unfoldable pub db_lookup_cmd_id_by_oid : Db → CString → Result ℤ
  db_lookup_cmd_id_by_oid db none = ok (negsuc 0)
  db_lookup_cmd_id_by_oid db (some oid) = elim (S.lookup oid db.trap_handlers_table) [
    | none ↦ ok (negsuc 0)
    | some p ↦ deref_in db.trap_handlers p >>= λ h. elim h.th_trap_command [
      | none ↦ ok (negsuc 0)
      | some c ↦ deref_in db.commands c >>= λ command. ok command.c_id
    ]
  ]

  unfoldable pub db_lookup_command_by_cmd_id : Db → ℤ → Option ℕ
  db_lookup_command_by_cmd_id db cmd_id =
      if same_int cmd_id (negsuc 0) then none else I.lookup cmd_id db.commands_table

  unfoldable pub db_lookup_filename_by_cmd_id : Db → ℤ → Result CString
  unfolding db_lookup_command_by_cmd_id
  db_lookup_filename_by_cmd_id db cmd_id = elim (db_lookup_command_by_cmd_id db cmd_id) [
    | none ↦ ok none
    | some c ↦ deref_in db.commands c >>= λ command. ok command.c_filename
  ]

  -- `none` is the result 0, with nothing stored.
  unfoldable pub db_lookup_use_sender_address_by_cmd_id : Db → ℤ → Result (Option Bool)
  unfolding db_lookup_command_by_cmd_id
  db_lookup_use_sender_address_by_cmd_id db cmd_id = elim (db_lookup_command_by_cmd_id db cmd_id) [
    | none ↦ ok none
    | some c ↦ deref_in db.commands c >>= λ command. ok (some command.c_use_sender_address)
  ]

  unfoldable pub db_lookup_expanded_text_by_cmd_id : Db → ℤ → Result CString
  unfolding db_lookup_command_by_cmd_id
  db_lookup_expanded_text_by_cmd_id db cmd_id =
      if same_int cmd_id (negsuc 0) then ok none else elim (db_lookup_command_by_cmd_id db cmd_id) [
        | none ↦ ok none
        | some c ↦ deref_in db.commands c >>= λ command. ok command.c_expanded_text
      ]

  -- The next host of a chain, by the flag.
  abbrev pub next_host : LookupFlag → Host → Option ℕ
  next_host next_by_host_name h = h.h_next_by_name
  next_host next_by_host_address h = h.h_next_by_address
  next_host no_flag h = none

  abbrev pub next_svc : LookupFlag → Svc → Option ℕ
  next_svc next_by_host_name s = s.svc_next_by_host_name
  next_svc next_by_host_address s = s.svc_next_by_host_address
  next_svc no_flag s = none

  unfoldable pub db_lookup_host_by_cmd_id : Db → ℤ → Option ℕ → LookupFlag → Result (Option ℕ)
  db_lookup_host_by_cmd_id db cmd_id none flag = ok (I.lookup cmd_id db.hosts_by_cmd_id)
  db_lookup_host_by_cmd_id db cmd_id (some p) flag =
      deref_in db.hosts p >>= λ h. ok (next_host flag h)

  unfoldable pub db_lookup_svc_by_cmd_id : Db → ℤ → Option ℕ → LookupFlag → Result (Option ℕ)
  db_lookup_svc_by_cmd_id db cmd_id none flag = ok (I.lookup cmd_id db.svcs_by_cmd_id)
  db_lookup_svc_by_cmd_id db cmd_id (some p) flag = deref_in db.svcs p >>= λ s. ok (next_svc flag s)

  -- A table's entry for a key that is not empty.
  abbrev pub lookup_text : CString → S.Table → Option ℕ
  lookup_text none t = none
  lookup_text (some k) t = if is_empty (some k) then none else S.lookup k t

  unfoldable pub db_lookup_host_by_host_name : Db → CString → Option ℕ
  unfolding is_empty
  db_lookup_host_by_host_name db host_name = lookup_text host_name db.hosts_by_host_name

  unfoldable pub db_lookup_host_by_address : Db → CString → Option ℕ
  unfolding is_empty
  db_lookup_host_by_address db address = lookup_text address db.hosts_by_address

  unfoldable pub db_lookup_svc_by_host_name :
      Db → CString → Option ℕ → LookupFlag → Result (Option ℕ)
  unfolding is_empty
  db_lookup_svc_by_host_name db host_name svc flag =
      if is_empty host_name then ok none else elim svc [
        | none ↦ ok (lookup_text host_name db.svcs_by_host_name)
        | some p ↦ deref_in db.svcs p >>= λ s. ok (next_svc flag s)
      ]

  unfoldable pub db_lookup_svc_by_host_address :
      Db → CString → Option ℕ → LookupFlag → Result (Option ℕ)
  unfolding is_empty
  db_lookup_svc_by_host_address db host_address svc flag =
      if is_empty host_address then ok none else elim svc [
        | none ↦ ok (lookup_text host_address db.svcs_by_host_address)
        | some p ↦ deref_in db.svcs p >>= λ s. ok (next_svc flag s)
      ]

  -- The extraction functions: a host first, then a service.
  abbrev extract : (Host → CString) → (Svc → CString) → Db → Option ℕ → Option ℕ → Result CString
  extract of_host of_svc db (some p) svc = deref_in db.hosts p >>= λ h. ok (of_host h)
  extract of_host of_svc db none (some p) = deref_in db.svcs p >>= λ s. ok (of_svc s)
  extract of_host of_svc db none none = ok none

  unfoldable pub db_extract_host_address : Db → Option ℕ → Option ℕ → Result CString
  db_extract_host_address db host svc =
      extract (λ h. h.h_address) (λ s. s.svc_host_address) db host svc

  unfoldable pub db_extract_host_name : Db → Option ℕ → Option ℕ → Result CString
  db_extract_host_name db host svc = extract (λ h. h.h_host_name) (λ s. s.svc_host_name) db host svc

  unfoldable pub db_extract_svc_desc : Db → Option ℕ → Result CString
  db_extract_svc_desc db none = ok none
  db_extract_svc_desc db (some p) = deref_in db.svcs p >>= λ s. ok s.svc_description

  unfoldable pub db_extract_expanded_text : Db → Option ℕ → Option ℕ → Result CString
  db_extract_expanded_text db host svc =
      extract (λ h. h.h_expanded_text) (λ s. s.svc_expanded_text) db host svc
