-- ===== src/Execlist.antt =====
-- src/execlist.c: the list of plugins to run for a trap. NULL is the empty list. The three counters
-- of the source are only written, and are left out.
pub mod Walk
pub mod Built
pub mod Matches
pub mod Missed
use nagios_snmp.Base.{
  ℕ, zero, suc, Bool, List, [], ◌∷◌, ◌++◌, Option, none, some, Bytes, CString, equal, Result, ok,
  fault, assertion, out_of_fuel, ◌>>=◌, ltb, if◌then◌else◌, length, deref,
}
use nagios_snmp.Base.Int.{ℤ}
use nagios_snmp.Util.{is_empty, xstrdup}
use nagios_snmp.Command.{command_expand_2}
use nagios_snmp.Db.Tables.{HashTable}
use nagios_snmp.Db.{
  same_int, Db, LookupFlag, no_flag, next_by_host_name, next_by_host_address,
  db_lookup_host_by_cmd_id, db_lookup_svc_by_cmd_id, db_lookup_expanded_text_by_cmd_id,
  db_extract_host_address, db_extract_host_name, db_extract_expanded_text,
}

-- `is_service`: 0, 1, and -1 where the plugin is to say.
pub data Kind : Type 0 where
  for_host for_svc for_either : Kind

-- A node of an execlist, and, with the same fields, `struct execitem_t` of exec.c.
pub record ExecItem : Type 0 where
  pub command : CString
  pub is_service : Kind
  pub host : Option ℕ
  pub svc : Option ℕ

unfoldable pub execlist_append :
    List ExecItem → CString → Kind → Option ℕ → Option ℕ → List ExecItem
unfolding xstrdup
execlist_append items command is_service host svc =
    items
    ++ record { command = xstrdup command; is_service = is_service; host = host; svc = svc } ∷ []

-- The node behind `current`: the first one for NULL.
unfoldable pub execlist_getnext : List ExecItem → Option ℕ → Option ℕ
execlist_getnext [] current = none
execlist_getnext (i ∷ items) none = some 0
execlist_getnext (i ∷ items) (some n) =
    if ltb (suc n) (length (i ∷ items)) then some (suc n) else none

module _ (S : HashTable Bytes equal) (I : HashTable ℤ same_int) where
  -- The loops of `execlist_build`, over hosts and over services. The flag chooses the chain, and the
  -- function the field that is compared with the text. The fuel bounds the number of rounds.
  unfoldable pub host_loop :
      ℕ
      → Db S I
      → ℤ
      → LookupFlag
      → (Option ℕ → Option ℕ → Result CString)
      → Bytes
      → Option ℕ
      → List ExecItem
      → Result (List ExecItem)
  unfolding execlist_append
  host_loop zero db cmd_id flag field text host items = fault out_of_fuel
  host_loop (suc fuel) db cmd_id flag field text none items = ok items
  host_loop (suc fuel) db cmd_id flag field text (some p) items = do
    value ← field (some p) none
    found ← deref value
    expanded ← db_extract_expanded_text S I db (some p) none
    next ← db_lookup_host_by_cmd_id S I db cmd_id (some p) flag
    host_loop fuel db cmd_id flag field text next
        (if equal text found then execlist_append items expanded for_host (some p) none else items)

  unfoldable pub svc_loop :
      ℕ
      → Db S I
      → ℤ
      → LookupFlag
      → (Option ℕ → Option ℕ → Result CString)
      → Bytes
      → Option ℕ
      → List ExecItem
      → Result (List ExecItem)
  unfolding execlist_append
  svc_loop zero db cmd_id flag field text svc items = fault out_of_fuel
  svc_loop (suc fuel) db cmd_id flag field text none items = ok items
  svc_loop (suc fuel) db cmd_id flag field text (some p) items = do
    value ← field none (some p)
    found ← deref value
    expanded ← db_extract_expanded_text S I db none (some p)
    next ← db_lookup_svc_by_cmd_id S I db cmd_id (some p) flag
    svc_loop fuel db cmd_id flag field text next
        (if equal text found then execlist_append items expanded for_svc none (some p) else items)

  -- The two loops in turn, each from the head of the command's chain.
  unfoldable pub matching :
      Db S I
      → ℤ
      → LookupFlag
      → (Option ℕ → Option ℕ → Result CString)
      → Bytes
      → Result (List ExecItem)
  unfolding host_loop svc_loop
  matching db cmd_id flag field text = do
    host ← db_lookup_host_by_cmd_id S I db cmd_id none no_flag
    items ← host_loop (suc (length db.hosts)) db cmd_id flag field text host []
    svc ← db_lookup_svc_by_cmd_id S I db cmd_id none no_flag
    svc_loop (suc (length db.svcs)) db cmd_id flag field text svc items

  -- Where nothing but the sender's address is known.
  unfoldable pub build_by_sender : Db S I → ℤ → Bool → CString → Result (List ExecItem)
  unfolding matching execlist_append command_expand_2
  build_by_sender db cmd_id use_sender_address none = ok []
  build_by_sender db cmd_id use_sender_address (some sender) =
      if is_empty (some sender)
      then ok []
      else if use_sender_address
      then matching db cmd_id next_by_host_address (db_extract_host_address S I db) sender
      else (do
        text ← db_lookup_expanded_text_by_cmd_id S I db cmd_id
        expanded ← command_expand_2 text none (some sender)
        ok (execlist_append [] expanded for_either none none))

  unfoldable pub build_by_name : Db S I → ℤ → Bool → CString → CString → Result (List ExecItem)
  unfolding matching build_by_sender
  build_by_name db cmd_id use_sender_address sender none =
      build_by_sender db cmd_id use_sender_address sender
  build_by_name db cmd_id use_sender_address sender (some name) =
      if is_empty (some name)
      then build_by_sender db cmd_id use_sender_address sender
      else matching db cmd_id next_by_host_name (db_extract_host_name S I db) name

  unfoldable pub build_by_address :
      Db S I → ℤ → Bool → CString → CString → CString → Result (List ExecItem)
  unfolding matching build_by_name
  build_by_address db cmd_id use_sender_address sender none host_name =
      build_by_name db cmd_id use_sender_address sender host_name
  build_by_address db cmd_id use_sender_address sender (some address) host_name =
      if is_empty (some address)
      then build_by_name db cmd_id use_sender_address sender host_name
      else matching db cmd_id next_by_host_address (db_extract_host_address S I db) address

  -- The command of the user, or else the address, the name and the sender's address, in this order.
  unfoldable pub execlist_build :
      Db S I → CString → ℤ → Bool → CString → CString → CString → Result (List ExecItem)
  unfolding build_by_address execlist_append command_expand_2
  execlist_build db none cmd_id use_sender_address sender host_address host_name =
      build_by_address db cmd_id use_sender_address sender host_address host_name
  execlist_build db (some command) cmd_id use_sender_address sender host_address host_name =
      if is_empty (some command) then fault assertion else (do
        expanded ← command_expand_2 (some command) host_address sender
        ok (execlist_append [] expanded for_host none none))
