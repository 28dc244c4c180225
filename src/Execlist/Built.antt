-- ===== src/Execlist/Built.antt =====
-- The list of what to run is always built to its end.
use nagios_snmp.Base.{ℕ, Bool, [], Option, none, some, Bytes, CString, equal}
use nagios_snmp.Base.Int.{ℤ, negsuc}
use nagios_snmp.Base.Ends.{Ends, Ends-ok, Ends-bind, Ends-elim, Ends-if}
use nagios_snmp.Util.{is_empty}
use nagios_snmp.Command.{command_expand_2}
use nagios_snmp.Command.Ends.{Ends-command_expand_2}
use nagios_snmp.Db.Tables.{HashTable}
use nagios_snmp.Db.{
  same_int, Db, next_by_host_name, next_by_host_address, db_lookup_expanded_text_by_cmd_id,
  db_lookup_command_by_cmd_id, db_extract_host_address, db_extract_host_name, deref_in,
}
use nagios_snmp.Db.Chains.{IsChained}
use nagios_snmp.Execlist.{build_by_sender, build_by_name, build_by_address, execlist_build}
use nagios_snmp.Execlist.Walk.{Ends-deref_in, Ends-matching}

module _ (S : HashTable Bytes equal) (I : HashTable ℤ same_int) (db : Db S I) where
  pub Ends-extract_address : (a b : Option ℕ) → Ends (db_extract_host_address S I db a b)
  unfolding db_extract_host_address
  Ends-extract_address (some p) b =
      Ends-bind (deref_in db.hosts p) _ (Ends-deref_in db.hosts p) (λ _ _. Ends-ok _)
  Ends-extract_address none (some p) =
      Ends-bind (deref_in db.svcs p) _ (Ends-deref_in db.svcs p) (λ _ _. Ends-ok _)
  Ends-extract_address none none = Ends-ok none

  pub Ends-extract_name : (a b : Option ℕ) → Ends (db_extract_host_name S I db a b)
  unfolding db_extract_host_name
  Ends-extract_name (some p) b =
      Ends-bind (deref_in db.hosts p) _ (Ends-deref_in db.hosts p) (λ _ _. Ends-ok _)
  Ends-extract_name none (some p) =
      Ends-bind (deref_in db.svcs p) _ (Ends-deref_in db.svcs p) (λ _ _. Ends-ok _)
  Ends-extract_name none none = Ends-ok none

  Ends-expanded_text : (cmd_id : ℤ) → Ends (db_lookup_expanded_text_by_cmd_id S I db cmd_id)
  unfolding db_lookup_expanded_text_by_cmd_id
  Ends-expanded_text cmd_id = Ends-if (same_int cmd_id (negsuc 0)) _ _ (Ends-ok none) (
      Ends-elim (db_lookup_command_by_cmd_id S I db cmd_id) _ _ (Ends-ok none) (λ p.
        Ends-bind (deref_in db.commands p) _ (Ends-deref_in db.commands p) (λ _ _. Ends-ok _)))

  module _ (chained : IsChained S I db) (cmd_id : ℤ) (use_sender_address : Bool) where
    Ends-build_by_sender :
        (sender : CString) → Ends (build_by_sender S I db cmd_id use_sender_address sender)
    unfolding build_by_sender
    Ends-build_by_sender none = Ends-ok []
    Ends-build_by_sender (some sender) = Ends-if (is_empty (some sender)) _ _ (Ends-ok []) (
        Ends-if use_sender_address _ _
          (Ends-matching S I db chained cmd_id next_by_host_address (db_extract_host_address S I db)
            sender Ends-extract_address)
          (Ends-bind (db_lookup_expanded_text_by_cmd_id S I db cmd_id) _ (Ends-expanded_text cmd_id)
            (λ text _.
              Ends-bind (command_expand_2 text none (some sender)) _
                (Ends-command_expand_2 text none (some sender)) (λ _ _. Ends-ok _))))

    Ends-build_by_name :
        (sender host_name : CString)
        → Ends (build_by_name S I db cmd_id use_sender_address sender host_name)
    unfolding build_by_name
    Ends-build_by_name sender none = Ends-build_by_sender sender
    Ends-build_by_name sender (some name) =
        Ends-if (is_empty (some name)) _ _ (Ends-build_by_sender sender) (
          Ends-matching S I db chained cmd_id next_by_host_name (db_extract_host_name S I db) name
            Ends-extract_name)

    Ends-build_by_address :
        (sender host_address host_name : CString)
        → Ends (build_by_address S I db cmd_id use_sender_address sender host_address host_name)
    unfolding build_by_address
    Ends-build_by_address sender none host_name = Ends-build_by_name sender host_name
    Ends-build_by_address sender (some address) host_name =
        Ends-if (is_empty (some address)) _ _ (Ends-build_by_name sender host_name) (
          Ends-matching S I db chained cmd_id next_by_host_address (db_extract_host_address S I db)
            address Ends-extract_address)

    -- On tables whose links go to older entries, the list of what to run is built with the fuel at
    -- hand, whatever is known of the trap: each walk along a chain comes to its end.
    pub execlist_build-Ends :
        (command sender host_address host_name : CString)
        → Ends
            (execlist_build S I db command cmd_id use_sender_address sender host_address host_name)
    unfolding execlist_build
    execlist_build-Ends none sender host_address host_name =
        Ends-build_by_address sender host_address host_name
    execlist_build-Ends (some command) sender host_address host_name =
        Ends-if (is_empty (some command)) _ _ (λ e. cc)
          (Ends-bind (command_expand_2 (some command) host_address sender) _
            (Ends-command_expand_2 (some command) host_address sender) (λ _ _. Ends-ok _))
