-- ===== src/Execlist/Matches.antt =====
-- What the list of runs holds.
use nagios_snmp.Base.{
  ℕ, zero, suc, Bool, true, false, List, [], ◌∷◌, ◌++◌, Option, none, some, Bytes, CString, equal,
  equal_iff, Result, ok, if◌then◌else◌, length, All, All-append, deref, ◌≡◌, ◌⊎◌, inl, inr, refl,
  sym, ap, ◌∙◌,
}
use nagios_snmp.Base.Int.{ℤ}
use nagios_snmp.Base.Post.{Post, Post-bind, Post-then, Post-from, Post-ok}
use nagios_snmp.Util.{is_empty, xstrdup}
use nagios_snmp.Db.Tables.{HashTable}
use nagios_snmp.Db.{
  same_int, Db, LookupFlag, next_by_host_address, no_flag, db_lookup_host_by_cmd_id,
  db_lookup_svc_by_cmd_id, db_extract_host_address, db_extract_expanded_text,
}
use nagios_snmp.Execlist.{
  for_host, for_svc, ExecItem, execlist_append, host_loop, svc_loop, matching, build_by_address,
  execlist_build,
}

deref_inv : (s : CString) (t : Bytes) → deref s ≡ ok t → s ≡ some t
deref_inv none t e = cc
deref_inv (some s) t e = cc

module _ (S : HashTable Bytes equal) (I : HashTable ℤ same_int) (db : Db S I) where
  -- An item for a host or a service whose field is the text, with its own command line.
  abbrev pub IsMatch : (Option ℕ → Option ℕ → Result CString) → Bytes → ExecItem → Type 0
  IsMatch field text i =
      ((p : ℕ) × (command : CString) × (i
          ≡ record { command = xstrdup command; is_service = for_host; host = some p; svc = none })
        × (db_extract_expanded_text S I db (some p) none ≡ ok command)
        × (field (some p) none ≡ ok (some text)))
      ⊎ ((p : ℕ) × (command : CString) × (i
            ≡ record { command = xstrdup command; is_service = for_svc; host = none; svc = some p })
          × (db_extract_expanded_text S I db none (some p) ≡ ok command)
          × (field none (some p) ≡ ok (some text)))

  module _ (cmd_id : ℤ) (flag : LookupFlag) (field : Option ℕ → Option ℕ → Result CString)
      (text : Bytes) where
    if-All :
        (b : Bool) (items : List ExecItem) (i : ExecItem)
        → All (IsMatch field text) items
        → (b ≡ true → IsMatch field text i)
        → All (IsMatch field text) (if b then items ++ i ∷ [] else items)
    if-All true items i h k = All-append (IsMatch field text) items (i ∷ []) h (k refl, tt)
    if-All false items i h k = h

    value_is :
        (m : Result CString) (value : CString) (found : Bytes)
        → m ≡ ok value
        → deref value ≡ ok found
        → equal text found ≡ true
        → m ≡ ok (some text)
    value_is m value found e d q =
        let same : text ≡ found = (equal_iff text found).0 q in
        e ∙ ap ok (deref_inv value found d ∙ ap some (sym same))

    host_loop-All :
        (fuel : ℕ) (host : Option ℕ) (items : List ExecItem)
        → All (IsMatch field text) items
        → Post (All (IsMatch field text)) (host_loop S I fuel db cmd_id flag field text host items)
    unfolding host_loop execlist_append
    host_loop-All zero host items h = tt
    host_loop-All (suc fuel) none items h = h
    host_loop-All (suc fuel) (some p) items h =
        let Q = All (IsMatch field text) in
        Post-from Q (field (some p) none) _ (λ value e. Post-from Q (deref value) _ (λ found d.
          Post-from Q (db_extract_expanded_text S I db (some p) none) _ (λ expanded x.
            Post-bind Q (db_lookup_host_by_cmd_id S I db cmd_id (some p) flag) _ (λ next.
              host_loop-All fuel next _ (
                if-All (equal text found) items _ h (λ q.
                  inl (p, expanded, refl, x, value_is (field (some p) none) value found e d q)))))))

    svc_loop-All :
        (fuel : ℕ) (svc : Option ℕ) (items : List ExecItem)
        → All (IsMatch field text) items
        → Post (All (IsMatch field text)) (svc_loop S I fuel db cmd_id flag field text svc items)
    unfolding svc_loop execlist_append
    svc_loop-All zero svc items h = tt
    svc_loop-All (suc fuel) none items h = h
    svc_loop-All (suc fuel) (some p) items h =
        let Q = All (IsMatch field text) in
        Post-from Q (field none (some p)) _ (λ value e. Post-from Q (deref value) _ (λ found d.
          Post-from Q (db_extract_expanded_text S I db none (some p)) _ (λ expanded x.
            Post-bind Q (db_lookup_svc_by_cmd_id S I db cmd_id (some p) flag) _ (λ next.
              svc_loop-All fuel next _ (
                if-All (equal text found) items _ h (λ q.
                  inr (p, expanded, refl, x, value_is (field none (some p)) value found e d q)))))))

    pub matching-All : Post (All (IsMatch field text)) (matching S I db cmd_id flag field text)
    unfolding matching
    matching-All =
        let Q = All (IsMatch field text) in
        Post-bind Q (db_lookup_host_by_cmd_id S I db cmd_id none no_flag) _ (λ host.
          Post-then Q Q (host_loop S I (suc (length db.hosts)) db cmd_id flag field text host []) _
            (host_loop-All (suc (length db.hosts)) host [] tt)
            (λ items h.
              Post-bind Q (db_lookup_svc_by_cmd_id S I db cmd_id none no_flag) _
                (λ svc. svc_loop-All (suc (length db.svcs)) svc items h)))

  -- Where a plugin has named an address, and the user no command, each run that is listed is one for
  -- a host or a service of the tables with that very address, and with its own command line; names
  -- and the sender do not matter.
  pub execlist_build-IsMatch :
      (cmd_id : ℤ) (use_sender_address : Bool) (sender host_name : CString) (c : ℕ)
      (address : Bytes) (items : List ExecItem)
      → execlist_build S I db none cmd_id use_sender_address sender (some (c ∷ address)) host_name
        ≡ ok items
      → All (IsMatch (db_extract_host_address S I db) (c ∷ address)) items
  unfolding execlist_build build_by_address is_empty
  execlist_build-IsMatch cmd_id use_sender_address sender host_name c address items e =
      Post-ok (All (IsMatch (db_extract_host_address S I db) (c ∷ address))) _ items e
        (matching-All cmd_id next_by_host_address (db_extract_host_address S I db) (c ∷ address))
