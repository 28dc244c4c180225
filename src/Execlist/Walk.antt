-- ===== src/Execlist/Walk.antt =====
-- The walks along the chains end: there is fuel for each link.
use nagios_snmp.Base.{
  ℕ, zero, suc, List, [], Option, none, some, Bytes, CString, equal, Result, ok, fault, null_deref,
  ◌>>=◌, length, get_elem?, ◌≡◌, refl, sym, arith, deref,
}
use nagios_snmp.Base.Int.{ℤ}
use nagios_snmp.Base.Ends.{Ends, Ends-ok, Ends-bind, Ends-elim, Ends-deref}
use nagios_snmp.Db.Tables.{HashTable}
use nagios_snmp.Db.{
  same_int, Db, Host, Svc, LookupFlag, no_flag, next_by_host_name, next_by_host_address,
  db_lookup_host_by_cmd_id, db_lookup_svc_by_cmd_id, db_extract_expanded_text, deref_in, next_host,
  next_svc,
}
use nagios_snmp.Db.Chains.{Below, Below-mono, IsChained}
use nagios_snmp.Execlist.{ExecItem, host_loop, svc_loop, matching}

pub Ends-deref_in {ℓ} : {A : Type ℓ} (store : List A) (p : ℕ) → Ends (deref_in store p)
Ends-deref_in store p =
    Ends-elim (get_elem? store p) (fault null_deref) ok (λ e. cc) (λ a. Ends-ok a)

-- A link that is read through an index, where the links of that entry lie below `n`.
pub link-Below {ℓ} :
    {A : Type ℓ} (n : ℕ) (o : Option A) (link : A → Option ℕ) (q : Option ℕ)
    → ((a : A) → o ≡ some a → Below n (link a))
    → (elim o [ none ↦ fault null_deref | some a ↦ ok a ] >>= λ a. ok (link a)) ≡ ok q
    → Below n q
link-Below n none link q h e = cc
link-Below n (some a) link q h e = let f : link a ≡ q = cc in rw (sym f) (h a refl)

module _ (S : HashTable Bytes equal) (I : HashTable ℤ same_int) (db : Db S I)
    (c : IsChained S I db) where
  pub host_link-Below :
      (p : ℕ) (flag : LookupFlag) (h : Host)
      → get_elem? db.hosts p ≡ some h
      → Below p (next_host S I flag h)
  host_link-Below p next_by_host_name h e = (c.hosts_below p h e).0
  host_link-Below p next_by_host_address h e = (c.hosts_below p h e).1
  host_link-Below p no_flag h e = tt

  pub svc_link-Below :
      (p : ℕ) (flag : LookupFlag) (s : Svc)
      → get_elem? db.svcs p ≡ some s
      → Below p (next_svc S I flag s)
  svc_link-Below p next_by_host_name s e = (c.svcs_below p s e).0
  svc_link-Below p next_by_host_address s e = (c.svcs_below p s e).1
  svc_link-Below p no_flag s e = tt

  next_host-Below :
      (cmd_id : ℤ) (p : ℕ) (flag : LookupFlag) (q : Option ℕ)
      → db_lookup_host_by_cmd_id S I db cmd_id (some p) flag ≡ ok q
      → Below p q
  unfolding db_lookup_host_by_cmd_id
  next_host-Below cmd_id p flag q e =
      link-Below p (get_elem? db.hosts p) (next_host S I flag) q (host_link-Below p flag) e

  next_svc-Below :
      (cmd_id : ℤ) (p : ℕ) (flag : LookupFlag) (q : Option ℕ)
      → db_lookup_svc_by_cmd_id S I db cmd_id (some p) flag ≡ ok q
      → Below p q
  unfolding db_lookup_svc_by_cmd_id
  next_svc-Below cmd_id p flag q e =
      link-Below p (get_elem? db.svcs p) (next_svc S I flag) q (svc_link-Below p flag) e

  Ends-host_loop :
      (n : ℕ) (cmd_id : ℤ) (flag : LookupFlag) (field : Option ℕ → Option ℕ → Result CString)
      (text : Bytes) (host : Option ℕ) (items : List ExecItem)
      → ((a b : Option ℕ) → Ends (field a b))
      → Below n host
      → Ends (host_loop S I (suc n) db cmd_id flag field text host items)
  unfolding host_loop db_extract_expanded_text db_lookup_host_by_cmd_id
  Ends-host_loop n cmd_id flag field text none items fe b = Ends-ok items
  Ends-host_loop zero cmd_id flag field text (some p) items fe b = absurd (omega arith)
  Ends-host_loop (suc n) cmd_id flag field text (some p) items fe b =
      Ends-bind (field (some p) none) _ (fe (some p) none) (λ value _.
        Ends-bind (deref value) _ (Ends-deref value) (λ found _.
          Ends-bind (db_extract_expanded_text S I db (some p) none) _
            (Ends-bind (deref_in db.hosts p) _ (Ends-deref_in db.hosts p)
              (λ h _. Ends-ok h.h_expanded_text))
            (λ expanded _.
              Ends-bind (db_lookup_host_by_cmd_id S I db cmd_id (some p) flag) _
                (Ends-bind (deref_in db.hosts p) _ (Ends-deref_in db.hosts p)
                  (λ h _. Ends-ok (next_host S I flag h)))
                (λ next e.
                  Ends-host_loop n cmd_id flag field text next _ fe
                    (Below-mono p n next (omega arith) (next_host-Below cmd_id p flag next e))))))

  Ends-svc_loop :
      (n : ℕ) (cmd_id : ℤ) (flag : LookupFlag) (field : Option ℕ → Option ℕ → Result CString)
      (text : Bytes) (svc : Option ℕ) (items : List ExecItem)
      → ((a b : Option ℕ) → Ends (field a b))
      → Below n svc
      → Ends (svc_loop S I (suc n) db cmd_id flag field text svc items)
  unfolding svc_loop db_extract_expanded_text db_lookup_svc_by_cmd_id
  Ends-svc_loop n cmd_id flag field text none items fe b = Ends-ok items
  Ends-svc_loop zero cmd_id flag field text (some p) items fe b = absurd (omega arith)
  Ends-svc_loop (suc n) cmd_id flag field text (some p) items fe b =
      Ends-bind (field none (some p)) _ (fe none (some p)) (λ value _.
        Ends-bind (deref value) _ (Ends-deref value) (λ found _.
          Ends-bind (db_extract_expanded_text S I db none (some p)) _
            (Ends-bind (deref_in db.svcs p) _ (Ends-deref_in db.svcs p)
              (λ s _. Ends-ok s.svc_expanded_text))
            (λ expanded _.
              Ends-bind (db_lookup_svc_by_cmd_id S I db cmd_id (some p) flag) _
                (Ends-bind (deref_in db.svcs p) _ (Ends-deref_in db.svcs p)
                  (λ s _. Ends-ok (next_svc S I flag s)))
                (λ next e.
                  Ends-svc_loop n cmd_id flag field text next _ fe
                    (Below-mono p n next (omega arith) (next_svc-Below cmd_id p flag next e))))))

  pub Ends-matching :
      (cmd_id : ℤ) (flag : LookupFlag) (field : Option ℕ → Option ℕ → Result CString) (text : Bytes)
      → ((a b : Option ℕ) → Ends (field a b))
      → Ends (matching S I db cmd_id flag field text)
  unfolding matching db_lookup_host_by_cmd_id db_lookup_svc_by_cmd_id
  Ends-matching cmd_id flag field text fe =
      Ends-bind
        (host_loop S I (suc (length db.hosts)) db cmd_id flag field text
          (I.lookup cmd_id db.hosts_by_cmd_id) [])
        _ (Ends-host_loop (length db.hosts) cmd_id flag field text _ [] fe (c.by_cmd_id cmd_id))
        (λ items _.
          Ends-svc_loop (length db.svcs) cmd_id flag field text _ items fe (c.svc_by_cmd_id cmd_id))
