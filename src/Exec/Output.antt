-- ===== src/Exec/Output.antt =====
-- The search for a result's service in the tables ends.
use nagios_snmp.Base.{
  ℕ, zero, suc, Bool, true, false, not, ◌&&◌, [], ◌∷◌, Option, none, some, Bytes, CString, equal,
  Result, ok, ◌>>=◌, if◌then◌else◌, length, get_elem?, deref, ◌≡◌, sym, arith,
}
use nagios_snmp.Base.Int.{ℤ}
use nagios_snmp.Base.Ends.{Ends, Ends-ok, Ends-bind, Ends-if, Ends-deref}
use nagios_snmp.Util.{is_empty}
use nagios_snmp.Channel.{Channel}
use nagios_snmp.Db.Tables.{HashTable}
use nagios_snmp.Db.{
  same_int, Db, LookupFlag, no_flag, next_by_host_name, next_by_host_address, next_svc, lookup_text,
  deref_in, db_lookup_svc_by_host_name, db_lookup_svc_by_host_address, db_extract_svc_desc,
}
use nagios_snmp.Db.Chains.{Below, Below-mono, IsChained, IsBelow}
use nagios_snmp.Execlist.Walk.{Ends-deref_in, link-Below, svc_link-Below}
use nagios_snmp.Exec.{ExecResult}
use nagios_snmp.Exec.Run.{svc_known, confirmed_by_tables, do_output}

if-Below :
    (n : ℕ) (b : Bool) (m : Result (Option ℕ)) (q : Option ℕ)
    → (m ≡ ok q → Below n q)
    → (if b then ok none else m) ≡ ok q
    → Below n q
if-Below n true m q h e = let f : none ≡ q = cc in rw (sym f) tt
if-Below n false m q h e = h e

found-Below : (n : ℕ) (o q : Option ℕ) → Below n o → ok o ≡ ok q → Below n q
found-Below n o q h e = let f : o ≡ q = cc in rw (sym f) h

module _ (S : HashTable Bytes equal) (I : HashTable ℤ same_int) (db : Db S I) where
  lookup_text-Below :
      (n : ℕ) (key : CString) (t : S.Table) → IsBelow S n t → Below n (lookup_text S I key t)
  unfolding is_empty
  lookup_text-Below n none t h = tt
  lookup_text-Below n (some []) t h = tt
  lookup_text-Below n (some (c ∷ k)) t h = h (c ∷ k)

  Ends-svc_known :
      (n : ℕ) (next : Option ℕ → Result (Option ℕ)) (desc : CString) (svc : Option ℕ)
      → ((p : ℕ) → Ends (next (some p)))
      → ((p : ℕ) (q : Option ℕ) → next (some p) ≡ ok q → Below p q)
      → Below n svc
      → Ends (svc_known S I (suc n) db next desc svc)
  unfolding svc_known db_extract_svc_desc
  Ends-svc_known n next desc none he hb b = Ends-ok false
  Ends-svc_known zero next desc (some p) he hb b = absurd (omega arith)
  Ends-svc_known (suc n) next desc (some p) he hb b =
      Ends-bind (deref desc) _ (Ends-deref desc) (λ wanted _.
        Ends-bind (db_extract_svc_desc S I db (some p)) _
          (Ends-bind (deref_in db.svcs p) _ (Ends-deref_in db.svcs p) (λ _ _. Ends-ok _))
          (λ value _. Ends-bind (deref value) _ (Ends-deref value) (λ found _.
            Ends-if (equal wanted found) _ _ (Ends-ok true) (
              Ends-bind (next (some p)) _ (he p) (λ q e.
                Ends-svc_known n next desc q he hb (Below-mono p n q (omega arith) (hb p q e)))))))

  -- The link of a service, by the flag.
  Ends-link :
      (p : ℕ) (flag : LookupFlag) → Ends (deref_in db.svcs p >>= λ s. ok (next_svc S I flag s))
  Ends-link p flag =
      Ends-bind (deref_in db.svcs p) _ (Ends-deref_in db.svcs p)
        (λ s _. Ends-ok (next_svc S I flag s))

  module _ (chained : IsChained S I db) where
    svc_linked :
        (p : ℕ) (flag : LookupFlag) (q : Option ℕ)
        → (deref_in db.svcs p >>= λ s. ok (next_svc S I flag s)) ≡ ok q
        → Below p q
    svc_linked p flag q e =
        link-Below p (get_elem? db.svcs p) (next_svc S I flag) q
          (svc_link-Below S I db chained p flag) e

    Ends-confirmed_by_tables : (r : ExecResult) → Ends (confirmed_by_tables S I db r)
    unfolding confirmed_by_tables db_lookup_svc_by_host_name db_lookup_svc_by_host_address
    Ends-confirmed_by_tables r = Ends-if (not r.is_service) _ _ (Ends-ok _) (
        Ends-bind (db_lookup_svc_by_host_name S I db r.host_name none no_flag) _
          (Ends-if (is_empty r.host_name) _ _ (Ends-ok none) (Ends-ok _))
          (λ first e.
            Ends-bind
              (svc_known S I (suc (length db.svcs)) db
                (λ s. db_lookup_svc_by_host_name S I db r.host_name s next_by_host_name) r.svc_desc
                first)
              _
              (Ends-svc_known (length db.svcs)
                (λ s. db_lookup_svc_by_host_name S I db r.host_name s next_by_host_name) r.svc_desc
                first
                (λ p.
                  Ends-if (is_empty r.host_name) _ _ (Ends-ok none) (Ends-link p next_by_host_name))
                (λ p q. if-Below p (is_empty r.host_name) _ q (svc_linked p next_by_host_name q))
                (if-Below (length db.svcs) (is_empty r.host_name) _ first
                  (found-Below (length db.svcs) _ first (
                    lookup_text-Below (length db.svcs) r.host_name db.svcs_by_host_name
                      chained.svc_by_name))
                  e))
              (λ by_name _. Ends-if by_name _ _ (Ends-ok true) (
                Ends-bind (db_lookup_svc_by_host_address S I db r.host_address none no_flag) _
                  (Ends-if (is_empty r.host_address) _ _ (Ends-ok none) (Ends-ok _))
                  (λ head d.
                    Ends-svc_known (length db.svcs)
                      (λ s.
                        db_lookup_svc_by_host_address S I db r.host_address s next_by_host_address)
                      r.svc_desc head
                      (λ p.
                        Ends-if (is_empty r.host_address) _ _ (Ends-ok none)
                          (Ends-link p next_by_host_address))
                      (λ p q.
                        if-Below p (is_empty r.host_address) _ q
                          (svc_linked p next_by_host_address q))
                      (if-Below (length db.svcs) (is_empty r.host_address) _ head
                        (found-Below (length db.svcs) _ head (
                          lookup_text-Below (length db.svcs) r.host_address db.svcs_by_host_address
                            chained.svc_by_address))
                        d))))))

    pub Ends-do_output :
        (taken : Bool) (r : ExecResult) (channel : Channel)
        → Ends (do_output S I taken db r channel)
    unfolding do_output
    Ends-do_output taken r channel =
        Ends-bind (if not r.use_sender_address then confirmed_by_tables S I db r else ok true) _
          (Ends-if (not r.use_sender_address) _ _ (Ends-confirmed_by_tables r) (Ends-ok true))
          (λ known _.
            Ends-if
              ((known && not (is_empty r.host_name)) && not (r.is_service && is_empty r.svc_desc)) _
              _ (Ends-ok _) (Ends-ok _))
