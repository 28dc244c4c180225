-- ===== src/Execlist/Missed.antt =====
-- The hosts that the walk of the chains misses.
use nagios_snmp.Base.{
  ℕ, suc, Bool, false, List, [], ◌∷◌, none, some, Bytes, CString, equal, ok, length, get_elem?, ◌≡◌,
  refl,
}
use nagios_snmp.Base.Int.{ℤ}
use nagios_snmp.Util.{is_empty}
use nagios_snmp.Db.Tables.{HashTable}
use nagios_snmp.Db.{
  same_int, Db, Host, next_by_host_address, db_lookup_host_by_cmd_id, db_lookup_svc_by_cmd_id,
  db_extract_host_address, db_extract_expanded_text, deref_in,
}
use nagios_snmp.Execlist.{host_loop, svc_loop, matching, build_by_address, execlist_build}

get_elem?-length {ℓ} :
    {A : Type ℓ} (xs : List A) (p : ℕ) (a : A)
    → get_elem? xs p ≡ some a
    → (n : ℕ) × (length xs ≡ suc n)
get_elem?-length [] p a e = cc
get_elem?-length (x ∷ xs) p a e = (length xs, refl)

deref_in-at {ℓ} :
    {A : Type ℓ} (xs : List A) (p : ℕ) (a : A) → get_elem? xs p ≡ some a → deref_in xs p ≡ ok a
deref_in-at xs p a e = rw (deref_in, e)

module _ (S : HashTable Bytes equal) (I : HashTable ℤ same_int) (db : Db S I) (cmd_id : ℤ) (p : ℕ)
    (h : Host) (address other : Bytes) where
  -- The first host of the command, and it alone.
  host_loop-first :
      (n : ℕ)
      → get_elem? db.hosts p ≡ some h
      → h.h_address ≡ some other
      → h.h_next_by_address ≡ none
      → equal address other ≡ false
      → host_loop S I
          (suc (suc n))
          db
          cmd_id
          next_by_host_address
          (db_extract_host_address S I db)
          address
          (some p)
          []
        ≡ ok []
  unfolding host_loop db_extract_host_address db_extract_expanded_text db_lookup_host_by_cmd_id
  host_loop-first n e a l q = let at_p = deref_in-at db.hosts p h e in rw at_p (rw (a, l) (rw q))

  -- If the newest host of a command has another address than the plugin named, and is the first of
  -- its own address, then nothing is listed for a command with no services: whatever other hosts of
  -- the command the tables hold, and whatever their addresses, they are not looked at.
  pub execlist_build_missed :
      (use_sender_address : Bool) (sender host_name : CString)
      → I.lookup cmd_id db.hosts_by_cmd_id ≡ some p
      → get_elem? db.hosts p ≡ some h
      → h.h_address ≡ some other
      → h.h_next_by_address ≡ none
      → equal address other ≡ false
      → I.lookup cmd_id db.svcs_by_cmd_id ≡ none
      → is_empty (some address) ≡ false
      → execlist_build S I db none cmd_id use_sender_address sender (some address) host_name ≡ ok []
  unfolding execlist_build build_by_address matching db_lookup_host_by_cmd_id
      db_lookup_svc_by_cmd_id svc_loop
  execlist_build_missed use_sender_address sender host_name head e a l q svcs ne =
      let (n, k) = get_elem?-length db.hosts p h e in
      rw (execlist_build, ne) (rw (head, k) (rw (host_loop-first n e a l q) (rw svcs refl)))
