-- ===== src/Db/Chains.antt =====
-- The chains of the tables: each link goes to an older entry, so that a walk along one ends.
pub mod Loading
use nagios_snmp.Base.{
  ℕ, zero, suc, ◌+◌, ◌<◌, ◌≤◌, Bool, true, false, List, [], ◌∷◌, ◌++◌, Option, none, some, Bytes,
  CString, equal, Result, ok, fault, ◌>>=◌, ◌>>◌, if◌then◌else◌, length, length-append, get_elem?,
  ◌≡◌, ◌⊎◌, refl, ap, sym, ◌∙◌, arith, Bool-cases, Option-cases, inl, inr,
}
use nagios_snmp.Base.Int.{ℤ, atoi}
use nagios_snmp.Db.Tables.{HashTable}
use nagios_snmp.Db.{same_int, Db, Host, Svc}
use nagios_snmp.Db.Load.{
  link_host, link_svc, fetch_resource, fetch_command, fetch_host, fetch_svc, fetch_trap_handler,
  fetch_all, fresh_db, db_init, Rows,
}

-- An index, if there is one, lies below `n`.
abbrev pub Below : ℕ → Option ℕ → Type 0
Below n none = Unit
Below n (some p) = p < n

pub Below-mono : (m n : ℕ) (o : Option ℕ) → m ≤ n → Below m o → Below n o
Below-mono m n none h b = tt
Below-mono m n (some p) h b = omega arith

-- The two links of a host that are followed, and of a service.
abbrev pub IsHostBelow : ℕ → Host → Type 0
IsHostBelow n h = Below n h.h_next_by_name × Below n h.h_next_by_address

abbrev pub IsSvcBelow : ℕ → Svc → Type 0
IsSvcBelow n s = Below n s.svc_next_by_host_name × Below n s.svc_next_by_host_address

get_elem?-snoc {ℓ} :
    {A : Type ℓ} (xs : List A) (a b : A) (i : ℕ)
    → get_elem? (xs ++ a ∷ []) i ≡ some b
    → (get_elem? xs i ≡ some b) ⊎ ((i ≡ length xs) × (a ≡ b))
get_elem?-snoc [] a b zero e = inr (refl, cc)
get_elem?-snoc [] a b (suc i) e = cc
get_elem?-snoc (x ∷ xs) a b zero e = inl e
get_elem?-snoc (x ∷ xs) a b (suc i) e = elim (get_elem?-snoc xs a b i e) [
  | inl f ↦ inl f
  | inr (f, g) ↦ inr (ap suc f, g)
]

length-snoc {ℓ} : {A : Type ℓ} (xs : List A) (a : A) → length (xs ++ a ∷ []) ≡ suc (length xs)
length-snoc xs a = omega (arith, length-append xs (a ∷ []))

-- A property of each index and its entry, of a store with one entry more.
snoc-at {ℓ} :
    {A : Type ℓ} (P : ℕ → A → Type 0) (xs : List A) (new : A)
    → P (length xs) new
    → ((i : ℕ) (a : A) → get_elem? xs i ≡ some a → P i a)
    → (i : ℕ) (a : A) → get_elem? (xs ++ new ∷ []) i ≡ some a
    → P i a
snoc-at P xs new n old i a e = elim (get_elem?-snoc xs new a i e) [
  | inl f ↦ old i a f
  | inr (f, g) ↦ rw (f, sym g) n
]

-- Every entry of a table lies below `n`.
module _ {K : Type 0} {same : K → K → Bool} (T : HashTable K same) where
  abbrev pub IsBelow : ℕ → T.Table → Type 0
  IsBelow n t = (k : K) → Below n (T.lookup k t)

  new-IsBelow : (n : ℕ) → IsBelow n T.new
  new-IsBelow n k = rw (T.lookup-new k) tt

  insert-IsBelow : (k : K) (n : ℕ) (t : T.Table) → IsBelow n t → IsBelow (suc n) (T.insert k n t)
  insert-IsBelow k n t h j = elim (Bool-cases (same k j)) [
    | inl e ↦ rw (T.lookup-insert k j n t, e) (omega arith)
    | inr e ↦
        rw (T.lookup-insert k j n t, e) (Below-mono n (suc n) (T.lookup j t) (omega arith) (h j))
  ]

  steal-IsBelow : (k : K) (n : ℕ) (t : T.Table) → IsBelow n t → IsBelow n (T.steal k t)
  steal-IsBelow k n t h j = elim (Bool-cases (same k j)) [
    | inl e ↦ rw (T.lookup-steal k j t, e) tt
    | inr e ↦ rw (T.lookup-steal k j t, e) (h j)
  ]

  -- A head that is taken off, where there is one, before the new head is inserted.
  relink-IsBelow :
      (k : K) (n : ℕ) (t : T.Table)
      → IsBelow n t
      → IsBelow (suc n) (T.insert k n (elim (T.lookup k t) [ none ↦ t | some p ↦ T.steal k t ]))
  relink-IsBelow k n t h = elim (Option-cases (T.lookup k t)) [
    | inl e ↦ rw e (insert-IsBelow k n t h)
    | inr (p, e) ↦ rw e (insert-IsBelow k n (T.steal k t) (steal-IsBelow k n t h))
  ]

module _ (S : HashTable Bytes equal) (I : HashTable ℤ same_int) where
  -- Each link goes to an entry that is older, and each table to one that exists.
  pub record IsChained (db : Db S I) : Type 0 where
    pub hosts_below : (i : ℕ) (h : Host) → get_elem? db.hosts i ≡ some h → IsHostBelow i h
    pub svcs_below : (i : ℕ) (s : Svc) → get_elem? db.svcs i ≡ some s → IsSvcBelow i s
    pub by_name : IsBelow S (length db.hosts) db.hosts_by_host_name
    pub by_address : IsBelow S (length db.hosts) db.hosts_by_address
    pub by_cmd_id : IsBelow I (length db.hosts) db.hosts_by_cmd_id
    pub svc_by_name : IsBelow S (length db.svcs) db.svcs_by_host_name
    pub svc_by_address : IsBelow S (length db.svcs) db.svcs_by_host_address
    pub svc_by_cmd_id : IsBelow I (length db.svcs) db.svcs_by_cmd_id

  link_host-IsChained :
      (db : Db S I) (cmd_id : ℤ) (name address : Bytes) (args : Option (List CString))
      (text : Bytes)
      → IsChained db
      → IsChained (link_host S I db cmd_id name address args text)
  unfolding link_host
  link_host-IsChained db cmd_id name address args text c = record {
    hosts_below =
        snoc-at IsHostBelow db.hosts _ (c.by_name name, c.by_address address) c.hosts_below;
    svcs_below = c.svcs_below;
    by_name =
        rw (length-snoc db.hosts)
          (relink-IsBelow S name (length db.hosts) db.hosts_by_host_name c.by_name);
    by_address =
        rw (length-snoc db.hosts)
          (relink-IsBelow S address (length db.hosts) db.hosts_by_address c.by_address);
    by_cmd_id =
        rw (length-snoc db.hosts)
          (relink-IsBelow I cmd_id (length db.hosts) db.hosts_by_cmd_id c.by_cmd_id);
    svc_by_name = c.svc_by_name;
    svc_by_address = c.svc_by_address;
    svc_by_cmd_id = c.svc_by_cmd_id;
  }

  link_svc-IsChained :
      (db : Db S I) (cmd_id : ℤ) (name address : Bytes) (description : CString)
      (args : Option (List CString)) (text : Bytes)
      → IsChained db
      → IsChained (link_svc S I db cmd_id name address description args text)
  unfolding link_svc
  link_svc-IsChained db cmd_id name address description args text c = record {
    hosts_below = c.hosts_below;
    svcs_below =
        snoc-at IsSvcBelow db.svcs _ (c.svc_by_name name, c.svc_by_address address) c.svcs_below;
    by_name = c.by_name;
    by_address = c.by_address;
    by_cmd_id = c.by_cmd_id;
    svc_by_name =
        rw (length-snoc db.svcs)
          (relink-IsBelow S name (length db.svcs) db.svcs_by_host_name c.svc_by_name);
    svc_by_address =
        rw (length-snoc db.svcs)
          (relink-IsBelow S address (length db.svcs) db.svcs_by_host_address c.svc_by_address);
    svc_by_cmd_id =
        rw (length-snoc db.svcs)
          (relink-IsBelow I cmd_id (length db.svcs) db.svcs_by_cmd_id c.svc_by_cmd_id);
  }
