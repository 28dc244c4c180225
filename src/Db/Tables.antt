-- ===== src/Db/Tables.antt =====
-- GLib's hash table, which the program only calls: a table from keys to pointers, with what the
-- program relies on. A pointer is an index into the store of the things of its kind.
use nagios_snmp.Base.{ℕ, Bool, Option, none, some, ◌≡◌, if◌then◌else◌}

pub record HashTable (K : Type 0) (same : K → K → Bool) : Type 1 where
  pub Table : Type 0
  pub new : Table
  pub lookup : K → Table → Option ℕ
  pub insert : K → ℕ → Table → Table
  pub steal : K → Table → Table
  pub lookup-new : (k : K) → lookup k new ≡ none
  pub lookup-insert :
      (k j : K) (p : ℕ) (t : Table)
      → lookup j (insert k p t) ≡ (if same k j then some p else lookup j t)
  pub lookup-steal :
      (k j : K) (t : Table) → lookup j (steal k t) ≡ (if same k j then none else lookup j t)
