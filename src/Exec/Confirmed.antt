-- ===== src/Exec/Confirmed.antt =====
-- What reaches Nagios.
use nagios_snmp.Base.{
  ℕ, Bool, true, false, not, ◌&&◌, Option, none, some, Bytes, equal, Result, ok, if◌then◌else◌, ◌≡◌,
  ◌⊎◌, inl, inr, refl, sym, ◌∙◌, Option-cases,
}
use nagios_snmp.Base.Int.{ℤ}
use nagios_snmp.Util.{is_empty}
use nagios_snmp.Channel.{Channel, channel_write}
use nagios_snmp.Db.Tables.{HashTable}
use nagios_snmp.Db.{same_int, Db, db_lookup_host_by_host_name, db_lookup_host_by_address}
use nagios_snmp.Exec.{ExecResult}
use nagios_snmp.Exec.Run.{confirmed_by_tables, do_output}

abbrev settled : Bool → Channel → Channel → Result (Bool × Channel)
settled b x y = if b then ok (true, x) else ok (false, y)

if-inv :
    (b : Bool) (x y : Channel) (done : Bool) (out : Channel)
    → settled b x y ≡ ok (done, out)
    → ((b ≡ true) × (done ≡ true) × (out ≡ x)) ⊎ ((b ≡ false) × (done ≡ false) × (out ≡ y))
if-inv true x y done out e = inl (refl, cc, cc)
if-inv false x y done out e = inr (refl, cc, cc)

-- Of two pointers, one is not NULL.
either : Option ℕ → Option ℕ → Bool
either (some p) b = true
either none none = false
either none (some p) = true

either_inv :
    (a b : Option ℕ) (x y : Bool)
    → ((either a b && not x) && not (false && y)) ≡ true
    → (x ≡ false) × (p : ℕ) × ((a ≡ some p) ⊎ (b ≡ some p))
unfolding either
either_inv (some p) b true y e = cc
either_inv (some p) b false y e = (refl, p, inl refl)
either_inv none none x y e = cc
either_inv none (some p) true y e = cc
either_inv none (some p) false y e = (refl, p, inr refl)

module _ (S : HashTable Bytes equal) (I : HashTable ℤ same_int) (db : Db S I) (taken : Bool)
    (r : ExecResult) (channel : Channel) where
  output_of_host :
      r.is_service ≡ false
      → r.use_sender_address ≡ false
      → do_output S I taken db r channel
        ≡ settled
            ((either
                  (db_lookup_host_by_host_name S I db r.host_name)
                  (db_lookup_host_by_address S I db r.host_address)
                && not (is_empty r.host_name))
              && not (false && is_empty r.svc_desc))
            (channel_write taken channel r.timestamp r.host_name r.svc_desc r.ret_value r.output
              r.perfdata false)
            channel
  unfolding do_output confirmed_by_tables either
  output_of_host s u = elim (Option-cases (db_lookup_host_by_host_name S I db r.host_name)) [
    | inr (p, e) ↦ rw (do_output, confirmed_by_tables, s, u) (rw e)
    | inl e ↦ elim (Option-cases (db_lookup_host_by_address S I db r.host_address)) [
      | inr (q, f) ↦ rw (do_output, confirmed_by_tables, s, u) (rw (e, f))
      | inl f ↦ rw (do_output, confirmed_by_tables, s, u) (rw (e, f))
    ]
  ]

  -- A host's result, where the sender's address is not in use, goes to the channel as it is, under a
  -- name that is not empty and for a host that the tables know by that name or by its address; or
  -- else the channel is as it was.
  pub do_output-known :
      (done : Bool) (out : Channel)
      → r.is_service ≡ false
      → r.use_sender_address ≡ false
      → do_output S I taken db r channel ≡ ok (done, out)
      → ((done ≡ true)
          × (is_empty r.host_name ≡ false)
          × (out
              ≡ channel_write taken channel r.timestamp r.host_name r.svc_desc r.ret_value r.output
                  r.perfdata false)
          × (p : ℕ) × ((db_lookup_host_by_host_name S I db r.host_name ≡ some p)
              ⊎ (db_lookup_host_by_address S I db r.host_address ≡ some p)))
        ⊎ ((done ≡ false) × (out ≡ channel))
  do_output-known done out s u e =
      elim (if-inv _ _ channel done out (sym (output_of_host s u) ∙ e)) [
        | inl (b, d, o) ↦
            let (n, p, k) =
              either_inv (db_lookup_host_by_host_name S I db r.host_name)
                (db_lookup_host_by_address S I db r.host_address) (is_empty r.host_name)
                (is_empty r.svc_desc) b in
            inl (d, n, o, p, k)
        | inr (b, d, o) ↦ inr (d, o)
      ]
