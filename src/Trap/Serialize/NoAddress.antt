-- ===== src/Trap/Serialize/NoAddress.antt =====
-- A trap whose address could not be read, in the trap log.
use nagios_snmp.Base.{
  ℕ, ◌+◌, ◌≤◌, ◌<◌, Bool, false, List, [], ◌∷◌, ◌++◌, none, some, Bytes, fault, overflow, leb,
  lt→leb_false, Bool-cases, inl, inr, length, length-append, ◌≡◌, arith, map,
}
use nagios_snmp.Util.{xstrlen}
use nagios_snmp.Trap.{Trap, trap_get_contents}
use nagios_snmp.Trap.Parse.Tokens.{unwords}
use nagios_snmp.Trap.Parse.Wire.{Var, Message, vars_of}
use nagios_snmp.Trap.Parse.RoundTrip.{trap_of}
use nagios_snmp.Trap.Serialize.Contents.{assignment, trap_get_contents-unwords}
use nagios_snmp.Trap.Serialize.Bounds.{
  size_of, objects_size-size_of, length-assignment, length-header,
}
use nagios_snmp.Trap.Serialize.{
  mode_new, header_size, header, print_at, serialize_new, serialize_body, trap_serialize,
}

length-unwords_exact :
    (b : Bytes) (d : ℕ) (vs : List Var)
    → d ≤ 1
    → length (unwords (b ∷ map assignment vs)) ≡ length b + size_of d vs
unfolding size_of
length-unwords_exact b d [] h = omega arith
length-unwords_exact b d (v ∷ vs) h = omega (
  arith,
  length-append b (b' ' ∷ unwords (assignment v ∷ map assignment vs)),
  length-unwords_exact (assignment v) d vs h,
  length-assignment v,
)

print_at_past :
    (buflen : ℕ) (buffer text : Bytes)
    → buflen < length buffer + length text + 1
    → print_at buflen buffer text ≡ fault overflow
print_at_past buflen buffer text h =
    let over : leb (length buffer + length text + 1) buflen ≡ false = lt→leb_false _ _ h in rw over

module _ (tv_sec tv_usec : ℕ) (ip v d : Bytes) (m : Message) (executed : Bool) where
  abbrev unaddressed : Trap
  unaddressed = record (trap_of tv_sec tv_usec ip v m) { ipaddress = none }

  abbrev front : Bytes
  front = header executed d unaddressed

  abbrev size : ℕ
  size = header_size (length d) unaddressed + size_of (length d) (vars_of m) + 1

  serialize_new_past : length d ≤ 1 → serialize_new size d front unaddressed ≡ fault overflow
  unfolding trap_get_contents xstrlen size_of serialize_new
  serialize_new_past h =
      rw (serialize_new, trap_get_contents-unwords tv_sec tv_usec ip v m)
        (print_at_past size front (d ++ unwords (map assignment (vars_of m))) (
          omega (
            arith,
            length-header executed d unaddressed,
            length-append d (unwords (map assignment (vars_of m))),
            length-unwords_exact (assignment m.first_var) (length d) m.other_vars h,
            length-assignment m.first_var,
          )))

  -- A trap that is accepted but has no address, since its text held no bracket, overruns the log's
  -- buffer in the new mode, for every delimiter of at most one byte: what is printed for NULL was
  -- not counted.
  pub trap_serialize_no_address :
      length d ≤ 1 → trap_serialize mode_new (some unaddressed) executed d ≡ fault overflow
  unfolding trap_serialize serialize_body
  trap_serialize_no_address h =
      let sizes = objects_size-size_of (length d) (vars_of m) in
      elim (Bool-cases (leb (0 + length front + 1) size)) [
        | inl fits ↦ rw sizes (rw fits (rw (serialize_new_past h)))
        | inr over ↦ rw sizes (rw over)
      ]
