-- ===== src/Trap/Serialize/Bounds.antt =====
-- The size that `trap_serialize` computes, against what it writes.
use nagios_snmp.Base.{
  printed, ℕ, ◌+◌, ◌*◌, ◌%◌, ◌^◌, ◌≤◌, max, Bool, true, false, List, [], ◌∷◌, ◌++◌, some, Bytes,
  codes, ok, leb, le→leb, if◌then◌else◌, length, length-append, All, ◌≡◌, ◌≢◌, refl, ap, ◌∙◌, arith,
  append_assoc, append-nil, map,
}
use nagios_snmp.Util.Numbers.{length-fixed_digits}
use nagios_snmp.Util.{quote, backslash_quote, remove_quotes, xstrlen, is_empty}
use nagios_snmp.Trap.{Trap, MibObject}
use nagios_snmp.Trap.Parse.Tokens.{unwords}
use nagios_snmp.Trap.Parse.Wire.{and_false, Var, Message, vars_of}
use nagios_snmp.Trap.Parse.RoundTrip.{final_var, trap_of}
use nagios_snmp.Trap.Serialize.Contents.{quoted_text, assignment, trap_get_contents-unwords}
use nagios_snmp.Trap.Serialize.{
  SerializeMode, mode_old, mode_new, objects_size, header_size, header, print_at, serialize_old,
  serialize_new, serialize_body, trap_serialize,
}

unfoldable pub size_of : ℕ → List Var → ℕ
size_of d [] = 0
size_of d (v ∷ vs) = length v.oid + length (quoted_text v) + 2 * max d 1 + size_of d vs

pub objects_size-size_of :
    (d : ℕ) (vs : List Var) → objects_size d (map final_var vs) ≡ ok (size_of d vs)
unfolding objects_size size_of xstrlen
objects_size-size_of d [] = refl
objects_size-size_of d (v ∷ vs) = rw (objects_size-size_of d vs)

pub length-assignment :
    (v : Var) → length (assignment v) ≡ length v.oid + length (quoted_text v) + 1
length-assignment v = omega (arith, length-append v.oid (b'=' ∷ quoted_text v))

length-unwords :
    (b : Bytes) (d : ℕ) (vs : List Var)
    → length (unwords (b ∷ map assignment vs)) ≤ length b + size_of d vs
unfolding size_of
length-unwords b d [] = omega arith
length-unwords b d (v ∷ vs) = omega (
  arith,
  length-append b (b' ' ∷ unwords (assignment v ∷ map assignment vs)),
  length-unwords (assignment v) d vs,
  length-assignment v,
)

length-flag : (executed : Bool) → length (if executed then codes "OK" else codes "NO") ≡ 2
length-flag true = refl
length-flag false = refl

pub length-header :
    (executed : Bool) (d : Bytes) (t : Trap)
    → length (header executed d t)
      ≡ 14
        + 4 * length d
        + length (printed t.hostname)
        + length (printed t.ipaddress)
        + length (printed t.oid)
length-header executed d t =
    simp length-append
      (omega (arith, length-fixed_digits 12 (t.seconds % 2 ^ 32), length-flag executed))

print_at_room :
    (buflen : ℕ) (buffer text : Bytes)
    → length buffer + length text + 1 ≤ buflen
    → print_at buflen buffer text ≡ ok (buffer ++ text)
print_at_room buflen buffer text h =
    let fits : leb (length buffer + length text + 1) buflen ≡ true = le→leb _ _ h in rw fits

-- The objects in the old form: each behind a semicolon, but the first behind the delimiter.
abbrev pub old_pair : Var → Bytes
old_pair v = v.oid ++ b';' ∷ quoted_text v

abbrev pub old_rest : List Var → Bytes
old_rest [] = []
old_rest (v ∷ vs) = (b';' ∷ old_pair v) ++ old_rest vs

length-old_pair : (v : Var) → length (old_pair v) ≡ length v.oid + length (quoted_text v) + 1
length-old_pair v = omega (arith, length-append v.oid (b';' ∷ quoted_text v))

is_empty-some : (s : Bytes) → s ≢ [] → is_empty (some s) ≡ false
unfolding is_empty
is_empty-some [] h = absurd (h refl)
is_empty-some (c ∷ s) h = refl

is_empty-quoted_text : (v : Var) → is_empty (some (quoted_text v)) ≡ false
unfolding is_empty quote remove_quotes backslash_quote
is_empty-quoted_text v = refl

-- One object of the old form, for a text in front of it that fits.
old_step :
    (buflen : ℕ) (d : Bytes) (first : Bool) (buffer : Bytes) (v : Var) (next : List MibObject)
    → v.oid ≢ []
    → length buffer + length (if first then d else codes ";") + length (old_pair v) + 1 ≤ buflen
    → serialize_old buflen d first buffer (final_var v ∷ next)
      ≡ serialize_old buflen d false
          (buffer ++ ((if first then d else codes ";") ++ old_pair v))
          next
unfolding serialize_old
old_step buflen d first buffer v next ne room =
    let text = (if first then d else codes ";") ++ old_pair v in
    let fits : leb (length buffer + length text + 1) buflen ≡ true =
      le→leb _ _
        (omega (arith, room, length-append (if first then d else codes ";") (old_pair v))) in
    rw (is_empty-some v.oid ne, is_empty-quoted_text v) (rw (fits, and_false))

old_loop :
    (buflen dl : ℕ) (d buffer : Bytes) (vs : List Var)
    → All (λ v. v.oid ≢ []) vs
    → length buffer + size_of dl vs + 1 ≤ buflen
    → serialize_old buflen d false buffer (map final_var vs) ≡ ok (buffer ++ old_rest vs)
unfolding size_of
old_loop buflen dl d buffer [] ne room = unfold serialize_old in rw append-nil
old_loop buflen dl d buffer (v ∷ vs) ne room =
    let long = length-append buffer (b';' ∷ old_pair v) in
    old_step buflen d false buffer v (map final_var vs) ne.0 (omega (arith, length-old_pair v))
    ∙ old_loop buflen dl d (buffer ++ b';' ∷ old_pair v) vs ne.1
        (omega (arith, long, length-old_pair v))
    ∙ ap ok (append_assoc buffer (b';' ∷ old_pair v) (old_rest vs))

module _ (tv_sec tv_usec : ℕ) (ip v d : Bytes) (m : Message) (executed : Bool) where
  -- The text in front of the objects, and the size of the buffer.
  abbrev front : Bytes
  front = header executed d (trap_of tv_sec tv_usec ip v m)

  abbrev size : ℕ
  size = header_size (length d) (trap_of tv_sec tv_usec ip v m) + size_of (length d) (vars_of m) + 1

  front_fits : length front + size_of (length d) (vars_of m) + 1 ≡ size
  unfolding xstrlen
  front_fits = omega (arith, length-header executed d (trap_of tv_sec tv_usec ip v m))

  serialize_front :
      (mode : SerializeMode) (text : Bytes)
      → serialize_body mode size d front (trap_of tv_sec tv_usec ip v m) ≡ ok text
      → trap_serialize mode (some (trap_of tv_sec tv_usec ip v m)) executed d ≡ ok (some text)
  unfolding trap_serialize
  serialize_front mode text e =
      let fits : leb (0 + length front + 1) size ≡ true = le→leb _ _ (omega (arith, front_fits)) in
      rw (objects_size-size_of (length d) (vars_of m)) (rw fits (rw e))

  -- The log line of an accepted trap with no empty OID fits the buffer whose size was computed, in
  -- both modes and for every delimiter: twelve digits, OK or NO, the host, the address and the OID,
  -- and then the contents, or the objects with semicolons in the old mode.
  pub trap_serialize_fits :
      All (λ x. x.oid ≢ []) (vars_of m)
      → (trap_serialize mode_new (some (trap_of tv_sec tv_usec ip v m)) executed d
          ≡ ok (some (front ++ (d ++ unwords (map assignment (vars_of m))))))
        × (trap_serialize mode_old (some (trap_of tv_sec tv_usec ip v m)) executed d
            ≡ ok (some (front ++ (d ++ old_pair m.first_var) ++ old_rest m.other_vars)))
  unfolding serialize_body serialize_new size_of
  trap_serialize_fits ne = (
    serialize_front mode_new _ (
        rw (serialize_new, trap_get_contents-unwords tv_sec tv_usec ip v m)
          (print_at_room size front (d ++ unwords (map assignment (vars_of m))) (
            omega (
              arith,
              front_fits,
              length-append d (unwords (map assignment (vars_of m))),
              length-unwords (assignment m.first_var) (length d) m.other_vars,
              length-assignment m.first_var,
            )))),
    serialize_front mode_old _ (
        old_step size d true front m.first_var (map final_var m.other_vars) ne.0
          (omega (arith, front_fits, length-old_pair m.first_var))
        ∙ old_loop size (length d) d (front ++ (d ++ old_pair m.first_var)) m.other_vars ne.1 (
            omega (
              arith,
              front_fits,
              length-append front (d ++ old_pair m.first_var),
              length-append d (old_pair m.first_var),
              length-old_pair m.first_var,
            ))),
  )
