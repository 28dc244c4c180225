-- ===== src/Trap/Serialize/Contents.antt =====
-- The contents of an accepted trap, as the plugins get them.
use nagios_snmp.Base.{
  ℕ, List, [], ◌∷◌, ◌++◌, some, Bytes, ok, ◌≡◌, refl, ap, ◌∙◌, append_assoc, map,
}
use nagios_snmp.Util.{quote, backslash_quote, remove_quotes}
use nagios_snmp.Trap.{contents_from, trap_get_contents}
use nagios_snmp.Trap.Parse.Tokens.{unwords}
use nagios_snmp.Trap.Parse.Wire.{Var, Message, vars_of, value_text}
use nagios_snmp.Trap.Parse.RoundTrip.{final_var, trap_of}

abbrev pub quoted_text : Var → Bytes
quoted_text v = quote (backslash_quote (remove_quotes (some (value_text v))))

-- `oid=value` of an object.
abbrev pub assignment : Var → Bytes
assignment v = v.oid ++ b'=' ∷ quoted_text v

unwords-merge :
    (b p : Bytes) (ps : List Bytes) → unwords ((b ++ b' ' ∷ p) ∷ ps) ≡ unwords (b ∷ p ∷ ps)
unwords-merge b p [] = refl
unwords-merge b p (q ∷ ps) = append_assoc b (b' ' ∷ p) (b' ' ∷ unwords (q ∷ ps))

contents_from-unwords :
    (b : Bytes) (vs : List Var)
    → contents_from (some b) (map final_var vs) ≡ ok (some (unwords (b ∷ map assignment vs)))
unfolding contents_from
contents_from-unwords b [] = refl
contents_from-unwords b (v ∷ vs) =
    contents_from-unwords (b ++ b' ' ∷ assignment v) vs
    ∙ ap (λ s. ok (some s)) (unwords-merge b (assignment v) (map assignment vs))

-- The contents of an accepted trap are its assignments in order, one blank between two, and to read
-- them is no fault.
pub trap_get_contents-unwords :
    (tv_sec tv_usec : ℕ) (ip v : Bytes) (m : Message)
    → trap_get_contents (some (trap_of tv_sec tv_usec ip v m))
      ≡ ok (some (unwords (map assignment (vars_of m))))
unfolding trap_get_contents contents_from
trap_get_contents-unwords tv_sec tv_usec ip v m =
    contents_from-unwords (assignment m.first_var) m.other_vars
