-- ===== src/Trap/Sender.antt =====
-- src/trap.c, `extract_ipaddress`, against a description of the text that it is given.
use nagios_snmp.Base.{false, [], ◌∷◌, ◌++◌, none, some, Bytes, has, ◌≡◌, refl, ap, arith}
use nagios_snmp.Trap.{after_bracket, until_bracket, extract_ipaddress}

after_bracket_lem : (a s : Bytes) → has b'[' a ≡ false → after_bracket (a ++ b'[' ∷ s) ≡ some s
unfolding after_bracket
after_bracket_lem [] s h = refl
after_bracket_lem (c ∷ a) s h = ground (arith, after_bracket_lem a s)

after_bracket-none : (a : Bytes) → has b'[' a ≡ false → after_bracket a ≡ none
unfolding after_bracket
after_bracket-none [] h = refl
after_bracket-none (c ∷ a) h = ground (arith, after_bracket-none a)

until_bracket_lem : (a s : Bytes) → has b']' a ≡ false → until_bracket (a ++ b']' ∷ s) ≡ a
unfolding until_bracket
until_bracket_lem [] s h = refl
until_bracket_lem (c ∷ a) s h = ground (arith, until_bracket_lem a s)

until_bracket_open : (a : Bytes) → has b']' a ≡ false → until_bracket a ≡ a
unfolding until_bracket
until_bracket_open [] h = refl
until_bracket_open (c ∷ a) h = ground (arith, until_bracket_open a)

-- The address is what stands between the first `[` and the next `]`; with no `[` there is none, and
-- with no `]` behind it the whole rest of the text is taken.
pub extract_ipaddress_lem :
    (a ip s : Bytes)
    → has b'[' a ≡ false
    → has b']' ip ≡ false
    → (extract_ipaddress (some (a ++ b'[' ∷ (ip ++ b']' ∷ s))) ≡ some ip)
      × (extract_ipaddress (some a) ≡ none)
      × (extract_ipaddress (some (a ++ b'[' ∷ ip)) ≡ some ip)
unfolding extract_ipaddress
extract_ipaddress_lem a ip s h k = (
  rw (extract_ipaddress, after_bracket_lem a (ip ++ b']' ∷ s) h)
      (ap some (until_bracket_lem ip s k)),
  rw (extract_ipaddress, after_bracket-none a h),
  rw (extract_ipaddress, after_bracket_lem a ip h) (ap some (until_bracket_open ip k)),
)
