-- ===== src/Regex.antt =====
-- src/regex.c: the two calls of PCRE, which is a parameter.
use nagios_snmp.Base.{
  List, Option, none, some, Bytes, CString, Result, ok, fault, critical, if◌then◌else◌,
}
use nagios_snmp.Util.{is_empty}

-- `pcre_compile` gives a pattern or fails; `pcre_exec` gives the whole match and the substrings of
-- the brackets behind it, and `none` stands for every negative code.
pub record Pcre : Type 1 where
  pub Pattern : Type 0
  pub compile : Bytes → Option Pattern
  pub exec : Pattern → Bytes → Option (List Bytes)

module _ (P : Pcre) where
  abbrev compiled : Option P.Pattern → Result (Option P.Pattern)
  compiled none = fault critical
  compiled (some re) = ok (some re)

  -- An empty pattern gives NULL, and one that does not compile ends the program.
  unfoldable pub regex_compile : CString → Result (Option P.Pattern)
  regex_compile none = ok none
  regex_compile (some pattern) =
      if is_empty (some pattern) then ok none else compiled (P.compile pattern)

  -- `none` is a negative result: -255 for a NULL pattern or an empty input.
  unfoldable pub regex_execute : Option P.Pattern → CString → Option (List Bytes)
  regex_execute none input = none
  regex_execute (some re) none = none
  regex_execute (some re) (some input) = if is_empty (some input) then none else P.exec re input
