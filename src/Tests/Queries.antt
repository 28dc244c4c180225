-- ===== src/Tests/Queries.antt =====
-- A query file at a concrete input, with a matcher of the two markers in place of PCRE.
use nagios_snmp.Base.{
  ℕ, Bool, true, ◌&&◌, ◌||◌, List, [], ◌∷◌, ◌++◌, map, Option, none, some, Bytes, codes, equal, leb,
  ◌==◌, if◌then◌else◌, All, ◌≡◌, refl, ap, arith, ok,
}
use nagios_snmp.Util.{is_digit}
use nagios_snmp.Regex.{Pcre}
use nagios_snmp.Query.{begin_marker, end_marker, query_init, query_fetch}
use nagios_snmp.Query.Lines.{file_of}
use nagios_snmp.Query.Statements.{IsName, begin_line, Marks, Statement, lines_of, stored, lookup}
use nagios_snmp.Query.RoundTrip.{query_init-fetch}

word_char : ℕ → Bool
word_char c = leb b'a' c && leb c b'z' || (leb b'A' c && leb c b'Z' || (is_digit c || c == b'_'))

-- The text behind a prefix.
unfoldable pub behind_prefix : Bytes → Bytes → Option Bytes
behind_prefix [] s = some s
behind_prefix (p ∷ ps) [] = none
behind_prefix (p ∷ ps) (c ∷ s) = if p == c then behind_prefix ps s else none

name_of : Bytes → Bytes
name_of [] = []
name_of (c ∷ s) = let rest = name_of s in if word_char c then c ∷ rest else []

unfoldable pub marked : Bytes → Option Bytes → Option (List Bytes)
unfolding name_of word_char
marked line none = none
marked line (some s) = some (line ∷ name_of s ∷ [])

unfoldable pub finds : Bytes → Bytes → Option (List Bytes)
unfolding marked behind_prefix
finds pattern line =
    if equal pattern end_marker
    then (if equal line end_marker then some (line ∷ []) else none)
    else marked line (behind_prefix (codes "-- BEGIN QUERY ") line)

abbrev pub matcher : Pcre
matcher = record { Pattern = Bytes; compile = λ p. some p; exec = finds }

name_of-name : (n : Bytes) → All (λ c. word_char c ≡ true) n → name_of (n ++ codes " --") ≡ n
unfolding name_of word_char
name_of-name [] h = refl
name_of-name (c ∷ n) h = rw h.0 (ap (◌∷◌ c) (name_of-name n h.1))

pub finds_begin_lem :
    (n : Bytes) → IsName n → finds begin_marker (begin_line n) ≡ some (begin_line n ∷ n ∷ [])
unfolding finds behind_prefix marked word_char
finds_begin_lem n h = ap (λ m. some (begin_line n ∷ m ∷ [])) (name_of-name n h.0)

abbrev pub matcher_marks : Marks matcher
unfolding finds
matcher_marks = record {
  begins = begin_marker;
  ends = end_marker;
  begins_compile = refl;
  ends_compile = refl;
  finds_begin = finds_begin_lem;
  finds_end = refl;
}

abbrev statements : List Statement
statements =
    record {
      name = codes "Q_HOSTS";
      first = codes "SELECT name";
      more = codes "\tFROM hosts;" ∷ [];
      after = [] ∷ codes "-- services" ∷ [];
    }
    ∷ record { name = codes "Q_SVCS"; first = codes "SELECT 1"; more = []; after = [] }
    ∷ []

query_init-fetch_example :
    (query_init matcher (some (file_of ((codes "-- queries" ∷ []) ++ lines_of statements)))
      ≡ ok (map stored statements))
    × (query_fetch (codes "Q_SVCS") (map stored statements) ≡ lookup (codes "Q_SVCS") statements)
unfolding finds marked behind_prefix
query_init-fetch_example =
    query_init-fetch matcher matcher_marks (codes "-- queries" ∷ []) statements (codes "Q_SVCS")
      (ground arith) (ground arith)
