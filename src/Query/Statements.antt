-- ===== src/Query/Statements.antt =====
-- The statements of a file of queries: their lines, and what is stored of each.
use nagios_snmp.Base.{
  ℕ, ◌<◌, Bool, true, false, ◌&&◌, ◌||◌, List, [], ◌∷◌, ◌++◌, map, none, some, Bytes, CString,
  codes, equal, leb, ◌==◌, if◌then◌else◌, length, length-append, has, All, All-append, All-map, ◌≡◌,
  ◌≢◌, refl, arith,
}
use nagios_snmp.Util.{is_digit, blank_to_space, remove_spaces}
use nagios_snmp.Util.Strings.{non_empty_id, is_empty-ne-nil}
use nagios_snmp.Regex.{Pcre}
use nagios_snmp.Query.{
  QueryItem, QueryTable, begin_marker, end_marker, q_name_size, query_store, item_body, query_fetch,
}
use nagios_snmp.Query.Lines.{IsLine}

abbrev word_byte : ℕ → Bool
word_byte c = leb b'a' c && leb c b'z' || (leb b'A' c && leb c b'Z' || (is_digit c || c == b'_'))

abbrev pub IsName : Bytes → Type 0
IsName n = All (λ c. word_byte c ≡ true) n × (n ≢ []) × (length n < q_name_size)

abbrev pub begin_line : Bytes → Bytes
begin_line name = codes "-- BEGIN QUERY " ++ (name ++ codes " --")

-- What the code relies on of PCRE: the two markers compile, and find what they are written for.
pub record Marks (P : Pcre) : Type 0 where
  pub begins : P.Pattern
  pub ends : P.Pattern
  pub begins_compile : P.compile begin_marker ≡ some begins
  pub ends_compile : P.compile end_marker ≡ some ends
  pub finds_begin :
      (name : Bytes)
      → IsName name
      → P.exec begins (begin_line name) ≡ some (begin_line name ∷ name ∷ [])
  pub finds_end : P.exec ends end_marker ≡ some (end_marker ∷ [])

-- A statement of a file: its lines, and what stands behind its end marker.
pub record Statement : Type 0 where
  pub name : Bytes
  pub first : Bytes
  pub more : List Bytes
  pub after : List Bytes

abbrev pub lines_of : List Statement → List Bytes
lines_of [] = []
lines_of (q ∷ qs) = begin_line q.name ∷ q.first ∷ (q.more ++ end_marker ∷ (q.after ++ lines_of qs))

abbrev pub joined : Bytes → List Bytes → Bytes
joined body [] = body
joined body (l ∷ ls) = joined (body ++ b' ' ∷ l) ls

-- The text of a statement: its lines with a blank between two, each tab turned into a blank.
abbrev pub text_of : Statement → Bytes
text_of q = blank_to_space (joined q.first q.more)

abbrev pub stored : Statement → QueryItem
stored q = record { q_name = some q.name; q_body = some (text_of q) }

-- The text of the first statement with the name.
abbrev pub lookup : Bytes → List Statement → CString
lookup n [] = none
lookup n (q ∷ qs) = if equal q.name n then some (text_of q) else lookup n qs

pub query_fetch-stored :
    (n : Bytes) (qs : List Statement) → query_fetch n (map stored qs) ≡ lookup n qs
unfolding query_fetch item_body
query_fetch-stored n [] = refl
query_fetch-stored n (q ∷ qs) = ground (arith, query_fetch-stored n qs)

word_byte-clean : (c : ℕ) → word_byte c ≡ true → has c (0 ∷ b'\n' ∷ b'\r' ∷ []) ≡ false
word_byte-clean c h = ground arith

pub IsLine-begin_line : (n : Bytes) → IsName n → IsLine (begin_line n)
IsLine-begin_line n h = (
  All-append (λ c. has c (0 ∷ b'\n' ∷ b'\r' ∷ []) ≡ false) (codes "-- BEGIN QUERY ")
      (n ++ codes " --") (ground arith)
      (All-append (λ c. has c (0 ∷ b'\n' ∷ b'\r' ∷ []) ≡ false) n (codes " --")
        (All-map (λ c. word_byte c ≡ true) (λ c. has c (0 ∷ b'\n' ∷ b'\r' ∷ []) ≡ false)
          word_byte-clean n h.0)
        (ground arith)),
  omega (arith, h.2, length-append n (codes " --")),
)

append-nonempty : (body l : Bytes) → l ≢ [] → body ++ b' ' ∷ l ≢ []
append-nonempty [] l h e = cc
append-nonempty (c ∷ body) l h e = cc

joined-ne-nil : (body : Bytes) (ls : List Bytes) → body ≢ [] → joined body ls ≢ []
joined-ne-nil body [] h = h
joined-ne-nil [] (l ∷ ls) h = joined-ne-nil (b' ' ∷ l) ls (λ e. cc)
joined-ne-nil (c ∷ body) (l ∷ ls) h = joined-ne-nil (c ∷ body ++ b' ' ∷ l) ls (λ e. cc)

blank_to_space-ne-nil : (s : Bytes) → s ≢ [] → blank_to_space s ≢ []
unfolding blank_to_space
blank_to_space-ne-nil [] h = absurd (h refl)
blank_to_space-ne-nil (c ∷ s) h = λ e. cc

pub query_store-stored :
    (q : Statement) (table : QueryTable)
    → q.name ≢ []
    → q.first ≢ []
    → query_store (some q.name) (remove_spaces (some (joined q.first q.more))) table
      ≡ table ++ stored q ∷ []
unfolding query_store remove_spaces
query_store-stored q table h k =
    let body = blank_to_space-ne-nil (joined q.first q.more) (joined-ne-nil q.first q.more k) in
    rw (non_empty_id (text_of q) body)
      (rw (is_empty-ne-nil q.name h) (rw (is_empty-ne-nil (text_of q) body) refl))

module _ (P : Pcre) (m : Marks P) where
  -- What may stand between statements, and within one.
  abbrev pub IsNoise : Bytes → Type 0
  IsNoise l = IsLine l × (P.exec m.begins l ≡ none)

  abbrev pub IsBody : Bytes → Type 0
  IsBody l = IsLine l × (l ≢ []) × (P.exec m.ends l ≡ none)

  abbrev pub IsStatement : Statement → Type 0
  IsStatement q = IsName q.name × IsBody q.first × All IsBody q.more × All IsNoise q.after
