-- ===== src/Query.antt =====
-- src/query.c: the SQL statements of a source file, by name. The file's bytes are an argument.
pub mod Lines
pub mod Statements
pub mod RoundTrip
use nagios_snmp.Base.{
  ℕ, ◌+◌, Bool, true, false, List, [], ◌∷◌, ◌++◌, map, Option, none, some, Bytes, CString, codes,
  equal, deref, Result, ok, fault, critical, garbage_ptr, ◌>>=◌, ltb, leb, if◌then◌else◌, length,
  get_elem?,
}
use nagios_snmp.Base.Stdio.{until_nul, fgets}
use nagios_snmp.Regex.{Pcre, regex_compile, regex_execute}
use nagios_snmp.Util.{is_empty, remove_chars, remove_spaces}

abbrev pub q_name_size : ℕ
q_name_size = 256

abbrev pub tmpbuflen : ℕ
tmpbuflen = 1024

pub record QueryItem : Type 0 where
  pub q_name : CString
  pub q_body : CString

-- The list from `query_table` to `qt_tail`, in its order.
abbrev pub QueryTable : Type 0
QueryTable = List QueryItem

unfoldable pub query_store : CString → CString → QueryTable → QueryTable
query_store name body table =
    if is_empty name
    then table
    else if is_empty body
    then table
    else table ++ record { q_name = name; q_body = body } ∷ []

abbrev pub begin_marker : Bytes
begin_marker = codes "-- BEGIN QUERY ([a-zA-Z0-9_]+) --"

abbrev pub end_marker : Bytes
end_marker = codes "-- END QUERY --"

-- The state of the loop. `q_name` is `none` as long as nothing has set the array. `q_body` holds the
-- text in front of its NUL, and `q_body_len` its length with the NUL, or 0.
pub record Reader : Type 0 where
  pub inside : Bool
  pub q_found : Bool
  pub q_name : Option Bytes
  pub q_body : Bytes
  pub q_body_len : ℕ
  pub table : QueryTable

unfoldable pub fresh_reader : Reader
fresh_reader = record {
  inside = false;
  q_found = false;
  q_name = none;
  q_body = [];
  q_body_len = 0;
  table = [];
}

-- `pcre_copy_substring(..., 1, q_name, Q_NAME_SIZE)`: an error leaves the array as it was.
unfoldable pub copy_name : Option Bytes → List Bytes → Option Bytes
copy_name old found = elim (get_elem? found 1) [
  | none ↦ old
  | some name ↦ if leb q_name_size (length name) then old else some name
]

unfoldable pub append_body : Bytes → ℕ → Bytes → Bytes
append_body body len line = if ltb 0 len then body ++ b' ' ∷ line else line

-- `query_store(q_name, ...)` behind the test of `q_found`.
unfoldable pub store_found : Reader → Result Reader
unfolding query_store
store_found r = elim r.q_name [
  | none ↦ fault garbage_ptr
  | some name ↦ ok (record r {
    inside = false;
    q_found = false;
    q_body = [];
    q_body_len = 0;
    table = query_store (some name) (remove_spaces (some r.q_body)) r.table;
  })
]

unfoldable pub end_query : Reader → Result Reader
unfolding store_found
end_query r = if r.q_found then store_found r else ok (record r { inside = false })

unfoldable pub add_line : Bytes → Reader → Reader
unfolding append_body
add_line line r = record r {
  q_found = true;
  q_body = append_body r.q_body r.q_body_len line;
  q_body_len = r.q_body_len + (length line + 1);
}

module _ (P : Pcre) where
  -- The `switch` of a line that is not empty. `begins` and `ends` are the compiled markers.
  unfoldable pub read_line :
      Option P.Pattern → Option P.Pattern → Bytes → Bool → Reader → Result Reader
  unfolding copy_name end_query add_line
  read_line begins ends line false r = elim (regex_execute P begins (some line)) [
    | none ↦ ok r
    | some found ↦ ok (record r { inside = true; q_name = copy_name r.q_name found })
  ]
  read_line begins ends line true r = elim (regex_execute P ends (some line)) [
    | none ↦ ok (add_line line r)
    | some found ↦ end_query r
  ]

  -- `line = remove_chars(line, "\n\r")`: NULL if nothing is left.
  unfoldable pub read_piece : Option P.Pattern → Option P.Pattern → Bytes → Reader → Result Reader
  unfolding read_line
  read_piece begins ends piece r = elim (remove_chars (some (until_nul piece)) (codes "\n\r")) [
    | none ↦ ok r
    | some line ↦ read_line begins ends line r.inside r
  ]

  unfoldable pub read_pieces :
      Option P.Pattern → Option P.Pattern → List Bytes → Reader → Result Reader
  unfolding read_piece
  read_pieces begins ends [] r = ok r
  read_pieces begins ends (piece ∷ pieces) r = do
    next ← read_piece begins ends piece r
    read_pieces begins ends pieces next

  -- `none` is a file that cannot be opened.
  unfoldable pub query_parse : Option Bytes → Result QueryTable
  unfolding read_pieces fresh_reader
  query_parse file = do
    begins ← regex_compile P (some begin_marker)
    ends ← regex_compile P (some end_marker)
    elim file [
      | none ↦ fault critical
      | some text ↦ do r ← read_pieces begins ends (fgets tmpbuflen text) fresh_reader; ok r.table
    ]

  -- `query_table_init` and `query_parse`.
  unfoldable pub query_init : Option Bytes → Result QueryTable
  unfolding query_parse
  query_init file = query_parse file

-- `strcmp(q_item->q_name, name) == 0 && q_item->q_body != NULL`: the body that is returned.
unfoldable pub item_body : Bytes → QueryItem → CString
item_body name item = elim item.q_name [
  | none ↦ none
  | some n ↦ if equal n name then item.q_body else none
]

unfoldable pub query_fetch : Bytes → QueryTable → CString
unfolding item_body
query_fetch name [] = none
query_fetch name (item ∷ table) = elim (item_body name item) [
  | none ↦ query_fetch name table
  | some body ↦ some body
]
