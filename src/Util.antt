-- ===== src/Util.antt =====
-- src/util.c: the string functions and the quoting of trap values. A function that allocates
-- returns its string; running out of memory ends the program (`log_critical`) and is no result.
pub mod Permissions
pub mod Quotes
pub mod Shell
pub mod Strings
pub mod Numbers
use nagios_snmp.Base.{
  ℕ, zero, suc, ◌+◌, ◌-◌, Bool, true, false, not, ◌&&◌, ◌||◌, List, [], ◌∷◌, ◌++◌, Option, none,
  some, Bytes, CString, leb, ◌==◌, if◌then◌else◌, length, take, has,
}

unfoldable pub is_empty : CString → Bool
is_empty none = true
is_empty (some []) = true
is_empty (some (c ∷ s)) = false

unfoldable pub xstrdup : CString → CString
unfolding is_empty
xstrdup s = if is_empty s then none else s

unfoldable pub xstrlen : CString → ℕ
xstrlen none = 0
xstrlen (some s) = length s

-- The loop of `remove_chars`: what it copies to the buffer.
unfoldable pub keep_chars : Bytes → Bytes → Bytes
keep_chars rem [] = []
keep_chars rem (c ∷ s) = if has c rem then keep_chars rem s else c ∷ keep_chars rem s

-- The test of the buffer's length at the end: an empty result is NULL.
unfoldable pub non_empty : Bytes → CString
non_empty [] = none
non_empty (c ∷ s) = some (c ∷ s)

unfoldable pub remove_chars : CString → Bytes → CString
unfolding keep_chars non_empty
remove_chars none rem = none
remove_chars (some s) rem = non_empty (keep_chars rem s)

abbrev is_blank : ℕ → Bool
is_blank c = has c (b' ' ∷ b'\t' ∷ [])

unfoldable pub blank_to_space : Bytes → Bytes
blank_to_space [] = []
blank_to_space (c ∷ s) = (if is_blank c then b' ' else c) ∷ blank_to_space s

unfoldable pub remove_spaces : CString → CString
unfolding blank_to_space non_empty
remove_spaces none = none
remove_spaces (some s) = non_empty (blank_to_space s)

abbrev pub is_digit : ℕ → Bool
is_digit c = leb b'0' c && leb c b'9'

unfoldable pub all_digits : Bytes → Bool
all_digits [] = true
all_digits (c ∷ s) = is_digit c && all_digits s

unfoldable pub is_integer : CString → Bool
unfolding all_digits
is_integer none = false
is_integer (some s) = all_digits s

-- The loop of `quote`, with the closing quote behind it.
unfoldable pub quote_from : Bytes → Bytes
quote_from [] = b'"' ∷ []
quote_from (c ∷ s) = if c == b'"' then b'\\' ∷ c ∷ quote_from s else c ∷ quote_from s

unfoldable pub quote : CString → Bytes
unfolding quote_from
quote none = b'"' ∷ quote_from []
quote (some s) = b'"' ∷ quote_from s

-- The loop of `remove_quotes` at index `i` of a string of `len` bytes.
unfoldable pub remove_quotes_from : ℕ → ℕ → Bytes → Bytes
remove_quotes_from len i [] = []
remove_quotes_from len i (c ∷ s) =
    if not (c == b'"') || (not (i == 0) && not (i == len - 1))
    then c ∷ remove_quotes_from len (i + 1) s
    else remove_quotes_from len (i + 1) s

unfoldable pub remove_quotes : CString → CString
unfolding remove_quotes_from
remove_quotes none = none
remove_quotes (some s) = some (remove_quotes_from (length s) 0 s)

abbrev pub is_special : ℕ → Bool
is_special c = has c (b'\'' ∷ b'"' ∷ b'\\' ∷ b'$' ∷ b'`' ∷ [])

-- The loop of `backslash_quote`; the flag is `s == string`.
unfoldable pub backslash_from : Bool → Bytes → Bytes
backslash_from first [] = []
backslash_from first (c ∷ s) =
    if is_special c || (c == b'#' && first)
    then b'\\' ∷ c ∷ backslash_from false s
    else c ∷ backslash_from false s

unfoldable pub backslash_quote : CString → CString
unfolding backslash_from
backslash_quote none = none
backslash_quote (some s) = some (backslash_from true s)

abbrev pub is_white : ℕ → Bool
is_white c = has c (b' ' ∷ b'\t' ∷ b'\n' ∷ [])

-- The loop of `extract_filename`. The number is the source's `i` plus one, since `i` may be -1.
unfoldable pub filename_end : ℕ → Bytes → ℕ
filename_end n [] = n
filename_end n (c ∷ s) = if is_white c then n - 1 else filename_end (n + 1) s

unfoldable pub extract_filename : CString → CString
unfolding filename_end
extract_filename none = none
extract_filename (some []) = none
extract_filename (some (c ∷ s)) =
    let n = filename_end 1 (c ∷ s) in if leb n 1 then none else some (take n (c ∷ s))
