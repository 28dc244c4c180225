-- ===== src/Util/Shell.antt =====
-- What a POSIX shell makes of the text that `backslash_quote` and `quote` build: exec.c passes it
-- to `popen` as part of a command line.
use nagios_snmp.Base.{
  ℕ, Bool, true, false, ◌&&◌, ◌||◌, [], ◌∷◌, ◌++◌, some, Bytes, ◌==◌, if◌then◌else◌, has, ◌≡◌, refl,
  arith,
}
use nagios_snmp.Util.{backslash_from, quote_from, backslash_quote, quote}

-- The shell's reading of what stands behind an opening double quote: the word and what follows its
-- closing quote, or the start of an expansion that it would perform, or no closing quote at all.
pub data Word : Type 0 where
  closed : Bytes → Bytes → Word
  expands : Word
  unclosed : Word

abbrev pub prepend : ℕ → Word → Word
prepend c (closed w rest) = closed (c ∷ w) rest
prepend c expands = expands
prepend c unclosed = unclosed

-- Inside double quotes a backslash quotes only these bytes and the newline, which it deletes.
abbrev pub is_escapable : ℕ → Bool
is_escapable c = c == b'$' || c == b'`' || c == b'"' || c == b'\\'

-- The flag says that the byte before was a quoting backslash.
unfoldable pub read_word : Bool → Bytes → Word
read_word escaped [] = unclosed
read_word false (c ∷ s) =
    if c == b'"'
    then closed [] s
    else if c == b'$' || c == b'`'
    then expands
    else if c == b'\\'
    then read_word true s
    else prepend c (read_word false s)
read_word true (c ∷ s) =
    if is_escapable c
    then prepend c (read_word false s)
    else if c == b'\n'
    then read_word false s
    else prepend b'\\' (prepend c (read_word false s))

-- The value as the shell hands it to the plugin: a quote mark and a leading `#` keep the backslash
-- that the program puts before them.
unfoldable pub shell_view : Bool → Bytes → Bytes
shell_view first [] = []
shell_view first (c ∷ s) =
    if c == b'\'' || (c == b'#' && first)
    then b'\\' ∷ c ∷ shell_view false s
    else c ∷ shell_view false s

read_word-quoted :
    (v : Bytes) (first : Bool) (rest : Bytes)
    → has b'"' v ≡ false
    → read_word false (quote_from (backslash_from first v) ++ rest)
      ≡ closed (shell_view first v) rest
unfolding read_word quote_from backslash_from shell_view
read_word-quoted [] first rest h = refl
read_word-quoted (c ∷ v) first rest h = ground (arith, read_word-quoted v false rest)

read_word-broken :
    (a b : Bytes) (first : Bool) (rest : Bytes)
    → has b'"' a ≡ false
    → read_word false (quote_from (backslash_from first (a ++ b'"' ∷ b)) ++ rest)
      ≡ closed (shell_view first a ++ b'\\' ∷ []) (quote_from (backslash_from false b) ++ rest)
unfolding read_word quote_from backslash_from shell_view
read_word-broken [] b first rest h = refl
read_word-broken (c ∷ a) b first rest h = ground (arith, read_word-broken a b false rest)

-- A value with no double quote in it, quoted by the two steps of `post_parse` and followed by any
-- text, is read by the shell as one word that ends at its own closing quote, with no expansion: the
-- value, with a backslash before each quote mark and before a leading `#`.
pub quote-read_word :
    (v rest : Bytes)
    → has b'"' v ≡ false
    → (t : Bytes) × (quote (backslash_quote (some v)) ≡ b'"' ∷ t)
      × (read_word false (t ++ rest) ≡ closed (shell_view true v) rest)
unfolding quote backslash_quote
quote-read_word v rest h =
    (quote_from (backslash_from true v), refl, read_word-quoted v true rest h)

-- A value with a double quote in it leaves its quotes: after the part `a` before the first one the
-- shell's word has ended, and the text of the part `b` behind it is outside the quotes.
pub quote_breaks_out :
    (a b rest : Bytes)
    → has b'"' a ≡ false
    → (t : Bytes) × (quote (backslash_quote (some (a ++ b'"' ∷ b))) ≡ b'"' ∷ t)
      × (read_word false (t ++ rest)
          ≡ closed (shell_view true a ++ b'\\' ∷ []) (quote_from (backslash_from false b) ++ rest))
unfolding quote backslash_quote
quote_breaks_out a b rest h =
    (quote_from (backslash_from true (a ++ b'"' ∷ b)), refl, read_word-broken a b true rest h)
