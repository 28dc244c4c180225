-- ===== src/Interface.antt =====
-- src/interface.c: what the program tells of itself. The key is generated by the build, and is an
-- argument, and so are the revision and version texts.
pub mod Revision
use nagios_snmp.Base.{
  ℕ, zero, suc, ◌+◌, Bool, true, false, ◌||◌, List, [], ◌∷◌, ◌++◌, Option, none, some, Bytes,
  CString, codes, printed, Result, ok, fault, overflow, ◌>>=◌, ◌==◌, if◌then◌else◌, take,
}

abbrev pub blank : ℕ → Bool
blank c = c == b' ' || c == b'\t'

-- Up to the first blank or tab: what stands behind it.
unfoldable pub behind_word : Bytes → Option Bytes
behind_word [] = none
behind_word (c ∷ s) = let rest = behind_word s in if blank c then some s else rest

-- The text from the first byte on that is no blank.
unfoldable pub behind_blanks : Bytes → Option Bytes
behind_blanks [] = none
behind_blanks (c ∷ s) = let rest = behind_blanks s in if blank c then rest else some (c ∷ s)

-- `len` at the next blank, behind the byte that `start` points to; a text that ends has none.
unfoldable pub word_length : ℕ → Bytes → Option ℕ
word_length len [] = none
word_length len (c ∷ s) =
    let rest = word_length (len + 1) s in if blank c then some (len + 1) else rest

unfoldable pub revision_at : Bytes → CString
unfolding word_length
revision_at [] = none
revision_at (c ∷ s) = elim (word_length 0 s) [ none ↦ none | some len ↦ some (take len (c ∷ s)) ]

-- The first byte is passed over, so that the end of an empty text is missed.
unfoldable pub get_revision : Bytes → Result CString
unfolding behind_word behind_blanks revision_at
get_revision [] = fault overflow
get_revision (c ∷ s) = ok (elim (behind_word s) [
  | none ↦ none
  | some rest ↦ elim (behind_blanks rest) [ none ↦ none | some start ↦ revision_at start ]
])

abbrev pub progname_full : Bytes
progname_full = codes "Nagios3 SNMP Trap Daemon"

module _ (progrevision progversion key : Bytes) where
  unfoldable pub print_key : Bytes
  print_key = codes "Key " ++ (key ++ codes "\n")

  unfoldable pub print_version : Result Bytes
  unfolding get_revision
  print_version = do
    revision ← get_revision progrevision
    ok (codes "Version " ++ (progversion ++ (codes " (rev. " ++ (printed revision ++ codes ")\n"))))

  unfoldable pub print_version_all : Result Bytes
  unfolding print_version print_key
  print_version_all = do version ← print_version; ok (version ++ print_key)

  unfoldable pub interface_print_welcome : Bool → Result Bytes
  unfolding print_version_all
  interface_print_welcome is_daemon = do
    version ← print_version_all
    ok (
        (if is_daemon
          then codes "Starting " ++ (progname_full ++ codes "\n")
          else progname_full ++ codes " (standalone mode)\n")
        ++ version)

  unfoldable pub interface_print_version : Result Bytes
  unfolding print_version_all
  interface_print_version = do
    version ← print_version_all
    ok (progname_full ++ (codes "\n" ++ version))
