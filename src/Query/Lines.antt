-- ===== src/Query/Lines.antt =====
-- The lines of a query file: how `fgets` cuts them off, and what the loop takes from one.
use nagios_snmp.Base.{
  ℕ, ◌+◌, ◌-◌, ◌<◌, ◌≤◌, false, ◌||◌, List, [], ◌∷◌, ◌++◌, map, Option, none, some, Bytes, codes,
  has, ◌==◌, leb, length, All, ◌≡◌, refl, ap, arith, append_assoc, ◌∙◌, ok,
}
use nagios_snmp.Base.Stdio.{until_nul, fgets_from, fgets}
use nagios_snmp.Util.{keep_chars, non_empty, remove_chars}
use nagios_snmp.Regex.{Pcre}
use nagios_snmp.Query.{tmpbuflen, Reader, read_line, read_piece}

-- A line as it stands in the file: it holds no NUL and no line end, and fits the buffer.
abbrev pub IsLine : Bytes → Type 0
IsLine l = All (λ c. has c (0 ∷ b'\n' ∷ b'\r' ∷ []) ≡ false) l × (length l + 2 ≤ tmpbuflen)

abbrev pub ended : Bytes → Bytes
ended l = l ++ b'\n' ∷ []

abbrev pub file_of : List Bytes → Bytes
file_of [] = []
file_of (l ∷ ls) = l ++ b'\n' ∷ file_of ls

fgets_from-line :
    (size room : ℕ) (w l rest : Bytes)
    → All (λ c. has c (0 ∷ b'\n' ∷ b'\r' ∷ []) ≡ false) l
    → length l < room
    → fgets_from size room w (l ++ b'\n' ∷ rest)
      ≡ (w ++ (l ++ b'\n' ∷ [])) ∷ fgets_from size (size - 1) [] rest
unfolding fgets_from
fgets_from-line size room w [] rest h k = refl
fgets_from-line size room w (c ∷ l) rest h k =
    let goes_on : (c == b'\n' || leb room 1) ≡ false = ground arith in
    rw (fgets_from, goes_on)
      (fgets_from-line size (room - 1) (w ++ c ∷ []) l rest h.1 (omega arith)
        ∙ ap (λ (s : Bytes). s ∷ fgets_from size (size - 1) [] rest)
            (append_assoc w (c ∷ []) (l ++ b'\n' ∷ [])))

pub fgets-file_of : (ls : List Bytes) → All IsLine ls → fgets tmpbuflen (file_of ls) ≡ map ended ls
unfolding fgets fgets_from
fgets-file_of [] h = refl
fgets-file_of (l ∷ ls) h =
    fgets_from-line tmpbuflen 1023 [] l (file_of ls) h.0.0 (omega (arith, h.0.1))
    ∙ ap (◌∷◌ (ended l)) (fgets-file_of ls h.1)

until_nul-ended :
    (l : Bytes)
    → All (λ c. has c (0 ∷ b'\n' ∷ b'\r' ∷ []) ≡ false) l
    → until_nul (ended l) ≡ ended l
unfolding until_nul
until_nul-ended [] h = refl
until_nul-ended (c ∷ l) h = ground (arith, until_nul-ended l h.1)

keep_chars-ended :
    (l : Bytes)
    → All (λ c. has c (0 ∷ b'\n' ∷ b'\r' ∷ []) ≡ false) l
    → keep_chars (codes "\n\r") (ended l) ≡ l
unfolding keep_chars
keep_chars-ended [] h = refl
keep_chars-ended (c ∷ l) h = ground (arith, keep_chars-ended l h.1)

remove_chars-ended :
    (l : Bytes)
    → All (λ c. has c (0 ∷ b'\n' ∷ b'\r' ∷ []) ≡ false) l
    → remove_chars (some (until_nul (ended l))) (codes "\n\r") ≡ non_empty l
unfolding remove_chars
remove_chars-ended l h = rw (until_nul-ended l h) (rw (keep_chars-ended l h) refl)

module _ (P : Pcre) (begins ends : Option P.Pattern) where
  -- A piece of the file gives its line, and an empty line changes nothing.
  pub read_piece-ended :
      (l : Bytes) (r : Reader)
      → All (λ c. has c (0 ∷ b'\n' ∷ b'\r' ∷ []) ≡ false) l
      → read_piece P begins ends (ended l) r
        ≡ elim (non_empty l) [ none ↦ ok r | some s ↦ read_line P begins ends s r.inside r ]
  unfolding read_piece non_empty
  read_piece-ended l r h = rw (read_piece, remove_chars-ended l h) refl
