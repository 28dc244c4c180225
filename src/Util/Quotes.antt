-- ===== src/Util/Quotes.antt =====
-- The index loop of `remove_quotes` against a description by the two ends of the string.
use nagios_snmp.Base.{
  ℕ, ◌+◌, ◌<◌, [], ◌∷◌, ◌++◌, some, Bytes, ◌==◌, if◌then◌else◌, length, ◌≡◌, refl, ap, arith,
  Bool-cases, inl, inr, ◌∙◌,
}
use nagios_snmp.Util.{remove_quotes_from, remove_quotes}

pub strip_first : Bytes → Bytes
strip_first [] = []
strip_first (c ∷ s) = if c == b'"' then s else c ∷ s

pub strip_last : Bytes → Bytes
strip_last [] = []
strip_last (c ∷ []) = if c == b'"' then [] else c ∷ []
strip_last (c ∷ d ∷ s) = c ∷ strip_last (d ∷ s)

remove_quotes_from-strip_last :
    (len i : ℕ) (s : Bytes) → 0 < i → i + length s ≡ len → remove_quotes_from len i s ≡ strip_last s
unfolding remove_quotes_from strip_last
remove_quotes_from-strip_last len i [] p e = refl
remove_quotes_from-strip_last len i (c ∷ []) p e = ground arith
remove_quotes_from-strip_last len i (c ∷ d ∷ s) p e =
    let ih = remove_quotes_from-strip_last len (i + 1) (d ∷ s) (omega arith) (omega arith) in
    ground (arith, ih)

strip_last-append : (v : Bytes) → strip_last (v ++ b'"' ∷ []) ≡ v
unfolding strip_last
strip_last-append [] = refl
strip_last-append (c ∷ []) = refl
strip_last-append (c ∷ d ∷ v) = ap (◌∷◌ c) (strip_last-append (d ∷ v))

-- `remove_quotes` takes one double quote off each end where there is one, and nothing else.
pub remove_quotes-strip : (s : Bytes) → remove_quotes (some s) ≡ some (strip_last (strip_first s))
unfolding remove_quotes remove_quotes_from strip_last strip_first
remove_quotes-strip [] = refl
remove_quotes-strip (c ∷ []) = ground arith
remove_quotes-strip (c ∷ d ∷ s) =
    let tail =
      remove_quotes_from-strip_last (length (c ∷ d ∷ s)) 1 (d ∷ s) (omega arith) (omega arith) in
    ap some (elim (Bool-cases (c == b'"')) [ inl h ↦ rw h tail | inr h ↦ rw h (ap (◌∷◌ c) tail) ])

-- A value between double quotes comes back whole, whatever bytes it holds.
pub remove_quotes-quoted : (v : Bytes) → remove_quotes (some (b'"' ∷ (v ++ b'"' ∷ []))) ≡ some v
unfolding strip_first
remove_quotes-quoted v =
    remove_quotes-strip (b'"' ∷ (v ++ b'"' ∷ [])) ∙ ap some (strip_last-append v)
