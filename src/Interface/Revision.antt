-- ===== src/Interface/Revision.antt =====
-- The revision is the second word of its text.
use nagios_snmp.Base.{
  ℕ, suc, ◌+◌, true, false, [], ◌∷◌, ◌++◌, none, some, Bytes, ok, length, take, take-append, All,
  ◌≡◌, refl, ap, arith, ◌∙◌,
}
use nagios_snmp.Interface.{
  blank, behind_word, behind_blanks, word_length, revision_at, get_revision,
}

abbrev IsSolid : Bytes → Type 0
IsSolid w = All (λ c. blank c ≡ false) w

behind_word-solid :
    (w : Bytes) (b : ℕ) (s : Bytes) → IsSolid w → blank b ≡ true → behind_word (w ++ b ∷ s) ≡ some s
unfolding behind_word
behind_word-solid [] b s h k = rw k refl
behind_word-solid (c ∷ w) b s h k = rw h.0 (behind_word-solid w b s h.1 k)

behind_word-none : (w : Bytes) → IsSolid w → behind_word w ≡ none
unfolding behind_word
behind_word-none [] h = refl
behind_word-none (c ∷ w) h = rw h.0 (behind_word-none w h.1)

behind_blanks-blanks :
    (bs : Bytes) (c : ℕ) (s : Bytes)
    → All (λ b. blank b ≡ true) bs
    → blank c ≡ false
    → behind_blanks (bs ++ c ∷ s) ≡ some (c ∷ s)
unfolding behind_blanks
behind_blanks-blanks [] c s h k = rw k refl
behind_blanks-blanks (b ∷ bs) c s h k = rw h.0 (behind_blanks-blanks bs c s h.1 k)

word_length-solid :
    (n : ℕ) (w : Bytes) (b : ℕ) (s : Bytes)
    → IsSolid w
    → blank b ≡ true
    → word_length n (w ++ b ∷ s) ≡ some (suc (n + length w))
unfolding word_length
word_length-solid n [] b s h k = rw k (ap some (omega arith))
word_length-solid n (c ∷ w) b s h k =
    rw h.0 (word_length-solid (n + 1) w b s h.1 k ∙ ap some (omega arith))

word_length-none : (n : ℕ) (w : Bytes) → IsSolid w → word_length n w ≡ none
unfolding word_length
word_length-none n [] h = refl
word_length-none n (c ∷ w) h = rw h.0 (word_length-none (n + 1) w h.1)

word_cut : (n : Bytes) (e : ℕ) (rest : Bytes) → take (0 + length n) (n ++ e ∷ rest) ≡ n
word_cut n e rest =
    let all : 0 + length n ≡ length n = omega arith in rw all (take-append n (e ∷ rest))

-- Where a text has a first word, blanks or tabs, and a second word with a blank or tab behind it, the
-- second word is the revision; with nothing behind the second word, or with no second word, there is
-- none. The first byte may be any.
pub get_revision_lem :
    (a : ℕ) (w : Bytes) (b : ℕ) (bs : Bytes) (c : ℕ) (n : Bytes) (e : ℕ) (rest : Bytes)
    → IsSolid w
    → blank b ≡ true
    → All (λ d. blank d ≡ true) bs
    → IsSolid (c ∷ n)
    → blank e ≡ true
    → (get_revision (a ∷ w ++ b ∷ (bs ++ c ∷ (n ++ e ∷ rest))) ≡ ok (some (c ∷ n)))
      × (get_revision (a ∷ w ++ b ∷ (bs ++ c ∷ n)) ≡ ok none)
      × (get_revision (a ∷ w) ≡ ok none)
unfolding get_revision revision_at
get_revision_lem a w b bs c n e rest h k l m j = (
  rw (behind_word-solid w b (bs ++ c ∷ (n ++ e ∷ rest)) h k) (
      rw (behind_blanks-blanks bs c (n ++ e ∷ rest) l m.0) (
        rw (revision_at, word_length-solid 0 n e rest m.1 j)
          (ap (λ t. ok (some (c ∷ t))) (word_cut n e rest)))),
  rw (behind_word-solid w b (bs ++ c ∷ n) h k)
      (rw (behind_blanks-blanks bs c n l m.0) (rw (revision_at, word_length-none 0 n m.1) refl)),
  rw (behind_word-none w h) refl,
)
