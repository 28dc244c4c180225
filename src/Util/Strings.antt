-- ===== src/Util/Strings.antt =====
-- The string functions against independent descriptions, and the sizes of the buffers that they
-- allocate.
use nagios_snmp.Base.{
  ℕ, suc, ltb, sym, ◌+◌, ◌-◌, ◌*◌, ◌≤◌, ◌<◌, Bool, true, false, [], ◌∷◌, ◌++◌, none, some, Bytes,
  CString, leb, if◌then◌else◌, length, take, has, All, ◌≡◌, refl, ap, arith, Bool-cases, inl, inr,
  ◌∙◌, ◌≢◌, take-append, take_all, append-cons-ne-nil,
}
use nagios_snmp.Util.{
  is_empty, xstrlen, keep_chars, non_empty, remove_chars, blank_to_space, remove_spaces, quote_from,
  quote, remove_quotes_from, remove_quotes, backslash_from, backslash_quote, is_white, filename_end,
  extract_filename,
}

-- The bytes that a result takes with its NUL.
abbrev pub alloc : CString → ℕ
alloc none = 0
alloc (some s) = length s + 1

length-keep_chars : (rem s : Bytes) → length (keep_chars rem s) ≤ length s
unfolding keep_chars
length-keep_chars rem [] = omega arith
length-keep_chars rem (c ∷ s) = ground (arith, length-keep_chars rem s)

length-blank_to_space : (s : Bytes) → length (blank_to_space s) ≡ length s
unfolding blank_to_space
length-blank_to_space [] = refl
length-blank_to_space (c ∷ s) = ap suc (length-blank_to_space s)

length-quote_from : (s : Bytes) → length (quote_from s) ≤ length s * 2 + 1
unfolding quote_from
length-quote_from [] = omega arith
length-quote_from (c ∷ s) = ground (arith, length-quote_from s)

length-remove_quotes_from : (n i : ℕ) (s : Bytes) → length (remove_quotes_from n i s) ≤ length s
unfolding remove_quotes_from
length-remove_quotes_from n i [] = omega arith
length-remove_quotes_from n i (c ∷ s) = ground (arith, length-remove_quotes_from n (i + 1) s)

length-backslash_from : (f : Bool) (s : Bytes) → length (backslash_from f s) ≤ 2 * length s
unfolding backslash_from
length-backslash_from f [] = omega arith
length-backslash_from f (c ∷ s) = ground (arith, length-backslash_from false s)

-- What each function writes, its NUL included, fits in the bytes that it allocated.
pub buffers_fit :
    (s rem : Bytes)
    → (alloc (remove_chars (some s) rem) ≤ length s + 1)
      × (alloc (remove_spaces (some s)) ≤ length s + 1)
      × (alloc (some (quote (some s))) ≤ xstrlen (some s) * 2 + 3)
      × (alloc (remove_quotes (some s)) ≤ length s + 1)
      × (alloc (backslash_quote (some s)) ≤ 2 * length s + 1)
unfolding remove_chars remove_spaces quote remove_quotes backslash_quote non_empty xstrlen
buffers_fit s rem = (
  ground (arith, length-keep_chars rem s),
  ground (arith, length-blank_to_space s),
  omega (arith, length-quote_from s),
  omega (arith, length-remove_quotes_from (length s) 0 s),
  omega (arith, length-backslash_from true s),
)

non_empty_inv : (s t : Bytes) → non_empty s ≡ some t → s ≡ t
unfolding non_empty
non_empty_inv [] t e = cc
non_empty_inv (c ∷ s) t e = cc

pub non_empty_id : (s : Bytes) → s ≢ [] → non_empty s ≡ some s
unfolding non_empty
non_empty_id [] h = absurd (h refl)
non_empty_id (c ∷ s) h = refl

has-keep_chars : (c : ℕ) (rem s : Bytes) → has c rem ≡ true → has c (keep_chars rem s) ≡ false
unfolding keep_chars
has-keep_chars c rem [] h = refl
has-keep_chars c rem (d ∷ s) h = ground (arith, has-keep_chars c rem s h)

pub keep_chars_id : (rem s : Bytes) → All (λ c. has c rem ≡ false) s → keep_chars rem s ≡ s
unfolding keep_chars
keep_chars_id rem [] h = refl
keep_chars_id rem (c ∷ s) h = rw h.0 (ap (◌∷◌ c) (keep_chars_id rem s h.1))

keep_chars_idem : (rem s : Bytes) → keep_chars rem (keep_chars rem s) ≡ keep_chars rem s
unfolding keep_chars
keep_chars_idem rem [] = refl
keep_chars_idem rem (c ∷ s) = ground (arith, keep_chars_idem rem s)

pub remove_chars_id :
    (rem s : Bytes) → All (λ c. has c rem ≡ false) s → s ≢ [] → remove_chars (some s) rem ≡ some s
unfolding remove_chars
remove_chars_id rem s h ne = rw (keep_chars_id rem s h) (non_empty_id s ne)

-- What `remove_chars` returns holds none of the bytes to remove, and to remove them once more
-- changes nothing.
pub remove_chars_lem :
    (rem s t : Bytes) (c : ℕ)
    → remove_chars (some s) rem ≡ some t
    → has c rem ≡ true
    → (has c t ≡ false) × (remove_chars (some t) rem ≡ some t)
unfolding remove_chars
remove_chars_lem rem s t c e h =
    let kept = non_empty_inv (keep_chars rem s) t e in
    (
      ground (arith, kept, has-keep_chars c rem s h),
      ap (λ u. remove_chars (some u) rem) (sym kept) ∙ ap non_empty (keep_chars_idem rem s) ∙ e,
    )

pub is_empty-ne-nil : (s : Bytes) → s ≢ [] → is_empty (some s) ≡ false
unfolding is_empty
is_empty-ne-nil [] h = absurd (h refl)
is_empty-ne-nil (c ∷ s) h = refl

non_empty-is_empty : (s : Bytes) → non_empty s ≡ (if is_empty (some s) then none else some s)
unfolding non_empty is_empty
non_empty-is_empty [] = refl
non_empty-is_empty (c ∷ s) = refl

filename_end-word :
    (n : ℕ) (w : Bytes) → All (λ c. is_white c ≡ false) w → filename_end n w ≡ n + length w
unfolding filename_end
filename_end-word n [] h = omega arith
filename_end-word n (c ∷ w) h = ground (arith, filename_end-word (n + 1) w h.1)

filename_end-white :
    (n c : ℕ) (w s : Bytes)
    → All (λ c. is_white c ≡ false) w
    → is_white c ≡ true
    → filename_end n (w ++ c ∷ s) ≡ n + length w - 1
unfolding filename_end
filename_end-white n c [] s h k = ground arith
filename_end-white n c (d ∷ w) s h k = ground (arith, filename_end-white (n + 1) c w s h.1 k)

extract_filename_ne :
    (s w : Bytes) (n : ℕ)
    → s ≢ []
    → filename_end 1 s ≡ n
    → leb n 1 ≡ false
    → take n s ≡ w
    → extract_filename (some s) ≡ some w
unfolding extract_filename
extract_filename_ne [] w n ne e h k = absurd (ne refl)
extract_filename_ne (c ∷ s) w n ne e h k = rw (e, h, k)

length-ne-nil : (w : Bytes) → w ≢ [] → 0 < length w
length-ne-nil [] ne = absurd (ne refl)
length-ne-nil (c ∷ w) ne = omega arith

take_word : (w : Bytes) (c : ℕ) (s : Bytes) → take (1 + length w - 1) (w ++ c ∷ s) ≡ w
take_word w c s = let e : 1 + length w - 1 ≡ length w = omega arith in rw e (take-append w (c ∷ s))

extract_filename-none :
    (s : Bytes) (n : ℕ) → filename_end 1 s ≡ n → leb n 1 ≡ true → extract_filename (some s) ≡ none
unfolding extract_filename
extract_filename-none [] n e h = refl
extract_filename-none (c ∷ s) n e h = rw (e, h)

extract_filename-word :
    (w : Bytes) → All (λ d. is_white d ≡ false) w → extract_filename (some w) ≡ non_empty w
unfolding extract_filename non_empty
extract_filename-word [] h = refl
extract_filename-word (d ∷ w) h =
    extract_filename_ne (d ∷ w) (d ∷ w) (2 + length w) (λ e. cc)
      (filename_end-word 1 (d ∷ w) h ∙ omega arith) (ground arith)
      (take_all (2 + length w) (d ∷ w) (omega arith))

-- A command of one word is its own filename, and an empty one has none; where a blank, a tab or a
-- newline ends the first word, that word is the filename, except that a word of at most one byte
-- gives NULL.
pub extract_filename_lem :
    (w : Bytes) (c : ℕ) (s : Bytes)
    → All (λ d. is_white d ≡ false) w
    → is_white c ≡ true
    → (extract_filename (some w) ≡ (if is_empty (some w) then none else some w))
      × (extract_filename (some (w ++ c ∷ s)) ≡ (if ltb 1 (length w) then some w else none))
extract_filename_lem w c s h k = (
  extract_filename-word w h ∙ non_empty-is_empty w,
  elim (Bool-cases (ltb 1 (length w))) [
    | inl long ↦ rw long (
        extract_filename_ne (w ++ c ∷ s) w (1 + length w - 1) (append-cons-ne-nil w c s)
          (filename_end-white 1 c w s h k) (ground arith) (take_word w c s))
    | inr short ↦ rw short (
        extract_filename-none (w ++ c ∷ s) (1 + length w - 1) (filename_end-white 1 c w s h k)
          (ground arith))
  ],
)
