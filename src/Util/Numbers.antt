-- ===== src/Util/Numbers.antt =====
-- Numbers as `printf` writes them and `atoi` reads them.
use nagios_snmp.Base.{
  ℕ, zero, suc, ◌+◌, ◌-◌, ◌*◌, ◌/◌, ◌%◌, ◌^◌, ◌≤◌, ◌<◌, true, false, [], ◌∷◌, ◌++◌, Bytes, ◌==◌,
  ==_iff, Bool-cases, inl, inr, length, length-append, All, All-append, ◌≡◌, ◌≢◌, refl, ap, sym,
  arith, ◌∙◌,
}
use nagios_snmp.Base.Int.{pos, read_digits, signed, atoi, is_space}
use nagios_snmp.Base.Decimal.{fixed_digits, strip_zeros, decimal}
use nagios_snmp.Util.{is_digit}

abbrev pub IsDigits : Bytes → Type 0
IsDigits s = All (λ c. is_digit c ≡ true) s

read_digits-append :
    (n : ℕ) (s : Bytes) (d : ℕ)
    → IsDigits s
    → d < 10
    → read_digits n (s ++ (b'0' + d) ∷ []) ≡ read_digits n s * 10 + d
unfolding read_digits
read_digits-append n [] d h k = ground arith
read_digits-append n (c ∷ s) d h k =
    ground (arith, read_digits-append (n * 10 + (c - b'0')) s d h.1 k)

fixed_digits-IsDigits : (k n : ℕ) → IsDigits (fixed_digits k n)
unfolding fixed_digits
fixed_digits-IsDigits zero n = tt
fixed_digits-IsDigits (suc k) n =
    All-append (λ c. is_digit c ≡ true) (fixed_digits k (n / 10)) ((b'0' + n % 10) ∷ [])
      (fixed_digits-IsDigits k (n / 10)) (ground arith, tt)

abbrev ten_to : ℕ → ℕ
ten_to zero = 1
ten_to (suc k) = 10 * ten_to k

-- The value of the last digits of a number that has no more.
read_digits-fixed : (k n : ℕ) → n < ten_to k → read_digits 0 (fixed_digits k n) ≡ n
unfolding fixed_digits read_digits
read_digits-fixed zero n h = omega arith
read_digits-fixed (suc k) n h =
    let small : n / 10 < ten_to k = omega arith in
    let ih = read_digits-fixed k (n / 10) small in
    read_digits-append 0 (fixed_digits k (n / 10)) (n % 10) (fixed_digits-IsDigits k (n / 10))
      (omega arith)
    ∙ omega (arith, ih)

strip_zeros-IsDigits : (s : Bytes) → IsDigits s → IsDigits (strip_zeros s)
unfolding strip_zeros
strip_zeros-IsDigits [] h = tt
strip_zeros-IsDigits (c ∷ []) h = h
strip_zeros-IsDigits (c ∷ d ∷ s) h = elim (Bool-cases (c == b'0')) [
  | inl nought ↦ rw nought (strip_zeros-IsDigits (d ∷ s) h.1)
  | inr other ↦ rw other h
]

length-strip_zeros : (s : Bytes) → length (strip_zeros s) ≤ length s
unfolding strip_zeros
length-strip_zeros [] = omega arith
length-strip_zeros (c ∷ []) = omega arith
length-strip_zeros (c ∷ d ∷ s) = ground (arith, length-strip_zeros (d ∷ s))

strip_zeros-ne-nil : (c : ℕ) (s : Bytes) → strip_zeros (c ∷ s) ≢ []
unfolding strip_zeros
strip_zeros-ne-nil c [] = λ e. cc
strip_zeros-ne-nil c (d ∷ s) = elim (Bool-cases (c == b'0')) [
  | inl nought ↦ rw nought (strip_zeros-ne-nil d s)
  | inr other ↦ rw other (λ e. cc)
]

read_digits-nought : (s : Bytes) → read_digits 0 (b'0' ∷ s) ≡ read_digits 0 s
unfolding read_digits
read_digits-nought s = ap (λ (n : ℕ). read_digits n s) (omega arith)

read_digits-strip_zeros : (s : Bytes) → read_digits 0 (strip_zeros s) ≡ read_digits 0 s
unfolding strip_zeros
read_digits-strip_zeros [] = refl
read_digits-strip_zeros (c ∷ []) = refl
read_digits-strip_zeros (c ∷ d ∷ s) = elim (Bool-cases (c == b'0')) [
  | inl nought ↦
      let e = (==_iff c b'0').0 nought in
      rw nought (
        read_digits-strip_zeros (d ∷ s)
        ∙ sym (read_digits-nought (d ∷ s))
        ∙ ap (λ (x : ℕ). read_digits 0 (x ∷ d ∷ s)) (sym e))
  | inr other ↦ rw other refl
]

pub length-fixed_digits : (k n : ℕ) → length (fixed_digits k n) ≡ k
unfolding fixed_digits
length-fixed_digits zero n = refl
length-fixed_digits (suc k) n = omega (
  arith,
  length-append (fixed_digits k (n / 10)) ((b'0' + n % 10) ∷ []),
  length-fixed_digits k (n / 10),
)

pub decimal-ne-nil : (n : ℕ) → decimal n ≢ []
unfolding decimal
decimal-ne-nil n = go (fixed_digits 10 n) (length-fixed_digits 10 n)
  where
    go : (s : Bytes) → length s ≡ 10 → strip_zeros s ≢ []
    go [] h = absurd (omega (arith, h))
    go (c ∷ s) h = strip_zeros-ne-nil c s

pub decimal-IsDigits : (n : ℕ) → IsDigits (decimal n)
unfolding decimal
decimal-IsDigits n = strip_zeros-IsDigits (fixed_digits 10 n) (fixed_digits-IsDigits 10 n)

pub length-decimal : (n : ℕ) → length (decimal n) ≤ 10
unfolding decimal
length-decimal n = omega (arith, length-strip_zeros (fixed_digits 10 n), length-fixed_digits 10 n)

pub read_digits-decimal : (n : ℕ) → n < 2 ^ 31 → read_digits 0 (decimal n) ≡ n
unfolding decimal
read_digits-decimal n h =
    read_digits-strip_zeros (fixed_digits 10 n) ∙ read_digits-fixed 10 n (omega arith)

signed_small : (n : ℕ) → n < 2 ^ 31 → signed false n ≡ pos n
unfolding signed
signed_small n h = ground arith

pub atoi-digits :
    (s : Bytes) (n : ℕ) → s ≢ [] → IsDigits s → read_digits 0 s ≡ n → n < 2 ^ 31 → atoi s ≡ pos n
unfolding atoi
atoi-digits [] n ne h e k = absurd (ne refl)
atoi-digits (c ∷ s) n ne h e k =
    let space : is_space c ≡ false = ground (arith, h.0) in
    let minus : (c == b'-') ≡ false = ground (arith, h.0) in
    let plus : (c == b'+') ≡ false = ground (arith, h.0) in
    rw space (rw minus (rw plus (rw e (signed_small n k))))
