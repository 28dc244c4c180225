-- ===== src/Pidfile/RoundTrip.antt =====
-- A process id is read back as it was written.
use nagios_snmp.Base.{
  ℕ, ◌^◌, ◌<◌, Bool, true, false, [], ◌∷◌, ◌++◌, none, some, Bytes, ok, ◌>>=◌, lt→leb_false, equal,
  equal_refl, length, ◌≡◌, ◌≢◌, refl, ap, arith, if◌then◌else◌,
}
use nagios_snmp.Base.Int.{pos, is_space}
use nagios_snmp.Base.Decimal.{decimal}
use nagios_snmp.Util.Strings.{is_empty-ne-nil}
use nagios_snmp.Util.Numbers.{
  IsDigits, decimal-ne-nil, decimal-IsDigits, length-decimal, read_digits-decimal, atoi-digits,
}
use nagios_snmp.Pidfile.{
  get_pidfile, pidfile_write, word_at, scan_word, read_word, read_file, pidfile_read,
}

word_at-digits : (s : Bytes) → IsDigits s → word_at (s ++ b'\n' ∷ []) ≡ s
unfolding word_at
word_at-digits [] h = refl
word_at-digits (c ∷ s) h =
    let space : is_space c ≡ false = ground (arith, h.0) in
    rw space (ap (◌∷◌ c) (word_at-digits s h.1))

scan_word-digits : (s : Bytes) → IsDigits s → scan_word (s ++ b'\n' ∷ []) ≡ s
unfolding scan_word word_at
scan_word-digits [] h = refl
scan_word-digits (c ∷ s) h =
    let space : is_space c ≡ false = ground (arith, h.0) in
    rw space (ap (◌∷◌ c) (word_at-digits s h.1))

read_word-decimal : (n : ℕ) → n < 2 ^ 31 → read_word (decimal n ++ b'\n' ∷ []) ≡ ok (pos n)
unfolding read_word
read_word-decimal n h = rw (scan_word-digits (decimal n) (decimal-IsDigits n)) (
    rw (is_empty-ne-nil (decimal n) (decimal-ne-nil n)) (
      rw (lt→leb_false 32 (length (decimal n)) (omega (arith, length-decimal n))) (
        ap ok (
          atoi-digits (decimal n) n (decimal-ne-nil n) (decimal-IsDigits n)
            (read_digits-decimal n h) h))))

-- What `pidfile_write` leaves in the file that the option names is what `pidfile_read` gives back:
-- the process id, which is less than 2^31. The option is not empty, and the file can be opened.
pub pidfile_read-pidfile_write :
    (opens : Bytes → Bool) (path : Bytes) (n : ℕ)
    → path ≢ []
    → opens path ≡ true
    → n < 2 ^ 31
    → (pidfile_write opens n none (some path) >>= λ written.
        pidfile_read (λ p. if equal p written.0 then some written.1 else none) none (some path))
      ≡ ok (pos n)
unfolding pidfile_write pidfile_read get_pidfile read_file
pidfile_read-pidfile_write opens path n ne h k =
    rw (is_empty-ne-nil path ne) (rw h (rw (read_file, equal_refl path) (read_word-decimal n k)))
