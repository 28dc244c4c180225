-- ===== src/Tests/Reports.antt =====
-- Reports of the diagnostics at concrete inputs, with natural numbers in place of doubles.
use nagios_snmp.Base.{
  ℕ, ◌+◌, ◌/◌, ◌≤◌, true, false, [], ◌∷◌, map, has, ok, ◌>>=◌, length, All-map, ◌≡◌, arith,
}
use nagios_snmp.Base.Int.{ℤ, pos, negsuc, read_digits}
use nagios_snmp.Base.Decimal.{decimal}
use nagios_snmp.Util.{is_digit}
use nagios_snmp.Util.Numbers.{decimal-ne-nil, decimal-IsDigits, length-decimal}
use nagios_snmp.Channel.{Channel}
use nagios_snmp.Diagnostics.{Real, Readings, diagnostics, diagnostics_get_padding}
use nagios_snmp.Diagnostics.Rows.{render}
use nagios_snmp.Diagnostics.ReadBack.{IsToken}
use nagios_snmp.Diagnostics.Written.{Prints}
use nagios_snmp.Diagnostics.Pool.{file}
use nagios_snmp.Diagnostics.Global.{pool_report}
use nagios_snmp.Diagnostics.Totals.{dumps, totals}
use nagios_snmp.Diagnostics.Report.{pool_report-totals}

magnitude : ℤ → ℕ
magnitude (pos n) = n
magnitude (negsuc n) = n + 1

quotient_by : ℕ → ℤ → ℕ
unfolding magnitude
quotient_by n k = n / magnitude k

abbrev naturals : Real
naturals = record {
  Double = ℕ;
  nought = 0;
  plus = λ a b. a + b;
  quotient = quotient_by;
  of_count = λ n. n;
  of_int = magnitude;
  atof = read_digits 0;
  show_long = decimal;
  show_float = decimal;
  show_double = decimal;
}

digit_clean : (c : ℕ) → is_digit c ≡ true → has c (0 ∷ b' ' ∷ b'\n' ∷ []) ≡ false
digit_clean c h = ground arith

decimal-IsToken : (n : ℕ) → IsToken (decimal n) × (length (decimal n) ≤ 320)
decimal-IsToken n = (
  (
    decimal-ne-nil n,
    All-map (λ c. is_digit c ≡ true) (λ c. has c (0 ∷ b' ' ∷ b'\n' ∷ []) ≡ false) digit_clean
        (decimal n) (decimal-IsDigits n),
  ),
  omega (arith, length-decimal n),
)

abbrev naturals_prints : Prints naturals
naturals_prints = record {
  long_token = decimal-IsToken;
  float_token = decimal-IsToken;
  double_token = decimal-IsToken;
}

abbrev counted : Channel
counted = record {
  writes_host = 2;
  writes_svc = 1;
  written_bytes_host = 78;
  written_bytes_svc = 40;
  errors = 0;
  lines = [];
}

abbrev readings : ℕ → Readings
readings pid = record {
  now = 1100;
  startup_time = 1000;
  pid = pid;
  num_of_threads = 5;
  length_of_tasks_queue = 0;
  length_of_free_tasks_queue = 10;
  arena = 135168;
  usmblks = 0;
  uordblks = 4096;
  trap_parsed = 300;
  channel = counted;
  log_error_size = 0;
  trap_log_size = 512;
}

pool_report-totals_example :
    (dumps naturals (diagnostics naturals) (readings 11 ∷ readings 12 ∷ []) >>= λ texts.
    pool_report naturals (diagnostics naturals) (map file texts))
    ≡ ok (
        render
          (diagnostics_get_padding naturals (diagnostics naturals))
          (totals naturals (diagnostics naturals) (readings 11 ∷ readings 12 ∷ [])))
pool_report-totals_example =
    pool_report-totals naturals (readings 11 ∷ readings 12 ∷ []) naturals_prints
