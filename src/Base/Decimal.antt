-- ===== src/Base/Decimal.antt =====
-- Decimal numbers, as `printf` writes them.
use Prim.Native.Nat.{ℕ, zero, suc, ◌+◌, ◌/◌, ◌%◌}
use mathlib.Core.List.{[], ◌∷◌, ◌++◌}
use nagios_snmp.Base.Tests.{◌==◌, if◌then◌else◌}
use nagios_snmp.Base.Text.{Bytes}
use nagios_snmp.Base.Int.{ℤ, pos, negsuc}

-- The last `k` digits; `%012u` of an `unsigned int` is its last twelve.
unfoldable pub fixed_digits : ℕ → ℕ → Bytes
fixed_digits zero n = []
fixed_digits (suc k) n = fixed_digits k (n / 10) ++ (b'0' + n % 10) ∷ []

-- With no zero in front of another digit.
unfoldable pub strip_zeros : Bytes → Bytes
strip_zeros [] = []
strip_zeros (c ∷ []) = c ∷ []
strip_zeros (c ∷ d ∷ s) = let rest = strip_zeros (d ∷ s) in if c == b'0' then rest else c ∷ d ∷ s

-- `%u` of a number of 32 bits: it has at most ten digits.
unfoldable pub decimal : ℕ → Bytes
unfolding fixed_digits strip_zeros
decimal n = strip_zeros (fixed_digits 10 n)

-- `%d` of an `int`.
unfoldable pub decimal_int : ℤ → Bytes
unfolding decimal
decimal_int (pos n) = decimal n
decimal_int (negsuc n) = b'-' ∷ decimal (suc n)
