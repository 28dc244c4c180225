-- ===== src/Base/Text.antt =====
-- C strings: the bytes before the terminating NUL, and `none` for a NULL pointer.
use Prim.Native.Nat.{ℕ}
use Prim.Native.Char.{code}
use Prim.Native.String.{String}
use mathlib.Core.Path.{◌≡◌, refl}
use mathlib.Core.Logic.{◌↔◌}
use mathlib.Core.Bool.{Bool, true, false, ◌&&◌, ◌||◌}
use mathlib.Core.List.{List, [], ◌∷◌}
use mathlib.Core.Option.{Option, none, some}
use native.Mathlib.Omega.{arith}
use nagios_snmp.Base.Tests.{◌==◌}
use nagios_snmp.Base.Faults.{Result, ok, fault, null_deref}

abbrev pub Bytes : Type 0
Bytes = List ℕ

abbrev pub CString : Type 0
CString = Option Bytes

-- The bytes of an ASCII literal.
abbrev pub codes : String → Bytes
codes String.[] = []
codes (String.◌∷◌ c s) = code c ∷ codes s

-- `strcmp(a, b) == 0`
abbrev pub equal : Bytes → Bytes → Bool
equal [] [] = true
equal [] (y ∷ ys) = false
equal (x ∷ xs) [] = false
equal (x ∷ xs) (y ∷ ys) = x == y && equal xs ys

-- Does the byte occur?
abbrev pub has : ℕ → Bytes → Bool
has c [] = false
has c (x ∷ xs) = x == c || has c xs

pub equal_iff : (a b : Bytes) → (equal a b ≡ true) ↔ (a ≡ b)
equal_iff [] [] = ground arith
equal_iff [] (y ∷ b) = ground arith
equal_iff (x ∷ a) [] = ground arith
equal_iff (x ∷ a) (y ∷ b) = ground (arith, equal_iff a b)

pub equal_refl : (a : Bytes) → equal a a ≡ true
equal_refl a = (equal_iff a a).1 refl

-- A function of libc that reads its argument: NULL is a fault.
abbrev pub deref : CString → Result Bytes
deref none = fault null_deref
deref (some s) = ok s

-- What glibc prints for `%s`.
abbrev pub printed : CString → Bytes
printed none = codes "(null)"
printed (some s) = s
