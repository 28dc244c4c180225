-- ===== src/Base/Int.antt =====
-- Signed integers over the native numbers, and glibc's `atoi`: `strtol` in base 10, cut down to 32
-- bits.
use Prim.Native.Nat.{ℕ, ◌+◌, ◌-◌, ◌*◌, ◌%◌, ◌^◌, min}
use mathlib.Core.Bool.{Bool, true, false, ◌&&◌, ◌||◌}
use mathlib.Core.List.{[], ◌∷◌}
use nagios_snmp.Base.Tests.{ltb, leb, ◌==◌, if◌then◌else◌}
use nagios_snmp.Base.Text.{Bytes}

-- `negsuc n` is -(n + 1).
pub data ℤ : Type 0 where
  pos : ℕ → ℤ
  negsuc : ℕ → ℤ

-- The digits at the head of the text, added to `n`.
unfoldable pub read_digits : ℕ → Bytes → ℕ
read_digits n [] = n
read_digits n (c ∷ s) =
    let rest = read_digits (n * 10 + (c - b'0')) s in if leb b'0' c && leb c b'9' then rest else n

-- `isspace` in the C locale.
abbrev pub is_space : ℕ → Bool
is_space c = c == b' ' || (leb 9 c && leb c 13)

-- A pattern of 32 bits as an `int`.
unfoldable pub to_int32 : ℕ → ℤ
to_int32 n = let m = n % 2 ^ 32 in if ltb m (2 ^ 31) then pos m else negsuc (2 ^ 32 - m - 1)

-- `strtol` stops at LONG_MAX and LONG_MIN.
unfoldable pub signed : Bool → ℕ → ℤ
unfolding to_int32
signed false n = to_int32 (min n (2 ^ 63 - 1))
signed true n = to_int32 (2 ^ 64 - min n (2 ^ 63))

unfoldable pub read_sign : Bytes → ℤ
unfolding signed read_digits
read_sign [] = signed false 0
read_sign (c ∷ s) =
    if c == b'-'
    then signed true (read_digits 0 s)
    else signed false (read_digits 0 (if c == b'+' then s else c ∷ s))

unfoldable pub atoi : Bytes → ℤ
unfolding read_sign
atoi [] = signed false 0
atoi (c ∷ s) = let rest = atoi s in if is_space c then rest else read_sign (c ∷ s)
