-- ===== src/Base/Stdio.antt =====
-- `fgets` of libc over the bytes of a file, and the C string that it leaves in its buffer.
use Prim.Native.Nat.{ℕ, ◌-◌}
use mathlib.Core.Bool.{true, false, ◌||◌}
use mathlib.Core.List.{List, [], ◌∷◌, ◌++◌}
use nagios_snmp.Base.Tests.{◌==◌, leb, if◌then◌else◌}
use nagios_snmp.Base.Text.{Bytes}
use nagios_snmp.Base.Strtok.{flush}

-- The bytes in front of the first NUL.
unfoldable pub until_nul : Bytes → Bytes
until_nul [] = []
until_nul (c ∷ s) = let rest = until_nul s in if c == 0 then [] else c ∷ rest

-- What the calls return in turn, where `w` has been read of the first one and `room` bytes more
-- fit in the buffer of `size` bytes, its NUL left out of account.
unfoldable pub fgets_from : ℕ → ℕ → Bytes → Bytes → List Bytes
fgets_from size room w [] = flush w
fgets_from size room w (c ∷ s) = elim (c == b'\n' || leb room 1) [
  | true ↦ (w ++ c ∷ []) ∷ fgets_from size (size - 1) [] s
  | false ↦ fgets_from size (room - 1) (w ++ c ∷ []) s
]

unfoldable pub fgets : ℕ → Bytes → List Bytes
unfolding fgets_from
fgets size file = fgets_from size (size - 1) [] file
