-- ===== src/Base/Strtok.antt =====
-- `strtok_r` of libc with a set of one delimiter: its results in turn, until NULL.
use Prim.Native.Nat.{ℕ}
use mathlib.Core.List.{List, [], ◌∷◌, ◌++◌}
use nagios_snmp.Base.Tests.{◌==◌, if◌then◌else◌}
use nagios_snmp.Base.Text.{Bytes}

-- The word read so far, as `strtok_r` would return it: an empty one is skipped.
abbrev pub flush : Bytes → List Bytes
flush [] = []
flush (c ∷ w) = (c ∷ w) ∷ []

-- The results, where `w` has been read of the first one.
unfoldable pub tokens_from : ℕ → Bytes → Bytes → List Bytes
tokens_from d w [] = flush w
tokens_from d w (c ∷ s) =
    if c == d then flush w ++ tokens_from d [] s else tokens_from d (w ++ c ∷ []) s

unfoldable pub tokens : ℕ → Bytes → List Bytes
unfolding tokens_from
tokens d s = tokens_from d [] s
