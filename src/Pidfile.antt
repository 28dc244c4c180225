-- ===== src/Pidfile.antt =====
-- src/pidfile.c: the file with the daemon's process id. What the system answers is an argument.
pub mod RoundTrip
use nagios_snmp.Base.{
  ℕ, ◌+◌, Bool, true, false, List, [], ◌∷◌, ◌++◌, Option, none, some, Bytes, CString, Result, ok,
  fault, critical, exit_failure, overflow, ◌>>=◌, leb, if◌then◌else◌, length,
}
use nagios_snmp.Base.Int.{ℤ, is_space, atoi}
use nagios_snmp.Base.Decimal.{decimal}
use nagios_snmp.Util.{is_empty}

-- The path is kept from the first call; `option` is the value of `:pid_file`.
unfoldable pub get_pidfile : CString → CString → Result Bytes
get_pidfile (some path) option = if is_empty (some path) then fault critical else ok path
get_pidfile none none = fault critical
get_pidfile none (some path) = if is_empty (some path) then fault critical else ok path

-- The path of the file, and the text written. `opens` says which file can be opened for writing.
unfoldable pub pidfile_write : (Bytes → Bool) → ℕ → CString → CString → Result (Bytes × Bytes)
unfolding get_pidfile
pidfile_write opens mypid kept option = do
  path ← get_pidfile kept option
  if opens path then ok (path, decimal mypid ++ b'\n' ∷ []) else fault critical

-- `%s` of `fscanf`: the word behind white space.
unfoldable pub word_at : Bytes → Bytes
word_at [] = []
word_at (c ∷ s) = let rest = word_at s in if is_space c then [] else c ∷ rest

unfoldable pub scan_word : Bytes → Bytes
unfolding word_at
scan_word [] = []
scan_word (c ∷ s) = let rest = scan_word s in if is_space c then rest else word_at (c ∷ s)

-- The word stands in an array of 32 bytes.
unfoldable pub read_word : Bytes → Result ℤ
unfolding scan_word
read_word text =
    if is_empty (some (scan_word text))
    then fault exit_failure
    else if leb 32 (length (scan_word text))
    then fault overflow
    else ok (atoi (scan_word text))

unfoldable pub read_file : Option Bytes → Result ℤ
unfolding read_word
read_file none = fault exit_failure
read_file (some text) = read_word text

unfoldable pub pidfile_read : (Bytes → Option Bytes) → CString → CString → Result ℤ
unfolding get_pidfile read_file
pidfile_read text_of kept option = do path ← get_pidfile kept option; read_file (text_of path)

-- The file that is removed; a failure is only logged.
unfoldable pub pidfile_erase : CString → CString → Result Bytes
unfolding get_pidfile
pidfile_erase kept option = get_pidfile kept option
