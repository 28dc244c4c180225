-- ===== src/Diagnostics/Pool.antt =====
-- src/diagnostics2.c: the dumps of all workers read back and summed up. The files of the pool are an
-- argument, with what `ftw`, `fopen` and `fread` say of each.
use nagios_snmp.Base.{
  ℕ, ◌+◌, ◌-◌, List, [], ◌∷◌, none, some, Bytes, CString, equal, tokens, Result, ok, fault,
  null_deref, overflow, ◌>>=◌, leb, ◌==◌, if◌then◌else◌, length, take,
}
use nagios_snmp.Base.Stdio.{until_nul}

-- An item of `key_value_list`.
pub record KeyValue : Type 0 where
  pub key : Bytes
  pub value : Bytes

-- The loop over the tokens: `keylen` and `prev_token`.
unfoldable pub measure : ℕ → CString → List Bytes → ℕ × CString
measure keylen prev [] = (keylen, prev)
measure keylen prev (token ∷ more) = measure (keylen + (length token + 1)) (some token) more

-- A line with no token reads through NULL; where the only token is the value, the byte in front of
-- `keybuf` is written.
unfoldable pub split_at : Bytes → ℕ → CString → Result KeyValue
split_at buffer keylen none = fault null_deref
split_at buffer keylen (some prev) =
    let len = keylen - (length prev + 1) in
    if len == 0 then fault overflow else ok (record { key = take (len - 1) buffer; value = prev })

unfoldable pub split_key_value : Bytes → Result KeyValue
unfolding measure split_at
split_key_value buffer =
    let found = measure 0 none (tokens b' ' buffer) in split_at buffer found.0 found.1

unfoldable pub split_lines : List Bytes → Result (List KeyValue)
unfolding split_key_value
split_lines [] = ok []
split_lines (line ∷ lines) = do
  item ← split_key_value line
  items ← split_lines lines
  ok (item ∷ items)

unfoldable pub parse_diagnostics : Bytes → Result (List KeyValue)
unfolding split_lines
parse_diagnostics buffer = split_lines (tokens b'\n' buffer)

abbrev pub filesize : ℕ
filesize = 51200

-- An entry of the pool: no regular file, or one that is not opened, not read, or read.
pub data PoolEntry : Type 0 where
  other unopened unread : PoolEntry
  file : Bytes → PoolEntry

-- The buffer is zeroed in front of `fread`: a file that fills it leaves no NUL behind it.
unfoldable pub read_dump : Bytes → Result (List KeyValue)
unfolding parse_diagnostics until_nul
read_dump text =
    if leb filesize (length text) then fault overflow else parse_diagnostics (until_nul text)

-- `ftw` with `traverse_diagnostics_pool`: `diagnostics_list`, in the order of the walk.
unfoldable pub traverse_diagnostics_pool : List PoolEntry → Result (List (List KeyValue))
unfolding read_dump
traverse_diagnostics_pool [] = ok []
traverse_diagnostics_pool (file text ∷ pool) = do
  items ← read_dump text
  more ← traverse_diagnostics_pool pool
  ok (items ∷ more)
traverse_diagnostics_pool (other ∷ pool) = traverse_diagnostics_pool pool
traverse_diagnostics_pool (unopened ∷ pool) = traverse_diagnostics_pool pool
traverse_diagnostics_pool (unread ∷ pool) = traverse_diagnostics_pool pool

unfoldable pub get_value_by_key : List KeyValue → Bytes → CString
get_value_by_key [] key = none
get_value_by_key (item ∷ list) key =
    if equal item.key key then some item.value else get_value_by_key list key
