-- ===== src/Diagnostics/Buffer.antt =====
-- src/diagnostics.c: the buffer that `diagnostics_prepare_write` fills row by row, with its size.
use nagios_snmp.Base.{
  ℕ, ◌+◌, ◌-◌, ◌&&◌, [], ◌∷◌, ◌++◌, Bytes, Result, ok, fault, overflow, ltb, leb, ◌==◌,
  if◌then◌else◌, length, take, replicate,
}

abbrev pub tmpbuflen : ℕ
tmpbuflen = 1024

-- `buflen` and the bytes written: `usedlen` is their number.
pub record Dump : Type 0 where
  pub buflen : ℕ
  pub text : Bytes

-- `buffer` as it is allocated.
unfoldable pub fresh_dump : Dump
fresh_dump = record { buflen = tmpbuflen; text = [] }

-- What stands in front of the value: blanks, and the key over them.
unfoldable pub cell : ℕ → Bytes → Bytes
cell padding key = take padding (key ++ replicate padding 0x20)

abbrev pub row_size : ℕ → Bytes → ℕ
row_size padding aux = padding + length aux + 1

-- The test is the source's: the buffer grows if the row would fit.
unfoldable pub grown : ℕ → ℕ → ℕ → ℕ
grown buflen usedlen need =
    if ltb (usedlen + need) buflen then buflen + (tmpbuflen + need) else buflen

unfoldable pub put_row : ℕ → Bytes → Bytes → Dump → Result Dump
unfolding grown cell
put_row padding key aux d =
    let need = row_size padding aux in
    let buflen = grown d.buflen (length d.text) need in
    if leb (length d.text + need) buflen && leb (length d.text + length key) buflen
    then ok (record { buflen = buflen; text = d.text ++ (cell padding key ++ (aux ++ b'\n' ∷ [])) })
    else fault overflow

-- `buffer[usedlen-1] = '\n'; buffer[usedlen] = '\0';`
unfoldable pub end_dump : Dump → Result Bytes
end_dump d =
    if length d.text == 0
    then fault overflow
    else if ltb (length d.text) d.buflen
    then ok (take (length d.text - 1) d.text ++ b'\n' ∷ [])
    else fault overflow
