-- ===== src/Command.antt =====
-- src/command.c: the expansion of `$...$` macros in a command line. The two growing buffers keep
-- their sizes, and a write past an end is a fault. A hook gives a macro its value, or NULL.
pub mod Expansion
pub mod Ends
pub mod Boundary
use nagios_snmp.Base.{
  ℕ, ◌+◌, ◌-◌, ◌*◌, Bool, true, false, not, ◌||◌, List, [], ◌∷◌, ◌++◌, Option, none, some, Bytes,
  CString, codes, equal, Result, ok, fault, overflow, ◌>>=◌, ◌>>◌, ltb, leb, ◌==◌, if◌then◌else◌,
  length, take, drop, get_elem?,
}
use nagios_snmp.Base.Int.{ℤ, pos, negsuc, atoi}
use nagios_snmp.Util.{xstrdup, is_empty}

pub data ExpandStatus : Type 0 where
  normal possible_macro : ExpandStatus

-- `buffer` and `macrobuffer` up to `i` and `j`, and the sizes of their allocations.
pub record Expander : Type 0 where
  pub status : ExpandStatus
  pub buffer : Bytes
  pub buflen : ℕ
  pub macrobuffer : Bytes
  pub macrobuflen : ℕ

abbrev tmpbuflen : ℕ
tmpbuflen = 1024

abbrev tmpbuflen_small : ℕ
tmpbuflen_small = 128

-- The last index of a write lies below the size.
abbrev pub check_bound : ℕ → ℕ → Result (Unit {0})
check_bound end size = if leb end size then ok tt else fault overflow

-- The two tests at the head of the loop.
unfoldable pub grow : Expander → Expander
grow e = record e {
  buflen = if ltb (e.buflen - 1) (length e.buffer) then e.buflen * 2 else e.buflen;
  macrobuflen =
      if ltb (e.macrobuflen - 1) (length e.macrobuffer) then e.macrobuflen * 2 else e.macrobuflen;
}

-- `if (i + n > buflen-1)`, and then room for `n` more.
unfoldable pub reserve : ℕ → Expander → Expander
reserve n e = record e {
  buflen = if ltb (e.buflen - 1) (length e.buffer + n) then e.buflen * 2 + n else e.buflen;
}

-- `memcpy(buffer+i, s, n)` for the `n` bytes of `s`.
unfoldable pub append_bytes : Bytes → Expander → Result Expander
append_bytes s e = do
  check_bound (length e.buffer + length s) e.buflen
  ok (record e { buffer = e.buffer ++ s })

-- The value of the macro that has just ended, or its text.
unfoldable pub paste : Expander → Bytes → CString → Result Expander
unfolding reserve append_bytes
paste e macro (some value) = append_bytes value (reserve (length value) e)
paste e macro none = append_bytes macro (reserve (length e.macrobuffer) e)

-- The body of the loop behind the two tests.
unfoldable pub expand_char :
    (Bytes → Result CString) → ExpandStatus → Expander → ℕ → Result Expander
unfolding paste append_bytes
expand_char hook normal e c =
    if c == b'$'
    then (check_bound 1 e.macrobuflen
        >> ok (record e { status = possible_macro; macrobuffer = c ∷ [] }))
    else append_bytes (c ∷ []) e
expand_char hook possible_macro e c =
    if c == b'$'
    then (do
      check_bound (length e.macrobuffer + 2) e.macrobuflen
      value ← hook (e.macrobuffer ++ c ∷ [])
      paste (record e { status = normal }) (e.macrobuffer ++ c ∷ []) value)
    else (check_bound (length e.macrobuffer + 1) e.macrobuflen
        >> ok (record e { macrobuffer = e.macrobuffer ++ c ∷ [] }))

-- Behind the loop: an unfinished macro is copied, and the NUL is written.
unfoldable pub expand_end : ExpandStatus → Expander → Result Bytes
unfolding reserve append_bytes
expand_end normal e = do check_bound (length e.buffer + 1) e.buflen; ok e.buffer
expand_end possible_macro e = do
  f ← append_bytes e.macrobuffer (reserve (length e.macrobuffer) e)
  check_bound (length f.buffer + 1) f.buflen
  ok f.buffer

unfoldable pub expand_loop : (Bytes → Result CString) → Expander → Bytes → Result Bytes
unfolding expand_char expand_end grow
expand_loop hook e [] = expand_end e.status e
expand_loop hook e (c ∷ s) = do f ← expand_char hook e.status (grow e) c; expand_loop hook f s

abbrev pub fresh_expander : Expander
fresh_expander = record {
  status = normal;
  buffer = [];
  buflen = tmpbuflen;
  macrobuffer = [];
  macrobuflen = tmpbuflen_small;
}

unfoldable pub expand_command_internal : (Bytes → Result CString) → CString → Result CString
unfolding expand_loop
expand_command_internal hook none = ok none
expand_command_internal hook (some command) = do
  buffer ← expand_loop hook fresh_expander command
  ok (some buffer)

abbrev unknown_address : Bytes
unknown_address = codes "UNKNOWN"

-- `db_lookup_resource` is the argument.
unfoldable pub expand_hook_1 : (Bytes → CString) → Bytes → Result CString
expand_hook_1 lookup_resource macro = ok (lookup_resource macro)

unfoldable pub command_expand_1 : (Bytes → CString) → CString → Result CString
unfolding expand_command_internal expand_hook_1
command_expand_1 lookup_resource command =
    expand_command_internal (expand_hook_1 lookup_resource) command

unfoldable pub expand_hook_2 : CString → CString → Bytes → Result CString
unfolding is_empty xstrdup
expand_hook_2 host_address sender_address macro =
    if equal macro (codes "$HOSTADDRESS$")
    then ok (
        if not (is_empty host_address)
        then xstrdup host_address
        else xstrdup (some unknown_address))
    else if equal macro (codes "$SENDERADDRESS$")
    then ok (
        if not (is_empty sender_address)
        then xstrdup sender_address
        else xstrdup (some unknown_address))
    else ok none

unfoldable pub command_expand_2 : CString → CString → CString → Result CString
unfolding expand_command_internal expand_hook_2
command_expand_2 command host_address sender_address =
    expand_command_internal (expand_hook_2 host_address sender_address) command

-- `args[arg_index-1]` for an index in range; `none` where the entry is NULL.
abbrev arg_at : List CString → ℕ → CString
arg_at args n = elim (get_elem? args (n - 1)) [ none ↦ none | some a ↦ xstrdup a ]

-- `if (arg_index < 1 || arg_index > args_no)`
unfoldable pub select_arg : List CString → ℤ → CString
unfolding xstrdup
select_arg args (negsuc n) = none
select_arg args (pos n) = if ltb n 1 || ltb (length args) n then none else arg_at args n

-- `args` is `none` for NULL; `args_no` is its length. The digits are copied to a buffer of 32 bytes.
unfoldable pub expand_hook_3 : CString → Option (List CString) → Bytes → Result CString
unfolding xstrdup select_arg atoi
expand_hook_3 host_address args macro =
    if equal macro (codes "$HOSTADDRESS$")
    then ok (xstrdup host_address)
    else if equal macro (codes "$SENDERADDRESS$")
    then ok (xstrdup (some unknown_address))
    else if not (equal (take 4 macro) (codes "$ARG"))
    then ok none
    else elim args [
      | none ↦ ok none
      | some as_list ↦
          check_bound (length macro - 5 + 1) 32
          >> ok (select_arg as_list (atoi (take (length macro - 5) (drop 4 macro))))
    ]

unfoldable pub command_expand_3 : CString → CString → Option (List CString) → Result CString
unfolding expand_command_internal expand_hook_3
command_expand_3 command host_address args =
    expand_command_internal (expand_hook_3 host_address args) command
