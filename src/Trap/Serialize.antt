-- ===== src/Trap/Serialize.antt =====
-- src/trap.c, `trap_serialize`: the line of the trap log. The buffer's size is computed first, and
-- a write past it is a fault.
pub mod Contents
pub mod Bounds
pub mod NoAddress
use nagios_snmp.Base.{
  printed, ℕ, zero, suc, ◌+◌, ◌*◌, ◌/◌, ◌%◌, ◌^◌, max, Bool, true, false, not, ◌&&◌, List, [], ◌∷◌,
  ◌++◌, Option, none, some, Bytes, CString, codes, equal, Result, ok, fault, overflow, ◌>>=◌, ◌>>◌,
  leb, if◌then◌else◌, length, deref,
}
use nagios_snmp.Base.Decimal.{fixed_digits}
use nagios_snmp.Util.{is_empty, xstrlen}
use nagios_snmp.Trap.{MibObject, Trap, read_slot, trap_get_contents}

-- `trap_serialize_mode`: 0 until `trap_init` has run.
pub data SerializeMode : Type 0 where
  mode_unset mode_old mode_new : SerializeMode

abbrev check_bound : ℕ → ℕ → Result (Unit {0})
check_bound end size = if leb end size then ok tt else fault overflow

-- The loop that sums up the length, for a delimiter of `d` bytes.
unfoldable pub objects_size : ℕ → List MibObject → Result ℕ
objects_size d [] = ok 0
objects_size d (o ∷ next) = do
  q ← read_slot o.quoted_value
  rest ← objects_size d next
  ok (xstrlen o.oid + xstrlen q + 2 * max d 1 + rest)

abbrev pub header_size : ℕ → Trap → ℕ
header_size d t = 12 + 2 + xstrlen t.ipaddress + xstrlen t.hostname + xstrlen t.oid + 4 * d

abbrev pub header : Bool → Bytes → Trap → Bytes
header executed delimiter t =
    fixed_digits 12 (t.seconds % 2 ^ 32)
    ++ (delimiter
        ++ ((if executed then codes "OK" else codes "NO")
            ++ (delimiter
                ++ (printed t.hostname
                    ++ (delimiter ++ (printed t.ipaddress ++ (delimiter ++ printed t.oid)))))))

-- `sprintf(buffer+auxlen, …)` of this text, with its NUL.
abbrev pub print_at : ℕ → Bytes → Bytes → Result Bytes
print_at buflen buffer text =
    check_bound (length buffer + length text + 1) buflen >> ok (buffer ++ text)

-- The loop of the old mode; the flag is `first_oid`.
unfoldable pub serialize_old : ℕ → Bytes → Bool → Bytes → List MibObject → Result Bytes
serialize_old buflen delimiter first buffer [] = ok buffer
serialize_old buflen delimiter first buffer (o ∷ next) = do
  q ← read_slot o.quoted_value
  let usable = not (is_empty o.oid) && not (is_empty q)
  let text = (if first then delimiter else codes ";") ++ (printed o.oid ++ b';' ∷ printed q)
  b ← (if usable then print_at buflen buffer text else ok buffer)
  serialize_old buflen delimiter (first && not usable) b next

unfoldable pub serialize_new : ℕ → Bytes → Bytes → Trap → Result Bytes
serialize_new buflen delimiter buffer t = do
  contents ← trap_get_contents (some t)
  text ← deref contents
  print_at buflen buffer (delimiter ++ text)

unfoldable pub serialize_body : SerializeMode → ℕ → Bytes → Bytes → Trap → Result Bytes
unfolding serialize_old serialize_new
serialize_body mode_unset buflen delimiter buffer t = ok buffer
serialize_body mode_old buflen delimiter buffer t =
    serialize_old buflen delimiter true buffer t.object
serialize_body mode_new buflen delimiter buffer t = serialize_new buflen delimiter buffer t

unfoldable pub trap_serialize : SerializeMode → Option Trap → Bool → Bytes → Result CString
unfolding objects_size serialize_body
trap_serialize mode none executed delimiter = ok none
trap_serialize mode (some t) executed delimiter = do
  size ← objects_size (length delimiter) t.object
  let buflen = header_size (length delimiter) t + size + 1
  buffer ← print_at buflen [] (header executed delimiter t)
  text ← serialize_body mode buflen delimiter buffer t
  ok (some text)

-- `trap_init`, from the option `trap_serialize_mode`.
unfoldable pub serialize_mode_of : Bytes → SerializeMode
serialize_mode_of option = if equal option (codes "old") then mode_old else mode_new
