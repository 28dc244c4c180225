-- ===== src/Trap.antt =====
-- src/trap.c: traps, protocol data units and the text made from them. A NULL pointer is `none`; a
-- pointer that nothing has set yet is `garbage`, and to read or free it is a fault.

pub mod Commands
pub mod Parse
pub mod Serialize
pub mod Sender
use nagios_snmp.Base.{
  ℕ, zero, suc, ◌+◌, ◌-◌, ◌%◌, ◌^◌, Bool, true, false, not, ◌||◌, List, [], ◌∷◌, ◌++◌, Option, none,
  some, Bytes, CString, codes, equal, Result, ok, fault, garbage_ptr, ◌>>=◌, ◌>>◌, ◌==◌,
  if◌then◌else◌, length, deref,
}
use nagios_snmp.Util.{is_empty, xstrdup, quote, remove_quotes, backslash_quote}

pub data Slot : Type 0 where
  garbage : Slot
  ptr : CString → Slot

-- `value` holds the bytes that have been copied; the parser writes its NUL when it is complete.
pub record MibObject : Type 0 where
  pub oid : CString
  pub value : CString
  pub quoted_value : Slot

-- `trap->oid` points to the value of an object that is not written again: its text stands here.
pub record Trap : Type 0 where
  pub seconds : ℕ
  pub useconds : ℕ
  pub hostname : CString
  pub ipaddress : CString
  pub oid : CString
  pub object : List MibObject

pub data ProtoCmd : Type 0 where
  cmd_none cmd_trap cmd_alive cmd_diagnostics cmd_invalid : ProtoCmd

pub record Pdu : Type 0 where
  pub command : ProtoCmd
  pub trap : Option Trap

-- Behind the first `[`, if there is one.
unfoldable pub after_bracket : Bytes → CString
after_bracket [] = none
after_bracket (c ∷ s) = if c == b'[' then some s else after_bracket s

-- The second loop: the bytes that it counts. It stops at `]` or at the end; `found` is still 1 then.
unfoldable pub until_bracket : Bytes → Bytes
until_bracket [] = []
until_bracket (c ∷ s) = if c == b']' then [] else c ∷ until_bracket s

unfoldable pub extract_ipaddress : CString → CString
unfolding after_bracket until_bracket is_empty
extract_ipaddress none = none
extract_ipaddress (some s) = elim (after_bracket s) [
  | none ↦ none
  | some start ↦ some (until_bracket start)
]

unfoldable pub alloc_pdu : Pdu
alloc_pdu = record { command = cmd_none; trap = none }

unfoldable pub alloc_trap : Trap
alloc_trap = record {
  seconds = 0;
  useconds = 0;
  hostname = none;
  ipaddress = none;
  oid = none;
  object = [];
}

abbrev pub read_slot : Slot → Result CString
read_slot garbage = fault garbage_ptr
read_slot (ptr s) = ok s

-- `free(object->quoted_value)` for each object; NULL may be freed.
unfoldable pub free_objects : List MibObject → Result (Unit {0})
free_objects [] = ok tt
free_objects (o ∷ next) = do q ← read_slot o.quoted_value; free_objects next

unfoldable pub free_trap : Option Trap → Result (Unit {0})
unfolding free_objects
free_trap none = ok tt
free_trap (some t) = free_objects t.object

unfoldable pub trap_free_pdu : Option Pdu → Result (Unit {0})
unfolding free_trap
trap_free_pdu none = ok tt
trap_free_pdu (some p) = free_trap p.trap

abbrev pub snmp_trap_oid : Bytes
snmp_trap_oid = codes "SNMPv2-MIB::snmpTrapOID.0"

abbrev pub snmp_trap_oid_dotted : Bytes
snmp_trap_oid_dotted = codes ".1.3.6.1.6.3.1.1.4.1.0"

unfoldable pub oid_is_snmp_trap_oid : CString → Bool
oid_is_snmp_trap_oid none = false
oid_is_snmp_trap_oid (some s) = equal s snmp_trap_oid || equal s snmp_trap_oid_dotted

-- The search for the primary OID; `none` is `return_true` left at 0.
unfoldable pub primary_oid : List MibObject → Option CString
primary_oid [] = none
primary_oid (o ∷ next) = if oid_is_snmp_trap_oid o.oid then some o.value else primary_oid next

-- The three steps of quoting. A NULL from the second would leave the pointer unset.
unfoldable pub quoted : Slot → CString → Slot
quoted old value = elim (remove_quotes value) [
  | none ↦ ptr none
  | some value_1 ↦ elim (backslash_quote (some value_1)) [
    | none ↦ old
    | some value_2 ↦ ptr (some (quote (some value_2)))
  ]
]

unfoldable pub quote_objects : List MibObject → List MibObject
unfolding quoted
quote_objects [] = []
quote_objects (o ∷ next) =
    record o { quoted_value = quoted o.quoted_value o.value } ∷ quote_objects next

-- `none` is the result 0. The clock's two numbers are the first arguments.
unfoldable pub post_parse : ℕ → ℕ → Option Trap → Option Trap
unfolding primary_oid quote_objects
post_parse tv_sec tv_usec none = none
post_parse tv_sec tv_usec (some t) = elim (primary_oid t.object) [
  | none ↦ none
  | some value ↦ some (record t {
    oid = value;
    seconds = tv_sec;
    useconds = tv_usec;
    object = quote_objects t.object;
  })
]

unfoldable pub trap_get_hostname : Option Trap → CString
trap_get_hostname none = none
trap_get_hostname (some t) = t.hostname

unfoldable pub trap_get_sender_address : Option Trap → CString
trap_get_sender_address none = none
trap_get_sender_address (some t) = t.ipaddress

unfoldable pub trap_get_oid : Option Trap → CString
trap_get_oid none = none
trap_get_oid (some t) = t.oid

-- The cast to `unsigned int`.
unfoldable pub trap_get_timestamp : Option Trap → ℕ
trap_get_timestamp none = 0
trap_get_timestamp (some t) = t.seconds % 2 ^ 32

-- One round of `trap_get_contents`: `oid=quoted`, behind a blank unless it is the first.
abbrev pub add_object : CString → Bytes → Bytes → Bytes
add_object none oid q = oid ++ b'=' ∷ q
add_object (some buffer) oid q = buffer ++ b' ' ∷ (oid ++ b'=' ∷ q)

unfoldable pub contents_from : CString → List MibObject → Result CString
contents_from buffer [] = ok buffer
contents_from buffer (o ∷ next) = do
  oid ← deref o.oid
  slot ← read_slot o.quoted_value
  q ← deref slot
  contents_from (some (add_object buffer oid q)) next

unfoldable pub trap_get_contents : Option Trap → Result CString
unfolding contents_from
trap_get_contents none = ok none
trap_get_contents (some t) = contents_from none t.object

-- `diagnostics_prepare_write()` is the first argument.
unfoldable pub trap_pdu_get_response : CString → Option Pdu → CString
trap_pdu_get_response diagnostics none = none
trap_pdu_get_response diagnostics (some p) = elim p.command [
  | cmd_none ↦ none
  | cmd_trap ↦ some (codes "ACCEPTED")
  | cmd_alive ↦ some (codes "YES")
  | cmd_diagnostics ↦ diagnostics
  | cmd_invalid ↦ some (codes "INVALID")
]

unfoldable pub trap_is_trap : Option Pdu → Option Trap
trap_is_trap none = none
trap_is_trap (some p) = elim p.command [ cmd_trap ↦ p.trap | _ ↦ none ]
