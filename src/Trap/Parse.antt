-- ===== src/Trap/Parse.antt =====
-- src/trap.c, `parse`: the protocol's parser, a state machine over the tokens that `strtok_r`
-- returns. The tokenizer string is an argument, and so is the time of `gettimeofday`.
pub mod Tokens
pub mod RoundTrip
pub mod Wire
pub mod Address
use nagios_snmp.Base.{
  ℕ, zero, suc, ◌+◌, Bool, true, false, not, ◌&&◌, ◌||◌, List, [], ◌∷◌, ◌++◌, Option, none, some,
  Bytes, CString, codes, equal, tokens, Result, ok, fault, null_deref, overflow, ◌>>=◌, ◌>>◌, leb,
  ◌==◌, if◌then◌else◌, length, take, deref,
}
use nagios_snmp.Util.{remove_chars, xstrdup}
use nagios_snmp.Trap.{
  garbage, MibObject, Trap, ProtoCmd, cmd_none, cmd_trap, cmd_alive, cmd_diagnostics, cmd_invalid,
  Pdu, extract_ipaddress, alloc_pdu, alloc_trap, free_trap, post_parse,
}

pub data ParseStatus : Type 0 where
  started command_read hostname_read reading_ipaddress : ParseStatus
  ipaddress_read oid_read reading_value value_read : ParseStatus

-- The locals of `parse`; `object` is the last of the trap's objects. `ipbuf` is an array of
-- TMPBUFLEN bytes, of which the first `tokenlen` are kept.
pub record Parser : Type 0 where
  pub status : ParseStatus
  pub proto_cmd : ProtoCmd
  pub tokenizer_found : Bool
  pub pdu : Option Pdu
  pub trap : Option Trap
  pub ipbuf : Bytes
  pub tokenlen : ℕ

abbrev pub tmpbuflen : ℕ
tmpbuflen = 1024

abbrev pub check_bound : ℕ → ℕ → Result (Unit {0})
check_bound end size = if leb end size then ok tt else fault overflow

abbrev pub deref_trap : Option Trap → Result Trap
deref_trap none = fault null_deref
deref_trap (some t) = ok t

abbrev pub set_last : (MibObject → MibObject) → List MibObject → Result (List MibObject)
set_last f [] = fault null_deref
set_last f (o ∷ []) = ok (f o ∷ [])
set_last f (o ∷ o' ∷ next) = set_last f (o' ∷ next) >>= λ rest. ok (o ∷ rest)

-- Writes through `object`.
abbrev pub update_object : (MibObject → MibObject) → Parser → Result Parser
update_object f p = do
  t ← deref_trap p.trap
  objects ← set_last f t.object
  ok (record p { trap = some (record t { object = objects }) })

-- The command of the first token.
unfoldable pub command_of : Bool → Bytes → ProtoCmd
command_of is_private token =
    if equal token (codes "TRAP")
    then cmd_trap
    else if equal token (codes "ALIVE?")
    then cmd_alive
    else if equal token (codes "DIAGNOSTICS")
    then (if is_private then cmd_diagnostics else cmd_invalid)
    else cmd_invalid

abbrev new_object : Bytes → MibObject
new_object token = record { oid = xstrdup (some token); value = none; quoted_value = garbage }

-- `case S_IPADDRESS_READ` and `case S_VALUE_READ`
unfoldable pub begin_object : Parser → Bytes → Result Parser
unfolding xstrdup
begin_object p token = do
  t ← deref_trap p.trap
  ok (record p {
    trap = some (record t { object = t.object ++ new_object token ∷ [] });
    status = oid_read;
  })

-- More of the value: the token at index `tokenlen + 1`, behind a blank.
abbrev extend_value : ℕ → Bytes → MibObject → MibObject
extend_value n token o = record o {
  value = elim o.value [ none ↦ none | some v ↦ some (take n v ++ b' ' ∷ token) ];
}

abbrev end_value : ℕ → MibObject → MibObject
end_value n o = record o { value = elim o.value [ none ↦ none | some v ↦ some (take n v) ] }

-- The switch.
unfoldable pub switch : Bool → ParseStatus → Parser → Bytes → Result Parser
unfolding command_of begin_object xstrdup alloc_pdu alloc_trap
switch is_private started p token =
    let cmd = command_of is_private token in
    ok (record p {
      proto_cmd = cmd;
      pdu = some (record alloc_pdu { command = cmd });
      status = command_read;
    })
switch is_private command_read p token = ok (record p {
  trap = some (record alloc_trap { hostname = xstrdup (some token) });
  status = hostname_read;
})
switch is_private hostname_read p token = do
  check_bound (length token + 1) tmpbuflen
  ok (record p { tokenlen = length token; ipbuf = token; status = reading_ipaddress })
switch is_private reading_ipaddress p token =
    if not p.tokenizer_found
    then (do
      check_bound (p.tokenlen + 1 + length token) tmpbuflen
      ok (record p {
        ipbuf = take p.tokenlen p.ipbuf ++ b' ' ∷ token;
        tokenlen = p.tokenlen + (length token + 1);
      }))
    else (do
      check_bound (p.tokenlen + 1) tmpbuflen
      t ← deref_trap p.trap
      ok (record p {
        trap = some (record t { ipaddress = extract_ipaddress (some (take p.tokenlen p.ipbuf)) });
        status = ipaddress_read;
      }))
switch is_private ipaddress_read p token = begin_object p token
switch is_private value_read p token = begin_object p token
switch is_private oid_read p token = do
  q ← update_object (λ o. record o { value = some token }) p
  ok (record q { tokenlen = length token; status = reading_value })
switch is_private reading_value p token =
    if not p.tokenizer_found
    then (do
      q ← update_object (extend_value p.tokenlen token) p
      ok (record q { tokenlen = p.tokenlen + (length token + 1) }))
    else (do q ← update_object (end_value p.tokenlen) p; ok (record q { status = value_read }))

-- `status == S_STARTED || status == S_COMMAND_READ`
abbrev pub skips_tokenizer : ParseStatus → Bool
skips_tokenizer started = true
skips_tokenizer command_read = true
skips_tokenizer _ = false

-- A round of the loop behind its two breaks.
unfoldable pub on_token : Bytes → Bool → Parser → Bytes → Result Parser
unfolding switch
on_token tokenizer is_private p token =
    let found = equal token tokenizer || p.tokenizer_found in
    if found && skips_tokenizer p.status then ok (record p { tokenizer_found = false }) else (do
      q ← switch is_private p.status (record p { tokenizer_found = found }) token
      ok (record q { tokenizer_found = false }))

-- `proto_cmd != PROTO_CMD_NONE && proto_cmd != PROTO_CMD_TRAP`
abbrev pub is_simple : ProtoCmd → Bool
is_simple cmd_none = false
is_simple cmd_trap = false
is_simple _ = true

unfoldable pub token_loop : Bytes → Bool → Parser → List Bytes → Result Parser
unfolding on_token
token_loop tokenizer is_private p [] = ok p
token_loop tokenizer is_private p (token ∷ rest) =
    if is_simple p.proto_cmd
    then ok p
    else (do q ← on_token tokenizer is_private p token; token_loop tokenizer is_private q rest)

-- What `parse` returns, and the counter `trap_parsed` behind it.
pub record Parsed : Type 0 where
  pub pdu : Option Pdu
  pub trap_parsed : ℕ

abbrev pub set_command : ProtoCmd → Option Pdu → Result (Option Pdu)
set_command cmd none = fault null_deref
set_command cmd (some p) = ok (some (record p { command = cmd }))

abbrev pub attach : Trap → Option Pdu → Result (Option Pdu)
attach t none = fault null_deref
attach t (some p) = ok (some (record p { trap = some t }))

-- A malformed or unusable trap.
unfoldable pub reject : ℕ → Parser → Result Parsed
unfolding free_trap
reject parsed p = do
  free_trap p.trap
  pdu ← set_command cmd_invalid p.pdu
  ok (record { pdu = pdu; trap_parsed = parsed })

unfoldable pub accept : ℕ → ℕ → ℕ → Parser → Result Parsed
unfolding reject
accept tv_sec tv_usec parsed p = elim (post_parse tv_sec tv_usec p.trap) [
  | none ↦ reject parsed p
  | some t ↦ attach t p.pdu >>= λ pdu. ok (record { pdu = pdu; trap_parsed = parsed + 1 })
]

-- Behind the loop, by the status that it ended in.
unfoldable pub finish_trap : ℕ → ℕ → ℕ → ParseStatus → Parser → Result Parsed
unfolding accept reject
finish_trap tv_sec tv_usec parsed reading_value p = do
  q ← update_object (end_value p.tokenlen) p
  accept tv_sec tv_usec parsed (record q { status = value_read })
finish_trap tv_sec tv_usec parsed ipaddress_read p = accept tv_sec tv_usec parsed p
finish_trap tv_sec tv_usec parsed value_read p = accept tv_sec tv_usec parsed p
finish_trap tv_sec tv_usec parsed _ p = reject parsed p

unfoldable pub finish : ℕ → ℕ → ℕ → Parser → Result Parsed
unfolding finish_trap
finish tv_sec tv_usec parsed p = elim p.proto_cmd [
  | cmd_trap ↦ finish_trap tv_sec tv_usec parsed p.status p
  | _ ↦ ok (record { pdu = p.pdu; trap_parsed = parsed })
]

abbrev pub initial : Parser
initial = record {
  status = started;
  proto_cmd = cmd_none;
  tokenizer_found = false;
  pdu = none;
  trap = none;
  ipbuf = [];
  tokenlen = 0;
}

-- The tokenizer, the time, the counter, the text and the socket that it came from.
unfoldable pub parse : Bytes → ℕ → ℕ → ℕ → CString → Bool → Result Parsed
unfolding token_loop finish tokens alloc_pdu
parse tokenizer tv_sec tv_usec parsed buffer is_private =
    elim (remove_chars buffer (b'\n' ∷ b'\r' ∷ [])) [
      | none ↦
          ok (record {
            pdu = some (record alloc_pdu { command = cmd_invalid });
            trap_parsed = parsed;
          })
      | some line ↦ do
        p ← token_loop tokenizer is_private initial (tokens b' ' line)
        finish tv_sec tv_usec parsed p
    ]
