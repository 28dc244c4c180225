-- ===== src/Trap/Parse/RoundTrip.antt =====
-- A trap on the wire, parsed: what is accepted, and what becomes of a trap with no primary OID.
use nagios_snmp.Base.{
  ℕ, ◌+◌, ◌≤◌, ◌<◌, Bool, false, ◌||◌, List, [], ◌∷◌, ◌++◌, Option, none, some, Bytes, CString,
  codes, equal, Result, ok, fault, garbage_ptr, overflow, ◌>>=◌, ◌>>◌, if◌then◌else◌, has, length,
  All, All-append_right, ◌≡◌, ◌≢◌, refl, sym, ◌∙◌, arith, append_assoc, map, Option-cases,
  Bool-cases, inl, inr,
}
use nagios_snmp.Util.{xstrdup, quote, remove_quotes, backslash_quote}
use nagios_snmp.Trap.{
  ptr, MibObject, Trap, cmd_trap, cmd_invalid, snmp_trap_oid, snmp_trap_oid_dotted, free_trap,
  primary_oid, oid_is_snmp_trap_oid, quoted, quote_objects, post_parse,
}
use nagios_snmp.Trap.Parse.{Parsed, value_read, token_loop, initial, accept, finish, parse}
use nagios_snmp.Trap.Sender.{extract_ipaddress_lem}
use nagios_snmp.Trap.Parse.Tokens.{IsWord, unwords, tokens-unwords, remove_chars-unwords}
use nagios_snmp.Trap.Parse.Wire.{
  Var, Message, message_tokens, vars_tokens, join, vars_of, value_text, Differs, raw, raw_var,
  within, take_self, set_last-append, last_reading, AreClear, loop_first_object, loop_words,
  loop_vars,
}
use nagios_snmp.Trap.Parse.Address.{
  named, addressed, loop_start, loop_address, loop_address_overflow, join-le,
}

-- The value that names the trap.
unfoldable pub primary_value : List Var → Option Bytes
primary_value [] = none
primary_value (v ∷ vs) =
    if equal v.oid snmp_trap_oid || equal v.oid snmp_trap_oid_dotted
    then some (value_text v)
    else primary_value vs

abbrev pub final_var : Var → MibObject
final_var v = record {
  oid = some v.oid;
  value = some (value_text v);
  quoted_value = ptr (some (quote (backslash_quote (remove_quotes (some (value_text v))))));
}

-- The trap that the program makes of a message.
abbrev pub trap_of : ℕ → ℕ → Bytes → Bytes → Message → Trap
trap_of tv_sec tv_usec ip oid m = record {
  seconds = tv_sec;
  useconds = tv_usec;
  hostname = some m.host;
  ipaddress = some ip;
  oid = some oid;
  object = map final_var (vars_of m);
}

-- The words are words, and the tokenizer is none of those that it would end.
pub record IsSound (tk : Bytes) (m : Message) : Type 0 where
  pub words : All IsWord (message_tokens tk m)
  pub tokenizer_ne : Differs tk (codes "TRAP")
  pub host_ne : Differs tk m.host
  pub address_ne : All (Differs tk) m.address
  pub values_ne : AreClear tk (vars_of m)

xstrdup-some : (s : Bytes) → s ≢ [] → xstrdup (some s) ≡ some s
unfolding xstrdup
xstrdup-some [] h = absurd (h refl)
xstrdup-some (c ∷ s) h = refl

primary_oid-primary_value :
    (vs : List Var)
    → All (λ v. v.oid ≢ []) vs
    → primary_oid (map raw_var vs)
      ≡ elim (primary_value vs) [ none ↦ none | some v ↦ some (some v) ]
unfolding primary_oid primary_value oid_is_snmp_trap_oid
primary_oid-primary_value [] h = refl
primary_oid-primary_value (v ∷ vs) h =
    rw (xstrdup-some v.oid h.0)
      (elim (Bool-cases (equal v.oid snmp_trap_oid || equal v.oid snmp_trap_oid_dotted)) [
        | inl e ↦ rw e
        | inr e ↦ rw e (primary_oid-primary_value vs h.1)
      ])

quote_objects-final :
    (vs : List Var) → All (λ v. v.oid ≢ []) vs → quote_objects (map raw_var vs) ≡ map final_var vs
unfolding quote_objects quoted remove_quotes backslash_quote
quote_objects-final [] h = refl
quote_objects-final (v ∷ vs) h = rw (xstrdup-some v.oid h.0, quote_objects-final vs h.1)

-- What becomes of a trap that has been read to its end, with these objects.
settle : ℕ → ℕ → ℕ → Trap → Result Parsed
settle tv_sec tv_usec n t = elim (post_parse tv_sec tv_usec (some t)) [
  | none ↦ (do
    free_trap (some t)
    ok (record { pdu = some (record { command = cmd_invalid; trap = none }); trap_parsed = n }))
  | some u ↦
      ok (record { pdu = some (record { command = cmd_trap; trap = some u }); trap_parsed = n + 1 })
]

accept-settle :
    (tv_sec tv_usec n k : ℕ) (t : Trap) (ip : Bytes) (os : List MibObject)
    → accept tv_sec tv_usec n (within value_read t ip k os)
      ≡ settle tv_sec tv_usec n (record t { object = os })
unfolding accept settle
accept-settle tv_sec tv_usec n k t ip os =
    elim (Option-cases (post_parse tv_sec tv_usec (some (record t { object = os })))) [
      | inl e ↦ rw (accept, settle, e)
      | inr (u, e) ↦ rw (accept, settle, e)
    ]

settle_named :
    (tv_sec tv_usec n : ℕ) (t : Trap) (w : CString)
    → primary_oid t.object ≡ some w
    → settle tv_sec tv_usec n t
      ≡ ok (record {
        pdu = some (record {
          command = cmd_trap;
          trap = some (record t {
            oid = w;
            seconds = tv_sec;
            useconds = tv_usec;
            object = quote_objects t.object;
          });
        });
        trap_parsed = n + 1;
      })
unfolding settle post_parse
settle_named tv_sec tv_usec n t w e = rw (settle, post_parse, e)

settle_unnamed :
    (tv_sec tv_usec n : ℕ) (t : Trap) (v : Bytes) (o : Bytes) (os : List MibObject)
    → t.object ≡ raw o v ∷ os
    → primary_oid t.object ≡ none
    → settle tv_sec tv_usec n t ≡ fault garbage_ptr
unfolding settle post_parse free_trap
settle_unnamed tv_sec tv_usec n t v o os s e = rw (settle, post_parse, e) (rw s)

module _ (tk : Bytes) (private : Bool) (tv_sec tv_usec n : ℕ) (t : Trap) (ip : Bytes) where
  finish-last_reading :
      (os : List MibObject) (oid v : Bytes) (vs : List Var) (all : List MibObject)
      → all ≡ os ++ raw oid v ∷ map raw_var vs
      → finish tv_sec tv_usec n (last_reading tk private t ip os oid v vs)
        ≡ settle tv_sec tv_usec n (record t { object = all })
  unfolding finish
  finish-last_reading os oid v [] all e =
      rw set_last-append (
        rw (take_self v, e) (accept-settle tv_sec tv_usec n (length v) t ip (os ++ raw oid v ∷ [])))
  finish-last_reading os oid v (x ∷ xs) all e =
      finish-last_reading (os ++ raw oid v ∷ []) x.oid (value_text x) xs all
        (e ∙ sym (append_assoc os (raw oid v ∷ []) (map raw_var (x ∷ xs))))

-- The tokens up to the last one, for a message that fits the array.
token_loop-message :
    (tk : Bytes) (private : Bool) (m : Message)
    → IsSound tk m
    → length (join tk m.address) < 1024
    → token_loop tk private initial (message_tokens tk m)
      ≡ ok (
          last_reading tk private
            (addressed m.host (join tk m.address))
            (join tk m.address)
            []
            m.first_var.oid
            (value_text m.first_var)
            m.other_vars)
token_loop-message tk private m s room =
    let t = addressed m.host (join tk m.address) in
    let ip = join tk m.address in
    let x = m.first_var in
    loop_start tk private m.host _ s.tokenizer_ne s.host_ne (omega (arith, join-le tk m.address))
    ∙ loop_address tk private m.host tk m.address _ s.address_ne room
    ∙ loop_first_object tk private t ip _ [] x.oid x.first _
    ∙ loop_words tk private t ip [] x.oid x.first x.more _ s.values_ne.0
    ∙ loop_vars tk private t ip [] x.oid (value_text x) m.other_vars s.values_ne.1

pub parse-tokens :
    (tk w : Bytes) (ws : List Bytes) (tv_sec tv_usec n : ℕ) (private : Bool)
    → All IsWord (w ∷ ws)
    → parse tk tv_sec tv_usec n (some (unwords (w ∷ ws))) private
      ≡ (token_loop tk private initial (w ∷ ws) >>= λ p. finish tv_sec tv_usec n p)
unfolding parse
parse-tokens tk w ws tv_sec tv_usec n private h =
    rw (parse, remove_chars-unwords w ws h) (rw (tokens-unwords (w ∷ ws) h))

oids-ne-nil :
    (tk : Bytes) (vs : List Var) → All IsWord (vars_tokens tk vs) → All (λ v. v.oid ≢ []) vs
oids-ne-nil tk [] h = tt
oids-ne-nil tk (v ∷ vs) h =
    (h.1.0.0, oids-ne-nil tk vs (All-append_right IsWord v.more (vars_tokens tk vs) h.1.1.1))

module _ (tk : Bytes) (tv_sec tv_usec n : ℕ) (private : Bool) (m : Message)
    (sound : IsSound tk m) where
  parse-settle :
      length (join tk m.address) < 1024
      → parse tk tv_sec tv_usec n (some (unwords (message_tokens tk m))) private
        ≡ settle tv_sec tv_usec n
            (record (addressed m.host (join tk m.address)) { object = map raw_var (vars_of m) })
  parse-settle room =
      let t = addressed m.host (join tk m.address) in
      parse-tokens tk (codes "TRAP") (tk ∷ m.host ∷ tk ∷ (m.address ++ vars_tokens tk (vars_of m)))
        tv_sec tv_usec n private sound.words
      ∙ rw (token_loop-message tk private m sound room) (
          finish-last_reading tk private tv_sec tv_usec n t (join tk m.address) [] m.first_var.oid
            (value_text m.first_var) m.other_vars _ refl)

  known_oids : All (λ v. v.oid ≢ []) (vars_of m)
  known_oids =
      oids-ne-nil tk (vars_of m)
        (All-append_right IsWord m.address (vars_tokens tk (vars_of m)) sound.words.1.1.1.1)

  -- The trap in front of `post_parse`.
  abbrev unsettled : Trap
  unsettled = record (addressed m.host (join tk m.address)) { object = map raw_var (vars_of m) }

  primary_is :
      (o : Option Bytes)
      → primary_value (vars_of m) ≡ o
      → primary_oid (map raw_var (vars_of m)) ≡ elim o [ none ↦ none | some v ↦ some (some v) ]
  primary_is o e = primary_oid-primary_value (vars_of m) known_oids ∙ rw e

  -- A trap on the wire, which holds the tokenizer as a word between its fields only, whose address
  -- text has less than 1,024 bytes and an address in brackets, and one of whose objects names it,
  -- is accepted: its fields are those of the message, each value is kept and quoted, the clock
  -- gives its time, and the counter goes up by one.
  pub parse_accepts :
      (a ip b v : Bytes)
      → length (join tk m.address) < 1024
      → join tk m.address ≡ a ++ b'[' ∷ (ip ++ b']' ∷ b)
      → has b'[' a ≡ false
      → has b']' ip ≡ false
      → primary_value (vars_of m) ≡ some v
      → parse tk tv_sec tv_usec n (some (unwords (message_tokens tk m))) private
        ≡ ok (record {
          pdu = some (record { command = cmd_trap; trap = some (trap_of tv_sec tv_usec ip v m) });
          trap_parsed = n + 1;
        })
  parse_accepts a ip b v room e p q named =
      parse-settle room
      ∙ settle_named tv_sec tv_usec n unsettled (some v) (primary_is (some v) named)
      ∙ rw (xstrdup-some m.host sound.words.1.1.0.0, quote_objects-final (vars_of m) known_oids, e)
          (rw ((extract_ipaddress_lem a ip b p q).0))

  -- A trap on the wire, which holds the tokenizer as a word between its fields only, whose address
  -- text has less than 1,024 bytes, and none of whose objects names it, is not answered: the parser
  -- frees a pointer that nothing has set, so its run is undefined.
  pub parse_without_primary :
      length (join tk m.address) < 1024
      → primary_value (vars_of m) ≡ none
      → parse tk tv_sec tv_usec n (some (unwords (message_tokens tk m))) private ≡ fault garbage_ptr
  parse_without_primary room e =
      parse-settle room
      ∙ settle_unnamed tv_sec tv_usec n unsettled (value_text m.first_var) m.first_var.oid
          (map raw_var m.other_vars) refl (primary_is none e)

  -- A trap on the wire, which holds the tokenizer as a word between its fields only, whose address
  -- text has 1,024 bytes or more overruns the parser's array, for a tokenizer of less than 1,024
  -- bytes.
  pub parse_long_address :
      length tk < 1024
      → 1024 ≤ length (join tk m.address)
      → parse tk tv_sec tv_usec n (some (unwords (message_tokens tk m))) private ≡ fault overflow
  parse_long_address small long =
      parse-tokens tk (codes "TRAP") (tk ∷ m.host ∷ tk ∷ (m.address ++ vars_tokens tk (vars_of m)))
        tv_sec tv_usec n private sound.words
      ∙ rw (
        loop_start tk private m.host (m.address ++ vars_tokens tk (vars_of m)) sound.tokenizer_ne
            sound.host_ne small,
        loop_address_overflow tk private m.host tk m.address _ sound.address_ne long,
      )
