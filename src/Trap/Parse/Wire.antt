-- ===== src/Trap/Parse/Wire.antt =====
-- The text of a trap on the wire, and what the parser makes of each part of it.
use nagios_snmp.Base.{
  ℕ, ◌+◌, Bool, true, false, ◌&&◌, List, [], ◌∷◌, ◌++◌, none, some, Bytes, codes, equal, equal_refl,
  ok, length, take, take_all, length-append, All, ◌≡◌, refl, ◌∙◌, arith,
}
use nagios_snmp.Util.{xstrdup}
use nagios_snmp.Trap.{garbage, MibObject, Trap, cmd_trap}
use nagios_snmp.Trap.Parse.{
  ParseStatus, ipaddress_read, reading_value, value_read, Parser, set_last, on_token, token_loop,
}

-- An object: its OID, and the words of its value.
pub record Var : Type 0 where
  pub oid : Bytes
  pub first : Bytes
  pub more : List Bytes

pub record Message : Type 0 where
  pub host : Bytes
  pub address : List Bytes
  pub first_var : Var
  pub other_vars : List Var

abbrev pub vars_of : Message → List Var
vars_of m = m.first_var ∷ m.other_vars

-- Words behind a first one, each behind a blank.
abbrev pub join : Bytes → List Bytes → Bytes
join w [] = w
join w (v ∷ vs) = join (w ++ b' ' ∷ v) vs

abbrev pub value_text : Var → Bytes
value_text v = join v.first v.more

-- The tokens: each object stands behind a tokenizer.
abbrev pub vars_tokens : Bytes → List Var → List Bytes
vars_tokens tk [] = []
vars_tokens tk (v ∷ vs) = tk ∷ v.oid ∷ v.first ∷ (v.more ++ vars_tokens tk vs)

abbrev pub message_tokens : Bytes → Message → List Bytes
message_tokens tk m = codes "TRAP" ∷ tk ∷ m.host ∷ tk ∷ (m.address ++ vars_tokens tk (vars_of m))

abbrev pub Differs : Bytes → Bytes → Type 0
Differs tk w = equal w tk ≡ false

-- The tokenizer is not among the words that it would end.
pub set_last-append :
    (f : MibObject → MibObject) (os : List MibObject) (o : MibObject)
    → set_last f (os ++ o ∷ []) ≡ ok (os ++ f o ∷ [])
set_last-append f [] o = refl
set_last-append f (a ∷ []) o = refl
set_last-append f (a ∷ b ∷ os) o = rw (set_last-append f (b ∷ os) o)

abbrev pub raw : Bytes → Bytes → MibObject
raw oid v = record { oid = xstrdup (some oid); value = some v; quoted_value = garbage }

-- The parser in the middle of a trap, with these objects.
abbrev pub within : ParseStatus → Trap → Bytes → ℕ → List MibObject → Parser
within status t ip n os = record {
  status = status;
  proto_cmd = cmd_trap;
  tokenizer_found = false;
  pdu = some (record { command = cmd_trap; trap = none });
  trap = some (record t { object = os });
  ipbuf = ip;
  tokenlen = n;
}

abbrev pub reading : Trap → Bytes → List MibObject → Bytes → Bytes → Parser
reading t ip os oid v = within reading_value t ip (length v) (os ++ raw oid v ∷ [])

abbrev pub raw_var : Var → MibObject
raw_var v = raw v.oid (value_text v)

pub length-extended : (v w : Bytes) → length (v ++ b' ' ∷ w) ≡ length v + (length w + 1)
length-extended v w = omega (arith, length-append v (b' ' ∷ w))

pub take_self : (v : Bytes) → take (length v) v ≡ v
take_self v = take_all (length v) v (omega arith)

pub and_false : (b : Bool) → (b && false) ≡ false
and_false true = refl
and_false false = refl

abbrev pub AreClear : Bytes → List Var → Type 0
AreClear tk vs = All (λ v. All (Differs tk) v.more) vs

module _ (tk : Bytes) (private : Bool) (t : Trap) (ip : Bytes) where
  loop_word :
      (os : List MibObject) (oid v w : Bytes) (rest : List Bytes)
      → Differs tk w
      → token_loop tk private (reading t ip os oid v) (w ∷ rest)
        ≡ token_loop tk private (reading t ip os oid (v ++ b' ' ∷ w)) rest
  unfolding token_loop on_token
  loop_word os oid v w rest d = rw d (rw set_last-append (rw (take_self v, length-extended v w)))

  pub loop_words :
      (os : List MibObject) (oid v : Bytes) (ws rest : List Bytes)
      → All (Differs tk) ws
      → token_loop tk private (reading t ip os oid v) (ws ++ rest)
        ≡ token_loop tk private (reading t ip os oid (join v ws)) rest
  loop_words os oid v [] rest h = refl
  loop_words os oid v (w ∷ ws) rest h =
      loop_word os oid v w (ws ++ rest) h.0 ∙ loop_words os oid (v ++ b' ' ∷ w) ws rest h.1

  -- The tokenizer ends a value.
  pub loop_end :
      (os : List MibObject) (oid v : Bytes) (rest : List Bytes)
      → token_loop tk private (reading t ip os oid v) (tk ∷ rest)
        ≡ token_loop tk private (within value_read t ip (length v) (os ++ raw oid v ∷ [])) rest
  unfolding token_loop on_token
  loop_end os oid v rest = rw (equal_refl tk) (rw set_last-append (rw (take_self v)))

  -- An OID and the first word of its value, behind the address and behind another value.
  pub loop_first_object :
      (n : ℕ) (os : List MibObject) (oid v : Bytes) (rest : List Bytes)
      → token_loop tk private (within ipaddress_read t ip n os) (oid ∷ v ∷ rest)
        ≡ token_loop tk private (reading t ip os oid v) rest
  unfolding token_loop on_token
  loop_first_object n os oid v rest = rw (and_false, and_false) (rw set_last-append)

  loop_next_object :
      (n : ℕ) (os : List MibObject) (oid v : Bytes) (rest : List Bytes)
      → token_loop tk private (within value_read t ip n os) (oid ∷ v ∷ rest)
        ≡ token_loop tk private (reading t ip os oid v) rest
  unfolding token_loop on_token
  loop_next_object n os oid v rest = rw (and_false, and_false) (rw set_last-append)

  -- The state behind the last of the objects.
  abbrev pub last_reading : List MibObject → Bytes → Bytes → List Var → Parser
  last_reading os oid v [] = reading t ip os oid v
  last_reading os oid v (x ∷ xs) = last_reading (os ++ raw oid v ∷ []) x.oid (value_text x) xs

  pub loop_vars :
      (os : List MibObject) (oid v : Bytes) (vs : List Var)
      → AreClear tk vs
      → token_loop tk private (reading t ip os oid v) (vars_tokens tk vs)
        ≡ ok (last_reading os oid v vs)
  loop_vars os oid v [] h = unfold token_loop in refl
  loop_vars os oid v (x ∷ xs) h =
      loop_end os oid v _
      ∙ loop_next_object (length v) (os ++ raw oid v ∷ []) x.oid x.first _
      ∙ loop_words (os ++ raw oid v ∷ []) x.oid x.first x.more _ h.0
      ∙ loop_vars (os ++ raw oid v ∷ []) x.oid (value_text x) xs h.1
