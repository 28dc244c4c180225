-- ===== src/Trap/Commands.antt =====
-- The commands of one word, and what a response says.
use nagios_snmp.Base.{
  ℕ, Bool, true, false, List, [], ◌∷◌, none, some, Bytes, codes, equal, ok, All, ◌≡◌, ◌≢◌, ◌↔◌, ◌⊎◌,
  equal_iff, refl, arith, ◌∙◌,
}
use nagios_snmp.Trap.{ProtoCmd, cmd_none, cmd_trap, cmd_alive, cmd_diagnostics, cmd_invalid}
use nagios_snmp.Trap.Parse.{
  Parser, command_read, parse, token_loop, on_token, initial, finish, is_simple, command_of,
}
use nagios_snmp.Trap.Parse.Tokens.{IsWord, unwords}
use nagios_snmp.Trap.Parse.Wire.{Differs}
use nagios_snmp.Trap.Parse.RoundTrip.{parse-tokens}

-- The parser behind a first word that is no tokenizer.
abbrev behind : Bool → Bytes → Parser
behind private w = record initial {
  status = command_read;
  proto_cmd = command_of private w;
  pdu = some (record { command = command_of private w; trap = none });
}

on_first :
    (tk w : Bytes) (private : Bool)
    → Differs tk w
    → on_token tk private initial w ≡ ok (behind private w)
unfolding on_token
on_first tk w private d = rw (on_token, d)

is_simple-command_of :
    (private : Bool) (w : Bytes)
    → equal w (codes "TRAP") ≡ false
    → is_simple (command_of private w) ≡ true
unfolding command_of
is_simple-command_of private w e = ground arith

first_word :
    (tk w : Bytes) (ws : List Bytes) (private : Bool)
    → Differs tk w
    → equal w (codes "TRAP") ≡ false
    → token_loop tk private initial (w ∷ ws) ≡ ok (behind private w)
unfolding token_loop
first_word tk w [] private d e = rw (on_first tk w private d)
first_word tk w (v ∷ ws) private d e =
    rw (on_first tk w private d) (rw (is_simple-command_of private w e))

finish_simple :
    (tv_sec tv_usec n : ℕ) (p : Parser) (cmd : ProtoCmd)
    → p.proto_cmd ≡ cmd
    → is_simple cmd ≡ true
    → finish tv_sec tv_usec n p ≡ ok (record { pdu = p.pdu; trap_parsed = n })
unfolding finish
finish_simple tv_sec tv_usec n p cmd_none e s = cc
finish_simple tv_sec tv_usec n p cmd_trap e s = cc
finish_simple tv_sec tv_usec n p cmd_alive e s = rw (finish, e)
finish_simple tv_sec tv_usec n p cmd_diagnostics e s = rw (finish, e)
finish_simple tv_sec tv_usec n p cmd_invalid e s = rw (finish, e)

command_of_lem :
    (private : Bool) (w : Bytes)
    → equal w (codes "TRAP") ≡ false
    → ((command_of private w ≡ cmd_alive) ↔ (w ≡ codes "ALIVE?"))
      × ((command_of private w ≡ cmd_diagnostics) ↔ ((w ≡ codes "DIAGNOSTICS") × (private ≡ true)))
      × ((command_of private w ≡ cmd_alive)
          ⊎ ((command_of private w ≡ cmd_diagnostics) ⊎ (command_of private w ≡ cmd_invalid)))
unfolding command_of
command_of_lem private w e =
    ground (arith, equal_iff w (codes "ALIVE?"), equal_iff w (codes "DIAGNOSTICS"))

not_trap : (w : Bytes) → w ≢ codes "TRAP" → equal w (codes "TRAP") ≡ false
not_trap w h = ground (arith, equal_iff w (codes "TRAP"))

-- A request whose first word is neither the tokenizer nor TRAP gets the command of that word, no
-- trap and no count, whatever words follow; diagnostics are for the private socket only, and any
-- other word is invalid.
pub parse_first_word :
    (tk w : Bytes) (ws : List Bytes) (tv_sec tv_usec n : ℕ) (private : Bool)
    → All IsWord (w ∷ ws)
    → Differs tk w
    → w ≢ codes "TRAP"
    → (cmd : ProtoCmd) × (parse tk tv_sec tv_usec n (some (unwords (w ∷ ws))) private
        ≡ ok (record { pdu = some (record { command = cmd; trap = none }); trap_parsed = n }))
      × ((cmd ≡ cmd_alive) ↔ (w ≡ codes "ALIVE?"))
      × ((cmd ≡ cmd_diagnostics) ↔ ((w ≡ codes "DIAGNOSTICS") × (private ≡ true)))
      × ((cmd ≡ cmd_alive) ⊎ ((cmd ≡ cmd_diagnostics) ⊎ (cmd ≡ cmd_invalid)))
parse_first_word tk w ws tv_sec tv_usec n private h d ne =
    let e = not_trap w ne in
    let known = command_of_lem private w e in
    let simple = is_simple-command_of private w e in
    (
      command_of private w,
      parse-tokens tk w ws tv_sec tv_usec n private h
          ∙ rw (first_word tk w ws private d e)
              (finish_simple tv_sec tv_usec n (behind private w) _ refl simple),
      known.0,
      known.1,
      known.2,
    )
