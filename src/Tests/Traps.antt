-- ===== src/Tests/Traps.antt =====
-- The parser at concrete texts.
use nagios_snmp.Base.{
  false, List, [], ◌∷◌, none, some, Bytes, codes, ok, fault, garbage_ptr, overflow, has, ◌≡◌, refl,
  arith, All-replicate, replicate,
}
use nagios_snmp.Trap.{cmd_trap, cmd_alive}
use nagios_snmp.Trap.Parse.{parse}
use nagios_snmp.Trap.Parse.Tokens.{IsWord, unwords, line_ends}
use nagios_snmp.Trap.Parse.Wire.{Var, Message, message_tokens}
use nagios_snmp.Trap.Parse.RoundTrip.{
  IsSound, primary_value, trap_of, parse_accepts, parse_without_primary, parse_long_address,
}

abbrev bar : Bytes
bar = codes "::"

abbrev named_var : Var
named_var = record { oid = codes ".1.3.6.1.6.3.1.1.4.1.0"; first = codes ".9"; more = [] }

abbrev text_var : Var
text_var = record { oid = codes ".2"; first = codes "\"host"; more = codes "down\"" ∷ [] }

abbrev address_words : List Bytes
address_words = codes "UDP:" ∷ codes "[10.0.0.7]:47" ∷ []

abbrev pub message : Message
message = record {
  host = codes "h";
  address = address_words;
  first_var = text_var;
  other_vars = named_var ∷ [];
}

abbrev unnamed : Message
unnamed = record {
  host = codes "h";
  address = address_words;
  first_var = text_var;
  other_vars = [];
}

parse_runs :
    parse bar 100 5 0 (some (codes "ALIVE?\r\n")) false
    ≡ ok (record { pdu = some (record { command = cmd_alive; trap = none }); trap_parsed = 0 })
unfolding parse nagios_snmp.Util.remove_chars
parse_runs = refl

message-IsSound : IsSound bar message
message-IsSound = record {
  words = ground arith;
  tokenizer_ne = refl;
  host_ne = refl;
  address_ne = ground arith;
  values_ne = ground arith;
}

unnamed-IsSound : IsSound bar unnamed
unnamed-IsSound = record {
  words = ground arith;
  tokenizer_ne = refl;
  host_ne = refl;
  address_ne = ground arith;
  values_ne = ground arith;
}

abbrev long_word : Bytes
long_word = replicate 1100 b'x'

abbrev long_message : Message
long_message = record {
  host = codes "h";
  address = long_word ∷ [];
  first_var = named_var;
  other_vars = [];
}

long_word-IsWord : IsWord long_word
long_word-IsWord = ((λ e. cc), All-replicate (λ c. has c (b' ' ∷ line_ends) ≡ false) 1100 b'x' refl)

long_message-IsSound : IsSound bar long_message
long_message-IsSound = record {
  words = (
    ground arith,
    (ground arith, (ground arith, (ground arith, (long_word-IsWord, ground arith)))),
  );
  tokenizer_ne = refl;
  host_ne = refl;
  address_ne = (refl, tt);
  values_ne = (tt, tt);
}

parse_accepts_example :
    parse bar 100 5 3 (some (unwords (message_tokens bar message))) false
    ≡ ok (record {
      pdu = some (record {
        command = cmd_trap;
        trap = some (trap_of 100 5 (codes "10.0.0.7") (codes ".9") message);
      });
      trap_parsed = 4;
    })
unfolding primary_value
parse_accepts_example =
    parse_accepts bar 100 5 3 false message message-IsSound (codes ":: UDP: ") (codes "10.0.0.7")
      (codes ":47") (codes ".9") (omega arith) refl refl refl refl

parse_without_primary_example :
    parse bar 100 5 3 (some (unwords (message_tokens bar unnamed))) false ≡ fault garbage_ptr
unfolding primary_value
parse_without_primary_example =
    parse_without_primary bar 100 5 3 false unnamed unnamed-IsSound (omega arith) refl

parse_long_address_example :
    parse bar 100 5 3 (some (unwords (message_tokens bar long_message))) false ≡ fault overflow
parse_long_address_example =
    parse_long_address bar 100 5 3 false long_message long_message-IsSound (omega arith)
      (omega arith)
