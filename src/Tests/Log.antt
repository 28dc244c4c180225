-- ===== src/Tests/Log.antt =====
-- The trap log and the requests of one word at concrete texts.
use nagios_snmp.Base.{
  true, [], ◌∷◌, ◌++◌, none, some, Bytes, codes, ok, fault, overflow, ◌≡◌, ◌↔◌, ◌⊎◌, refl, arith,
  map,
}
use nagios_snmp.Trap.{ProtoCmd, cmd_alive, cmd_diagnostics, cmd_invalid, trap_get_contents}
use nagios_snmp.Trap.Parse.{parse}
use nagios_snmp.Trap.Parse.Tokens.{unwords}
use nagios_snmp.Trap.Parse.Wire.{vars_of}
use nagios_snmp.Trap.Parse.RoundTrip.{trap_of}
use nagios_snmp.Trap.Commands.{parse_first_word}
use nagios_snmp.Trap.Serialize.{mode_new, mode_old, header, trap_serialize}
use nagios_snmp.Trap.Serialize.Contents.{assignment, trap_get_contents-unwords}
use nagios_snmp.Trap.Serialize.Bounds.{old_pair, old_rest, trap_serialize_fits}
use nagios_snmp.Trap.Serialize.NoAddress.{trap_serialize_no_address}
use nagios_snmp.Tests.Traps.{message}

abbrev ip : Bytes
ip = codes "10.0.0.7"

abbrev nine : Bytes
nine = codes ".9"

trap_get_contents-unwords_example :
    trap_get_contents (some (trap_of 100 5 ip nine message))
    ≡ ok (some (unwords (map assignment (vars_of message))))
trap_get_contents-unwords_example = trap_get_contents-unwords 100 5 ip nine message

trap_serialize_fits_example :
    (trap_serialize mode_new (some (trap_of 100 5 ip nine message)) true (codes "; ")
      ≡ ok (
          some (
            header true (codes "; ") (trap_of 100 5 ip nine message)
            ++ (codes "; " ++ unwords (map assignment (vars_of message))))))
    × (trap_serialize mode_old (some (trap_of 100 5 ip nine message)) true (codes "; ")
        ≡ ok (
            some (
              header true (codes "; ") (trap_of 100 5 ip nine message)
              ++ (codes "; " ++ old_pair message.first_var)
              ++ old_rest message.other_vars)))
trap_serialize_fits_example =
    trap_serialize_fits 100 5 ip nine (codes "; ") message true ((λ e. cc), ((λ e. cc), tt))

trap_serialize_no_address_example :
    trap_serialize mode_new
      (some (record (trap_of 100 5 ip nine message) { ipaddress = none }))
      true
      (codes ";")
    ≡ fault overflow
trap_serialize_no_address_example =
    trap_serialize_no_address 100 5 ip nine (codes ";") message true (omega arith)

parse_first_word_example :
    (cmd : ProtoCmd) × (parse
        (codes "::")
        100
        5
        3
        (some (unwords (codes "DIAGNOSTICS" ∷ codes "now" ∷ [])))
        true
      ≡ ok (record { pdu = some (record { command = cmd; trap = none }); trap_parsed = 3 }))
    × ((cmd ≡ cmd_alive) ↔ (codes "DIAGNOSTICS" ≡ codes "ALIVE?"))
    × ((cmd ≡ cmd_diagnostics) ↔ ((codes "DIAGNOSTICS" ≡ codes "DIAGNOSTICS") × (true ≡ true)))
    × ((cmd ≡ cmd_alive) ⊎ ((cmd ≡ cmd_diagnostics) ⊎ (cmd ≡ cmd_invalid)))
parse_first_word_example =
    parse_first_word (codes "::") (codes "DIAGNOSTICS") (codes "now" ∷ []) 100 5 3 true
      (ground arith) refl (λ e. cc)
