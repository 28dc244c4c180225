-- ===== src/Tests/Lines.antt =====
-- The lines of a connection at concrete inputs.
use nagios_snmp.Base.{
  false, [], ◌∷◌, ◌++◌, map, none, some, Bytes, codes, ok, fault, overflow, All-replicate,
  replicate, ◌≡◌, refl, arith,
}
use nagios_snmp.Socket.{bytes, failed, socket_read_pdu}
use nagios_snmp.Socket.Framing.{
  IsPlain, stops, joined, socket_read_pdu-joined, socket_read_pdu_full,
}

read_fails : socket_read_pdu (bytes (codes "ALI") ∷ failed ∷ []) ≡ ok none
unfolding socket_read_pdu
read_fails = refl

socket_read_pdu-joined_example :
    socket_read_pdu
      (map bytes (codes "ALI" ∷ []) ++ bytes (codes "VE?" ++ b'\n' ∷ codes "more") ∷ [])
    ≡ ok (some (joined (codes "ALI" ∷ []) ++ codes "VE?"))
unfolding joined
socket_read_pdu-joined_example =
    socket_read_pdu-joined (codes "ALI" ∷ []) (codes "VE?") b'\n' (codes "more") [] (ground arith)
      (ground arith) refl (omega arith)

abbrev half : Bytes
half = replicate 512 b'x'

half-IsPlain : IsPlain half
half-IsPlain = All-replicate (λ c. stops c ≡ false) 512 b'x' refl

socket_read_pdu_full_example : socket_read_pdu (bytes half ∷ bytes half ∷ []) ≡ fault overflow
socket_read_pdu_full_example =
    socket_read_pdu_full half half half-IsPlain half-IsPlain (λ e. cc) (λ e. cc) refl
