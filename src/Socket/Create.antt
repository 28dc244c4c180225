-- ===== src/Socket/Create.antt =====
-- src/socket.c, `socket_create` and `socket_create_unix`. What the calls of the system answer is an
-- argument.
use nagios_snmp.Base.{
  ℕ, ◌-◌, ◌%◌, ◌^◌, Bool, not, Bytes, Result, ok, fault, critical, overflow, leb, if◌then◌else◌,
  length,
}
use nagios_snmp.Base.Int.{ℤ, pos, negsuc}

-- `htons(port_number)` keeps 16 bits.
abbrev pub port_of : ℤ → ℕ
port_of (pos n) = n % 2 ^ 16
port_of (negsuc n) = 2 ^ 16 - 1 - n % 2 ^ 16

-- Whether each call succeeds.
pub record Calls : Type 0 where
  pub socket : Bool
  pub setsockopt : Bool
  pub bind : Bool

-- The port, whether its address is reused, and whether only the local host is let in.
unfoldable pub socket_create : Calls → ℤ → Bool → Bool → Result (ℕ × Bool × Bool)
socket_create calls port_number reuse_addr local_only =
    if not calls.socket
    then fault critical
    else if not calls.setsockopt
    then fault critical
    else if not calls.bind
    then fault critical
    else ok (port_of port_number, reuse_addr, local_only)

-- `sun_path` of Linux.
abbrev pub sun_path_size : ℕ
sun_path_size = 108

-- The path that is bound; it is copied with no test of its length.
unfoldable pub socket_create_unix : Calls → Bytes → Result Bytes
socket_create_unix calls path =
    if not calls.socket
    then fault critical
    else if leb sun_path_size (length path)
    then fault overflow
    else if not calls.bind
    then fault critical
    else ok path
