-- ===== src/Tests/Sessions.antt =====
-- A connection at a concrete input.
use nagios_snmp.Base.{
  some, ◌+◌, ℕ, true, false, List, [], ◌∷◌, ◌++◌, map, none, Bytes, codes, ok, if◌then◌else◌, ◌≡◌,
  refl, arith,
}
use nagios_snmp.Socket.{bytes}
use nagios_snmp.Socket.Framing.{joined}
use nagios_snmp.Channel.{Channel}
use nagios_snmp.Exec.Start.{exec_trap}
use nagios_snmp.Trap.Parse.Wire.{Message}
use nagios_snmp.Trap.Parse.RoundTrip.{IsSound, primary_value, trap_of}
use nagios_snmp.Worker.Traps.{child_thread_accepts}
use nagios_snmp.Worker.{Settings, child_thread}
use nagios_snmp.Worker.Answers.{child_thread_alive}
use nagios_snmp.Tests.Runs.{texts, numbers, loaded, quiet, plugin}

abbrev pub settings : Settings
settings = record { tokenizer = codes "::"; send_enabled = true; limit = 5; diagnostics = none }

abbrev pub silent : ℕ → Bytes → List Bytes
silent n command = []

child_thread_alive_example :
    child_thread texts numbers loaded settings silent
      (λ n. true)
      (λ f. true)
      100
      5
      3
      false
      (map bytes (codes "AL" ∷ []) ++ bytes (codes "IVE? you" ++ b'\n' ∷ []) ∷ [])
      quiet
    ≡ ok (record {
      sent = if settings.send_enabled then codes "YES" ∷ codes "\n" ∷ [] else [];
      trap_parsed = 3;
      channel = quiet;
      logged = [];
      closed = true;
    })
unfolding joined
child_thread_alive_example =
    child_thread_alive texts numbers loaded settings silent (λ n. true) (λ f. true) 100 5 3 false
      quiet (codes "you" ∷ []) (codes "AL" ∷ []) (codes "IVE? you") b'\n' [] [] (ground arith) refl
      refl (ground arith) (ground arith) refl (omega arith)

-- A trap from a host of the tables.
abbrev pub known : Message
known = record {
  host = codes "h";
  address = codes "[1.1]" ∷ [];
  first_var = record { oid = codes ".1.3.6.1.6.3.1.1.4.1.0"; first = codes ".9"; more = [] };
  other_vars = [];
}

pub known-IsSound : IsSound (codes "::") known
known-IsSound = record {
  words = ground arith;
  tokenizer_ne = refl;
  host_ne = refl;
  address_ne = ground arith;
  values_ne = ground arith;
}

abbrev pub written : Channel
written = record quiet {
  writes_host = 2;
  written_bytes_host = 78;
  lines =
      codes "[100] PROCESS_HOST_CHECK_RESULT;a;0;up"
      ∷ codes "[100] PROCESS_HOST_CHECK_RESULT;b;0;up"
      ∷ [];
}

pub known_runs :
    exec_trap texts numbers plugin
      (λ n. true)
      (λ f. true)
      5
      loaded
      (some (trap_of 100 5 (codes "1.1") (codes ".9") known))
      none
      none
      quiet
    ≡ ok (true, 2, written)
unfolding exec_trap loaded nagios_snmp.Base.tokens nagios_snmp.Db.db_lookup_host_by_cmd_id
    nagios_snmp.Db.db_extract_host_address nagios_snmp.Db.db_extract_expanded_text
    nagios_snmp.Db.db_lookup_svc_by_cmd_id nagios_snmp.Db.db_extract_host_name
    nagios_snmp.Base.Decimal.decimal nagios_snmp.Base.Decimal.decimal_int
known_runs = refl

child_thread_accepts_example :
    child_thread texts numbers loaded settings plugin
      (λ n. true)
      (λ f. true)
      100
      5
      3
      false
      (map bytes (codes "TRAP :: h :: [1.1] :: " ∷ [])
        ++ bytes (codes ".1.3.6.1.6.3.1.1.4.1.0 .9" ++ b'\n' ∷ []) ∷ [])
      quiet
    ≡ ok (record {
      sent = if settings.send_enabled then codes "ACCEPTED" ∷ codes "\n" ∷ [] else [];
      trap_parsed = 3 + 1;
      channel = written;
      logged = (trap_of 100 5 (codes "1.1") (codes ".9") known, true) ∷ [];
      closed = true;
    })
unfolding joined primary_value
child_thread_accepts_example =
    child_thread_accepts texts numbers loaded settings plugin (λ n. true) (λ f. true) 100 5 3 false
      quiet known (codes "TRAP :: h :: [1.1] :: " ∷ []) (codes ".1.3.6.1.6.3.1.1.4.1.0 .9") b'\n' []
      [] (codes ":: ") (codes "1.1") [] (codes ".9") true 2 written known-IsSound (omega arith) refl
      refl refl refl refl (ground arith) (ground arith) refl (omega arith) known_runs
