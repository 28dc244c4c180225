-- ===== src/Tests/Runlists.antt =====
-- The list of runs, and the end of the expansion's buffer, at concrete inputs.
use nagios_snmp.Base.{
  ◌⊎◌, ℕ, Bool, true, false, List, [], ◌∷◌, Option, none, some, Bytes, CString, codes, equal, has,
  ltb, Result, ok, fault, overflow, if◌then◌else◌, length, get_elem?, replicate, All, ◌≡◌, refl,
  arith,
}
use nagios_snmp.Base.Int.{pos}
use nagios_snmp.Command.{expand_command_internal}
use nagios_snmp.Command.Boundary.{expand-plain}
use nagios_snmp.Db.{same_int, Db, Host, db_extract_host_address, db_extract_expanded_text}
use nagios_snmp.Db.Load.{Rows, db_init}
use nagios_snmp.Execlist.{ExecItem, for_host, execlist_build}
use nagios_snmp.Execlist.Matches.{IsMatch, execlist_build-IsMatch}
use nagios_snmp.Execlist.Missed.{execlist_build_missed}
use nagios_snmp.Util.{is_empty}
use nagios_snmp.Channel.{Channel, channel_write}
use nagios_snmp.Db.{db_lookup_host_by_host_name, db_lookup_host_by_address}
use nagios_snmp.Exec.{ExecResult}
use nagios_snmp.Exec.Run.{do_output}
use nagios_snmp.Exec.Confirmed.{do_output-known}
use nagios_snmp.Tests.Runs.{quiet, texts, numbers, loaded, value_of}

abbrev no_macro : Bytes → Result CString
no_macro m = ok none

abbrev full : Bytes
full = replicate 1024 b'x'

expand-plain_example :
    expand_command_internal no_macro (some full)
    ≡ (if ltb (length full) 1024 then ok (some full) else fault overflow)
expand-plain_example = expand-plain no_macro full refl (omega arith)

abbrev both : List ExecItem
both =
    record { command = some (codes "/bin/c"); is_service = for_host; host = some 1; svc = none }
    ∷ record { command = some (codes "/bin/c"); is_service = for_host; host = some 0; svc = none }
    ∷ []

lists :
    execlist_build texts numbers loaded none (pos 7) true none (some (codes "1.1")) none ≡ ok both
unfolding execlist_build nagios_snmp.Db.db_lookup_host_by_cmd_id loaded nagios_snmp.Base.tokens
    db_extract_host_address db_extract_expanded_text nagios_snmp.Db.db_lookup_svc_by_cmd_id
lists = refl

execlist_build-IsMatch_example :
    All
      (IsMatch texts numbers loaded (db_extract_host_address texts numbers loaded) (codes "1.1"))
      both
execlist_build-IsMatch_example =
    execlist_build-IsMatch texts numbers loaded (pos 7) true none none b'1' (codes ".1") both lists

-- Two hosts of one command, with two addresses: the one of 1.1 is loaded first.
abbrev two_rows : Rows
two_rows = record {
  resource_rows = [];
  command_rows =
      (some (codes "7") ∷ some (codes "c") ∷ some (codes "/c") ∷ some (codes "1") ∷ []) ∷ [];
  host_rows =
      (some (codes "a") ∷ some (codes "1.1") ∷ some (codes "7") ∷ none ∷ [])
      ∷ (some (codes "b") ∷ some (codes "2.2") ∷ some (codes "7") ∷ none ∷ [])
      ∷ [];
  svc_rows = [];
  trap_handler_rows = [];
}

two : Db texts numbers
unfolding db_init
two = value_of (db_init texts numbers true two_rows)

abbrev newest : Host
newest = record {
  h_cmd_id = pos 7;
  h_host_name = some (codes "b");
  h_address = some (codes "2.2");
  h_args = none;
  h_expanded_text = some (codes "/c");
  h_next_by_name = none;
  h_next_by_address = none;
  h_next_by_cmd_id = some 0;
}

execlist_build_missed_example :
    execlist_build texts numbers two none (pos 7) true none (some (codes "1.1")) none ≡ ok []
unfolding two db_init nagios_snmp.Base.tokens nagios_snmp.Util.is_empty
execlist_build_missed_example =
    execlist_build_missed texts numbers two (pos 7) 1 newest (codes "1.1") (codes "2.2") true none
      none refl refl refl refl refl refl refl

abbrev stranger : ExecResult
stranger = record {
  is_complete = true;
  is_service = false;
  use_sender_address = false;
  timestamp = 100;
  host_address = some (codes "9.9");
  host_name = some (codes "b");
  svc_desc = none;
  ret_value = pos 2;
  output = some (codes "down");
  perfdata = none;
  is_valid_svc_id = true;
  svc_id = pos 0;
}

abbrev told : Channel
told = channel_write true quiet 100 (some (codes "b")) none (pos 2) (some (codes "down")) none false

outputs : do_output texts numbers true loaded stranger quiet ≡ ok (true, told)
unfolding do_output loaded db_init nagios_snmp.Base.tokens
outputs = refl

do_output-known_example :
    ((true ≡ true)
      × (is_empty (some (codes "b")) ≡ false)
      × (told ≡ told)
      × (p : ℕ) × ((db_lookup_host_by_host_name texts numbers loaded (some (codes "b")) ≡ some p)
          ⊎ (db_lookup_host_by_address texts numbers loaded (some (codes "9.9")) ≡ some p)))
    ⊎ ((true ≡ false) × (told ≡ quiet))
do_output-known_example =
    do_output-known texts numbers loaded true stranger quiet true told refl refl outputs
