-- ===== src/Tests/Runs.antt =====
-- The channel, the tables and the runs at concrete inputs. The hash tables are functions.
use nagios_snmp.Base.{
  ℕ, ◌+◌, ◌≤◌, Bool, true, false, ◌||◌, List, [], ◌∷◌, ◌++◌, Option, none, some, Bytes, CString,
  codes, equal, has, Result, ok, fault, null_deref, if◌then◌else◌, length, get_elem?, All, ◌≡◌, ◌≢◌,
  refl, arith,
}
use nagios_snmp.Base.Int.{ℤ, pos, atoi}
use nagios_snmp.Base.Decimal.{decimal, decimal_int}
use nagios_snmp.Base.Ends.{Ends}
use nagios_snmp.Util.{xstrdup, is_integer, keep_chars}
use nagios_snmp.Stack.{stack_init}
use nagios_snmp.Channel.{Channel, channel_write, output_text}
use nagios_snmp.Channel.Counters.{total, IsTallied, channel_write-IsTallied}
use nagios_snmp.Channel.Messages.{fields, stamped, channel_write-fields}
use nagios_snmp.Db.Tables.{HashTable}
use nagios_snmp.Db.{same_int, Db}
use nagios_snmp.Db.Load.{Rows, fresh_db, db_init}
use nagios_snmp.Db.Chains.{IsChained}
use nagios_snmp.Db.Chains.Loading.{db_init-IsChained}
use nagios_snmp.Execlist.{for_host, for_either, ExecItem, execlist_build}
use nagios_snmp.Execlist.Built.{execlist_build-Ends}
use nagios_snmp.Trap.{Trap, ptr}
use nagios_snmp.Exec.{settle_kind, parse_result_str}
use nagios_snmp.Exec.Line.{bars, parse_result_str-fields, line_loop_undefined}
use nagios_snmp.Exec.Run.{Job, line_loop}
use nagios_snmp.Exec.Start.{exec_trap}
use nagios_snmp.Exec.Handled.{exec_trap-Ends, exec_trap-bounded}

-- A table as a function from keys.
abbrev tables : (K : Type 0) → (same : K → K → Bool) → HashTable K same
tables K same = record {
  Table = K → Option ℕ;
  new = λ k. none;
  lookup = λ k t. t k;
  insert = λ k p t. λ j. if same k j then some p else t j;
  steal = λ k t. λ j. if same k j then none else t j;
  lookup-new = λ k. refl;
  lookup-insert = λ k j p t. refl;
  lookup-steal = λ k j t. refl;
}

abbrev pub texts : HashTable Bytes equal
texts = tables Bytes equal

abbrev pub numbers : HashTable ℤ same_int
numbers = tables ℤ same_int

abbrev pub quiet : Channel
quiet = record {
  writes_host = 0;
  writes_svc = 0;
  written_bytes_host = 0;
  written_bytes_svc = 0;
  errors = 0;
  lines = [];
}

channel_write-IsTallied_example :
    IsTallied (
      channel_write true quiet 100 (some (codes "h")) none (pos 2) (some (codes "down")) none false)
unfolding total
channel_write-IsTallied_example =
    channel_write-IsTallied true quiet 100 (some (codes "h")) none (pos 2) (some (codes "down"))
      none false (refl, refl)

channel_write-fields_example :
    ((line : Bytes) × ((channel_write true quiet 100
          (some (codes "h"))
          (some (codes "ping"))
          (pos 2)
          (some (codes "a;b"))
          none
          false).lines
        ≡ quiet.lines ++ line ∷ [])
      × (fields 3 line
          ≡ stamped 100 (codes "] PROCESS_HOST_CHECK_RESULT")
            ∷ codes "h"
            ∷ decimal_int (pos 2)
            ∷ output_text (some (codes "a;b")) none
            ∷ []))
    × ((line : Bytes) × ((channel_write true quiet 100
            (some (codes "h"))
            (some (codes "ping"))
            (pos 2)
            (some (codes "a;b"))
            none
            true).lines
          ≡ quiet.lines ++ line ∷ [])
        × (fields 4 line
            ≡ stamped 100 (codes "] PROCESS_SERVICE_CHECK_RESULT")
              ∷ codes "h"
              ∷ codes "ping"
              ∷ decimal_int (pos 2)
              ∷ output_text (some (codes "a;b")) none
              ∷ []))
channel_write-fields_example =
    channel_write-fields 100 (codes "h") (codes "ping") (pos 2) (some (codes "a;b")) none quiet
      (λ e. cc) (λ e. cc) refl refl

-- A command, and two hosts with one address that use it.
abbrev pub rows : Rows
rows = record {
  resource_rows = (some (codes "$BIN$=/bin") ∷ []) ∷ [];
  command_rows =
      (some (codes "7") ∷ some (codes "c") ∷ some (codes "$BIN$/c") ∷ some (codes "1") ∷ []) ∷ [];
  host_rows =
      (some (codes "a") ∷ some (codes "1.1") ∷ some (codes "7") ∷ none ∷ [])
      ∷ (some (codes "b") ∷ some (codes "1.1") ∷ some (codes "7") ∷ none ∷ [])
      ∷ [];
  svc_rows = [];
  trap_handler_rows = (some (codes ".9") ∷ some (codes "7") ∷ []) ∷ [];
}

-- What is loaded, or no table at all.
abbrev pub value_of : Result (Db texts numbers) → Db texts numbers
value_of (ok db) = db
value_of (fault e) = fresh_db texts numbers

unfoldable pub loaded : Db texts numbers
unfolding db_init
loaded = value_of (db_init texts numbers true rows)

pub loads : db_init texts numbers true rows ≡ ok loaded
unfolding db_init loaded nagios_snmp.Base.tokens
loads = refl

db_init-IsChained_example : IsChained texts numbers loaded
db_init-IsChained_example = db_init-IsChained texts numbers true rows loaded loads

execlist_build-Ends_example :
    Ends (execlist_build texts numbers loaded none (pos 7) true (some (codes "1.1")) none none)
execlist_build-Ends_example =
    execlist_build-Ends texts numbers loaded db_init-IsChained_example (pos 7) true none
      (some (codes "1.1")) none none

abbrev pub trap : Trap
trap = record {
  seconds = 100;
  useconds = 5;
  hostname = some (codes "h");
  ipaddress = some (codes "1.1");
  oid = some (codes ".9");
  object =
      record {
        oid = some (codes ".2");
        value = some (codes "1");
        quoted_value = ptr (some (codes "\"1\""));
      }
      ∷ [];
}

-- Each run prints one complete line, and leaves the names to the tables.
abbrev pub plugin : ℕ → Bytes → List Bytes
plugin n command = codes "|||0|up||0\n" ∷ []

abbrev outcome : Result (Bool × ℕ × Channel)
outcome =
    exec_trap texts numbers plugin (λ n. true) (λ f. true) 5 loaded (some trap) none none quiet

exec_trap_runs :
    outcome
    ≡ ok (
      true,
      2,
      record quiet {
        writes_host = 2;
        written_bytes_host = 78;
        lines =
            codes "[100] PROCESS_HOST_CHECK_RESULT;a;0;up"
            ∷ codes "[100] PROCESS_HOST_CHECK_RESULT;b;0;up"
            ∷ [];
      },
    )
unfolding exec_trap loaded db_init nagios_snmp.Base.tokens nagios_snmp.Db.db_lookup_host_by_cmd_id
    nagios_snmp.Db.db_extract_host_address nagios_snmp.Db.db_extract_expanded_text
    nagios_snmp.Db.db_lookup_svc_by_cmd_id nagios_snmp.Db.db_extract_host_name decimal decimal_int
exec_trap_runs = refl

exec_trap-Ends_example : Ends outcome
exec_trap-Ends_example =
    exec_trap-Ends texts numbers loaded plugin (λ n. true) (λ f. true) 5 none none quiet true rows
      (some trap) loads

exec_trap-bounded_example : 2 ≤ 5 + 1
exec_trap-bounded_example =
    exec_trap-bounded texts numbers loaded plugin (λ n. true) (λ f. true) 5 none none quiet
      (some trap) true 2 _ exec_trap_runs

parse_result_str-fields_example :
    parse_result_str texts numbers loaded
      (some (bars (codes "1.1" ∷ codes "b" ∷ [] ∷ codes "2" ∷ codes "down" ∷ [] ∷ codes "0" ∷ [])))
      for_either
      none
      none
      true
    ≡ ok (
        some (record {
          is_complete = is_integer (some (codes "2"));
          is_service = settle_kind for_either (xstrdup (some []));
          use_sender_address = true;
          timestamp = 0;
          host_address = xstrdup (some (codes "1.1"));
          host_name = xstrdup (some (codes "b"));
          svc_desc = xstrdup (some []);
          ret_value = atoi (codes "2");
          output = xstrdup (some (codes "down"));
          perfdata = xstrdup (some []);
          is_valid_svc_id = is_integer (some (codes "0"));
          svc_id = atoi (codes "0");
        }))
parse_result_str-fields_example =
    parse_result_str-fields texts numbers loaded for_either true (codes "1.1") (codes "b") []
      (codes "2") (codes "down") [] (codes "0") [] (ground arith)

abbrev job : Job
job = record {
  command = none;
  cmd_id = pos 7;
  use_sender_address = true;
  sender_address = some (codes "1.1");
  trap_contents = some (codes ".2=\"1\"");
  trap_timestamp = 100;
}

abbrev item : ExecItem
item = record { command = some (codes "/bin/c"); is_service = for_host; host = some 0; svc = none }

line_loop_undefined_example :
    (line_loop texts numbers loaded job item stack_init none (codes "\n" ∷ []) ≡ fault null_deref)
    × (line_loop texts numbers loaded job item stack_init none
          (bars (codes "a" ∷ codes "b" ∷ []) ∷ [])
        ≡ fault null_deref)
unfolding keep_chars bars
line_loop_undefined_example =
    line_loop_undefined texts numbers loaded job item stack_init none [] (codes "\n") (codes "a")
      (codes "b" ∷ []) refl (ground arith) (λ e. cc) (omega arith)
