-- ===== src/Standalone.antt =====
-- src/standalone.c: traps read from the standard input, one to a line. What `getline` reads is an
-- argument; what is printed is the list of the texts given to `printf`.
pub mod Accepts
use nagios_snmp.Base.{
  ℕ, Bool, true, false, ◌||◌, List, [], ◌∷◌, ◌++◌, Option, none, some, Bytes, CString, codes, equal,
  Result, ok, fault, assertion, garbage_ptr, ◌>>=◌, ◌>>◌, if◌then◌else◌,
}
use nagios_snmp.Base.Int.{ℤ}
use nagios_snmp.Util.{is_empty}
use nagios_snmp.Command.{command_expand_1}
use nagios_snmp.Channel.{Channel}
use nagios_snmp.Db.Tables.{HashTable}
use nagios_snmp.Db.{same_int, Db, db_lookup_resource}
use nagios_snmp.Exec.Start.{exec_trap}
use nagios_snmp.Trap.{Trap, Pdu, trap_pdu_get_response, trap_is_trap, trap_free_pdu}
use nagios_snmp.Trap.Parse.{Parsed, parse}
use nagios_snmp.Trap.Serialize.{SerializeMode, trap_serialize}
use nagios_snmp.Worker.{Settings}

unfoldable pub standalone_init : CString → CString → Result (Unit {0})
standalone_init oid command = if is_empty oid || is_empty command then fault assertion else ok tt

-- What the program has done so far: the output, the counter and the channel.
pub record Progress : Type 0 where
  pub printed : List Bytes
  pub trap_parsed : ℕ
  pub channel : Channel

-- Nothing is printed for NULL.
unfoldable pub serialized_lines : CString → List Bytes
serialized_lines none = []
serialized_lines (some text) =
    codes "=== begin serialized trap ===\n"
    ∷ (text ++ codes "\n")
    ∷ codes "=== end   serialized trap ===\n"
    ∷ []

module _ (S : HashTable Bytes equal) (I : HashTable ℤ same_int) (db : Db S I) (settings : Settings)
    (mode : SerializeMode) (plugin : ℕ → Bytes → List Bytes) (taken : ℕ → Bool)
    (set_permissions : Bytes → Bool) (tv_sec tv_usec : ℕ) where
  -- `if ((trap = trap_is_trap(pdu)) != NULL)`: the lines printed and the channel.
  unfoldable pub run_standalone :
      CString → CString → Option Trap → Channel → Result (List Bytes × Channel)
  unfolding exec_trap trap_serialize serialized_lines
  run_standalone oid trap_handler none channel = ok ([], channel)
  run_standalone oid trap_handler (some trap) channel = do
    run ←
        exec_trap S I plugin taken set_permissions settings.limit db (some trap) oid trap_handler
          channel
    text ← trap_serialize mode (some trap) run.0 (codes ",")
    ok (serialized_lines text, run.2)

  unfoldable pub respond : CString → CString → CString → Parsed → Progress → Result Progress
  unfolding trap_is_trap run_standalone
  respond oid trap_handler none parsed p = ok (record p { trap_parsed = parsed.trap_parsed })
  respond oid trap_handler (some response) parsed p = do
    run ← run_standalone oid trap_handler (trap_is_trap parsed.pdu) p.channel
    ok (record {
      printed = p.printed ++ (response ++ codes "\n") ∷ run.0;
      trap_parsed = parsed.trap_parsed;
      channel = run.1;
    })

  -- The body of the loop, for the line that was read.
  unfoldable pub process_line : CString → CString → Bytes → Progress → Result Progress
  unfolding parse trap_pdu_get_response respond trap_free_pdu
  process_line oid trap_handler line p = do
    parsed ← parse settings.tokenizer tv_sec tv_usec p.trap_parsed (some line) true
    next ← respond oid trap_handler (trap_pdu_get_response settings.diagnostics parsed.pdu) parsed p
    trap_free_pdu parsed.pdu
    ok next

  -- `freed` says that `line` points to memory that `free(line)` has released: the next line is
  -- written to it.
  unfoldable pub main_loop : CString → CString → Bool → List Bytes → Progress → Result Progress
  unfolding process_line
  main_loop oid trap_handler freed [] p = ok p
  main_loop oid trap_handler true (line ∷ lines) p = fault garbage_ptr
  main_loop oid trap_handler false (line ∷ lines) p = do
    next ← process_line oid trap_handler line p
    main_loop oid trap_handler true lines next

  unfoldable pub standalone_start_main_loop :
      CString → CString → List Bytes → Progress → Result Progress
  unfolding command_expand_1 main_loop db_lookup_resource
  standalone_start_main_loop oid command lines p = do
    trap_handler ← command_expand_1 (db_lookup_resource S I db) command
    main_loop oid trap_handler false lines p
