-- ===== src/Exec/Start.antt =====
-- src/exec.c, `exec_trap`: what a trap runs, and the run. What `set_permissions` returns is an
-- argument, and so is what plugins print.
use nagios_snmp.Base.{
  ℕ, ◌+◌, Bool, false, not, List, [], ◌∷◌, Option, none, some, Bytes, CString, equal, Result, ok,
  ◌>>=◌, ◌==◌, if◌then◌else◌,
}
use nagios_snmp.Base.Int.{ℤ, pos, negsuc}
use nagios_snmp.Util.{is_empty, extract_filename}
use nagios_snmp.Stack.{Stack, stack_init}
use nagios_snmp.Channel.{Channel}
use nagios_snmp.Db.Tables.{HashTable}
use nagios_snmp.Db.{
  same_int, Db, db_lookup_cmd_id_by_oid, db_lookup_filename_by_cmd_id,
  db_lookup_use_sender_address_by_cmd_id,
}
use nagios_snmp.Execlist.{for_host, ExecItem, execlist_build}
use nagios_snmp.Trap.{
  Trap, trap_get_oid, trap_get_contents, trap_get_timestamp, trap_get_sender_address,
}
use nagios_snmp.Exec.Run.{push_execitem, push_execlist, Job, exec_loop}

module _ (S : HashTable Bytes equal) (I : HashTable ℤ same_int) where
  -- The command of a trap: its id, the file to run and the flag, or `none` for the result 0.
  unfoldable pub find_command : Db S I → Bytes → CString → Result (Option (ℤ × Bytes × Bool))
  unfolding db_lookup_cmd_id_by_oid db_lookup_filename_by_cmd_id
      db_lookup_use_sender_address_by_cmd_id extract_filename
  find_command db trap_oid (some command) = elim (extract_filename (some command)) [
    | none ↦ ok none
    | some filename ↦ ok (some (pos 0, filename, false))
  ]
  find_command db trap_oid none = do
    cmd_id ← db_lookup_cmd_id_by_oid S I db (some trap_oid)
    if same_int cmd_id (negsuc 0) then ok none else (do
      file ← db_lookup_filename_by_cmd_id S I db cmd_id
      flag ← db_lookup_use_sender_address_by_cmd_id S I db cmd_id
      ok (elim file [
        | none ↦ none
        | some filename ↦ elim flag [ none ↦ none | some sender ↦ some (cmd_id, filename, sender) ]
      ]))

  -- What the stack holds before the loop, or `none` for the result 0.
  unfoldable pub first_items : Db S I → Job → Result (Option (Stack ExecItem))
  unfolding execlist_build push_execlist push_execitem stack_init
  first_items db job = elim job.command [
    | some command ↦ ok (some (push_execitem stack_init (some command) for_host none none))
    | none ↦ do
      items ←
          execlist_build S I db none job.cmd_id job.use_sender_address job.sender_address none none
      elim items [
        | [] ↦ ok none
        | i ∷ is ↦
            let pushed = push_execlist stack_init (i ∷ is) in
            ok (if pushed.0 then some pushed.1 else none)
      ]
  ]

  -- The facts of the trap that the runs need: its contents, a time that is not 0, and its sender.
  unfoldable pub job_of : CString → ℤ → Bool → Trap → Result (Option Job)
  unfolding trap_get_contents trap_get_timestamp trap_get_sender_address
  job_of command cmd_id use_sender_address trap = do
    contents ← trap_get_contents (some trap)
    ok (elim contents [
      | none ↦ none
      | some c ↦
          if trap_get_timestamp (some trap) == 0
          then none
          else elim (trap_get_sender_address (some trap)) [
            | none ↦ none
            | some sender ↦ some (record {
              command = command;
              cmd_id = cmd_id;
              use_sender_address = use_sender_address;
              sender_address = some sender;
              trap_contents = some c;
              trap_timestamp = trap_get_timestamp (some trap);
            })
          ]
    ])

  -- The guards on the trap and its OID; `oid` is the one that a user asks for, or NULL.
  unfoldable pub wanted_oid : Option Trap → CString → CString
  unfolding trap_get_oid is_empty
  wanted_oid trap oid = elim (trap_get_oid trap) [
    | none ↦ none
    | some trap_oid ↦ if is_empty (some trap_oid) then none else elim oid [
      | none ↦ some trap_oid
      | some o ↦ if equal o trap_oid then some trap_oid else none
    ]
  ]

  -- The result, the runs of plugins, and the channel behind `exec_trap`. There is fuel for a round
  -- for each run that the limit allows, one that exceeds it, and one to stop.
  unfoldable pub exec_trap :
      (ℕ → Bytes → List Bytes)
      → (ℕ → Bool)
      → (Bytes → Bool)
      → ℕ
      → Db S I
      → Option Trap
      → CString
      → CString
      → Channel
      → Result (Bool × ℕ × Channel)
  unfolding wanted_oid find_command job_of first_items exec_loop
  exec_trap plugin taken set_permissions limit db none oid command channel = ok (false, 0, channel)
  exec_trap plugin taken set_permissions limit db (some trap) oid command channel =
      elim (wanted_oid (some trap) oid) [
        | none ↦ ok (false, 0, channel)
        | some trap_oid ↦ do
          found ← find_command db trap_oid command
          elim found [
            | none ↦ ok (false, 0, channel)
            | some f ↦ if not (set_permissions f.1) then ok (false, 0, channel) else (do
              job ← job_of command f.0 f.2 trap
              elim job [
                | none ↦ ok (false, 0, channel)
                | some j ↦ do
                  start ← first_items db j
                  elim start [
                    | none ↦ ok (false, 0, channel)
                    | some stack ↦ do
                      done ← exec_loop S I (limit + 2) plugin taken limit db j stack channel
                      ok (done.0, done.1.executions, done.2)
                  ]
              ])
          ]
      ]
