-- ===== src/Exec/Run.antt =====
-- src/exec.c: the plugins of a trap are run from a stack, and their results go to the channel. What
-- a plugin prints, by the number of the run and its command line, is an argument (no line where
-- `popen` fails). The limit of the runs is a setting, and taken to be no negative number.
use nagios_snmp.Base.{
  ℕ, zero, suc, Bool, true, false, not, ◌&&◌, ◌||◌, List, [], ◌∷◌, ◌++◌, Option, none, some, Bytes,
  CString, equal, Result, ok, fault, null_deref, out_of_fuel, ◌>>=◌, ltb, ◌==◌, if◌then◌else◌,
  length, deref,
}
use nagios_snmp.Base.Int.{ℤ}
use nagios_snmp.Util.{is_empty, xstrdup}
use nagios_snmp.Stack.{
  Stack, stack_increment_executions, stack_count_executions, stack_push, pop_item, stack_get_data,
}
use nagios_snmp.Channel.{Channel, channel_write}
use nagios_snmp.Db.Tables.{HashTable}
use nagios_snmp.Db.{
  same_int, Db, no_flag, next_by_host_name, next_by_host_address, db_lookup_host_by_host_name,
  db_lookup_host_by_address, db_lookup_svc_by_host_name, db_lookup_svc_by_host_address,
  db_extract_svc_desc,
}
use nagios_snmp.Execlist.{Kind, ExecItem, execlist_build}
use nagios_snmp.Exec.{ExecResult, parse_result_str}

-- Returns the flag and the stack.
unfoldable pub push_execitem :
    Stack ExecItem → CString → Kind → Option ℕ → Option ℕ → Stack ExecItem
unfolding stack_push xstrdup
push_execitem stack none is_service host svc = stack
push_execitem stack (some command) is_service host svc =
    elim (stack_push (some stack) (record {
      command = xstrdup (some command);
      is_service = is_service;
      host = host;
      svc = svc;
    })).1 [ none ↦ stack | some s ↦ s ]

-- The flag is the result; the items in front of one with no command stay pushed.
unfoldable pub push_execlist : Stack ExecItem → List ExecItem → Bool × Stack ExecItem
unfolding push_execitem
push_execlist stack [] = (true, stack)
push_execlist stack (item ∷ next) = elim item.command [
  | none ↦ (false, stack)
  | some command ↦
      push_execlist (push_execitem stack (some command) item.is_service item.host item.svc) next
]

-- The full command, or `none` where nothing is run.
unfoldable pub full_command : CString → CString → CString
unfolding is_empty
full_command none contents = none
full_command (some command) none = none
full_command (some command) (some contents) =
    if is_empty (some command) || is_empty (some contents)
    then none
    else some (command ++ b' ' ∷ contents)

unfoldable pub exec_command : (ℕ → Bytes → List Bytes) → ℕ → CString → CString → List Bytes
unfolding full_command
exec_command plugin n command contents = elim (full_command command contents) [
  | none ↦ []
  | some full ↦ plugin n full
]

-- What a trap runs with: `command`, `cmd_id`, and the facts of the trap.
pub record Job : Type 0 where
  pub command : CString
  pub cmd_id : ℤ
  pub use_sender_address : Bool
  pub sender_address : CString
  pub trap_contents : CString
  pub trap_timestamp : ℕ

module _ (S : HashTable Bytes equal) (I : HashTable ℤ same_int) where
  -- The loop over the lines of a run: the stack, and the last result, or `none` for `return_null`.
  unfoldable pub line_loop :
      Db S I
      → Job
      → ExecItem
      → Stack ExecItem
      → Option ExecResult
      → List Bytes
      → Result (Stack ExecItem × Option ExecResult)
  unfolding parse_result_str execlist_build push_execlist
  line_loop db job item stack last [] = ok (stack, last)
  line_loop db job item stack last (line ∷ lines) = do
    parsed ←
        parse_result_str S I db (some line) item.is_service item.host item.svc
          job.use_sender_address
    elim parsed [
      | none ↦ fault null_deref
      | some r ↦ if r.is_complete then ok (stack, some r) else (do
        execlist ←
            execlist_build S I db job.command job.cmd_id job.use_sender_address job.sender_address
              r.host_address r.host_name
        elim execlist [
          | [] ↦ ok (stack, none)
          | i ∷ is ↦
              let pushed = push_execlist stack (i ∷ is) in
              if pushed.0
              then line_loop db job item pushed.1 (some r) lines
              else ok (pushed.1, none)
        ])
    ]

  -- `stack_max_executions` is the second argument.
  unfoldable pub stack_run :
      (ℕ → Bytes → List Bytes)
      → ℕ
      → Db S I
      → Job
      → Stack ExecItem
      → Result (Stack ExecItem × Option ExecResult)
  unfolding stack_count_executions stack_increment_executions pop_item stack_get_data exec_command
      line_loop
  stack_run plugin limit db job stack =
      if ltb limit (stack_count_executions stack) then ok (stack, none) else (do
        popped ← pop_item (stack_increment_executions stack)
        elim (stack_get_data popped.0) [
          | none ↦ fault null_deref
          | some item ↦ do
            run ←
                line_loop db job item popped.1 none
                  (exec_command plugin stack.executions item.command job.trap_contents)
            ok (
              run.0,
              elim run.1 [
                | none ↦ none
                | some r ↦ some (record r { timestamp = job.trap_timestamp })
              ],
            )
        ])

  -- The loops of `do_output` along a chain of services.
  unfoldable pub svc_known :
      ℕ → Db S I → (Option ℕ → Result (Option ℕ)) → CString → Option ℕ → Result Bool
  svc_known zero db next svc_desc svc = fault out_of_fuel
  svc_known (suc fuel) db next svc_desc none = ok false
  svc_known (suc fuel) db next svc_desc (some p) = do
    wanted ← deref svc_desc
    value ← db_extract_svc_desc S I db (some p)
    found ← deref value
    if equal wanted found
        then ok true
        else (do q ← next (some p); svc_known fuel db next svc_desc q)

  -- Do the tables know the host or the service of the result?
  unfoldable pub confirmed_by_tables : Db S I → ExecResult → Result Bool
  unfolding db_lookup_host_by_host_name db_lookup_host_by_address svc_known
  confirmed_by_tables db r =
      if not r.is_service
      then ok (elim (db_lookup_host_by_host_name S I db r.host_name) [
        | some p ↦ true
        | none ↦ elim (db_lookup_host_by_address S I db r.host_address) [
          | none ↦ false
          | some p ↦ true
        ]
      ])
      else (do
        first ← db_lookup_svc_by_host_name S I db r.host_name none no_flag
        by_name ←
            svc_known (suc (length db.svcs)) db
              (λ s. db_lookup_svc_by_host_name S I db r.host_name s next_by_host_name) r.svc_desc
              first
        if by_name then ok true else (do
          head ← db_lookup_svc_by_host_address S I db r.host_address none no_flag
          svc_known (suc (length db.svcs)) db
              (λ s. db_lookup_svc_by_host_address S I db r.host_address s next_by_host_address)
              r.svc_desc head))

  -- `taken` tells whether the stream takes the line.
  unfoldable pub do_output : Bool → Db S I → ExecResult → Channel → Result (Bool × Channel)
  unfolding confirmed_by_tables is_empty channel_write
  do_output taken db r channel = do
    known ← (if not r.use_sender_address then confirmed_by_tables db r else ok true)
    if (known && not (is_empty r.host_name)) && not (r.is_service && is_empty r.svc_desc)
        then ok (
          true,
          channel_write taken channel r.timestamp r.host_name r.svc_desc r.ret_value r.output
              r.perfdata r.is_service,
        )
        else ok (false, channel)

  -- The loop of `exec_trap`: the result, the stack and the channel behind it. The stream may refuse
  -- a line at any round.
  unfoldable pub exec_loop :
      ℕ
      → (ℕ → Bytes → List Bytes)
      → (ℕ → Bool)
      → ℕ
      → Db S I
      → Job
      → Stack ExecItem
      → Channel
      → Result (Bool × Stack ExecItem × Channel)
  unfolding stack_run do_output
  exec_loop zero plugin taken limit db job stack channel = fault out_of_fuel
  exec_loop (suc fuel) plugin taken limit db job stack channel =
      if stack.depth == 0 then ok (true, stack, channel) else (do
        run ← stack_run plugin limit db job stack
        elim run.1 [
          | none ↦ ok (false, run.0, channel)
          | some r ↦ do
            out ← do_output (taken stack.executions) db r channel
            exec_loop fuel plugin taken limit db job run.0 out.1
        ])
