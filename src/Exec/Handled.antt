-- ===== src/Exec/Handled.antt =====
-- A trap is handled to its end, and the plugins that it runs are bounded.
use nagios_snmp.Base.{
  ℕ, ◌+◌, ◌≤◌, Bool, true, false, not, List, [], ◌∷◌, Option, none, some, Bytes, CString, equal,
  Result, ok, ◌>>=◌, if◌then◌else◌, deref, ◌≡◌, arith,
}
use nagios_snmp.Base.Int.{ℤ, negsuc}
use nagios_snmp.Base.Ends.{Ends, Ends-ok, Ends-bind, Ends-elim, Ends-if, Ends-deref}
use nagios_snmp.Base.Post.{Post, Post-bind, Post-elim, Post-then, Post-if, Post-ok}
use nagios_snmp.Util.{extract_filename}
use nagios_snmp.Stack.{Stack, stack_init}
use nagios_snmp.Channel.{Channel}
use nagios_snmp.Db.Tables.{HashTable}
use nagios_snmp.Db.{
  same_int, Db, deref_in, db_lookup_cmd_id_by_oid, db_lookup_filename_by_cmd_id,
  db_lookup_use_sender_address_by_cmd_id, db_lookup_command_by_cmd_id,
}
use nagios_snmp.Db.Load.{Rows, db_init}
use nagios_snmp.Db.Chains.{IsChained}
use nagios_snmp.Db.Chains.Loading.{db_init-IsChained}
use nagios_snmp.Execlist.{for_host, ExecItem, execlist_build}
use nagios_snmp.Execlist.Walk.{Ends-deref_in}
use nagios_snmp.Execlist.Built.{execlist_build-Ends}
use nagios_snmp.Trap.{
  Slot, garbage, ptr, read_slot, MibObject, Trap, contents_from, add_object, trap_get_contents,
}
use nagios_snmp.Exec.Run.{push_execlist, Job, exec_loop}
use nagios_snmp.Exec.Start.{find_command, first_items, job_of, wanted_oid, exec_trap}
use nagios_snmp.Exec.Bounded.{push_execitem-executions, push_execlist-executions, exec_loop-bounded}
use nagios_snmp.Exec.Finished.{Ends-exec_loop}

Ends-read_slot : (s : Slot) → Ends (read_slot s)
Ends-read_slot garbage e = cc
Ends-read_slot (ptr p) e = cc

Ends-contents_from : (buffer : CString) (os : List MibObject) → Ends (contents_from buffer os)
unfolding contents_from
Ends-contents_from buffer [] = Ends-ok buffer
Ends-contents_from buffer (o ∷ os) = Ends-bind (deref o.oid) _ (Ends-deref o.oid) (λ oid _.
    Ends-bind (read_slot o.quoted_value) _ (Ends-read_slot o.quoted_value) (λ slot _.
      Ends-bind (deref slot) _ (Ends-deref slot)
        (λ q _. Ends-contents_from (some (add_object buffer oid q)) os)))

module _ (S : HashTable Bytes equal) (I : HashTable ℤ same_int) (db : Db S I) where
  Ends-job_of :
      (command : CString) (cmd_id : ℤ) (use_sender_address : Bool) (trap : Trap)
      → Ends (job_of S I command cmd_id use_sender_address trap)
  unfolding job_of trap_get_contents
  Ends-job_of command cmd_id use_sender_address trap =
      Ends-bind (contents_from none trap.object) _ (Ends-contents_from none trap.object)
        (λ c _. Ends-ok _)

  Ends-command_read :
      (cmd_id : ℤ)
      → Ends (db_lookup_filename_by_cmd_id S I db cmd_id)
        × Ends (db_lookup_use_sender_address_by_cmd_id S I db cmd_id)
  unfolding db_lookup_filename_by_cmd_id db_lookup_use_sender_address_by_cmd_id
  Ends-command_read cmd_id = (
    Ends-elim (db_lookup_command_by_cmd_id S I db cmd_id) _ _ (Ends-ok none) (λ p.
        Ends-bind (deref_in db.commands p) _ (Ends-deref_in db.commands p) (λ c _. Ends-ok _)),
    Ends-elim (db_lookup_command_by_cmd_id S I db cmd_id) _ _ (Ends-ok none) (λ p.
        Ends-bind (deref_in db.commands p) _ (Ends-deref_in db.commands p) (λ c _. Ends-ok _)),
  )

  Ends-cmd_id : (oid : Bytes) → Ends (db_lookup_cmd_id_by_oid S I db (some oid))
  unfolding db_lookup_cmd_id_by_oid
  Ends-cmd_id oid = Ends-elim (S.lookup oid db.trap_handlers_table) _ _ (Ends-ok (negsuc 0)) (λ p.
      Ends-bind (deref_in db.trap_handlers p) _ (Ends-deref_in db.trap_handlers p) (λ h _.
        Ends-elim h.th_trap_command _ _ (Ends-ok (negsuc 0)) (λ c.
          Ends-bind (deref_in db.commands c) _ (Ends-deref_in db.commands c) (λ d _. Ends-ok _))))

  Ends-find_command : (oid : Bytes) (command : CString) → Ends (find_command S I db oid command)
  unfolding find_command
  Ends-find_command oid (some command) =
      Ends-elim (extract_filename (some command)) _ _ (Ends-ok none) (λ f. Ends-ok _)
  Ends-find_command oid none =
      Ends-bind (db_lookup_cmd_id_by_oid S I db (some oid)) _ (Ends-cmd_id oid) (λ id _.
        Ends-if (same_int id (negsuc 0)) _ _ (Ends-ok none) (
          Ends-bind (db_lookup_filename_by_cmd_id S I db id) _ (Ends-command_read id).0 (λ file _.
            Ends-bind (db_lookup_use_sender_address_by_cmd_id S I db id) _ (Ends-command_read id).1
              (λ flag _. Ends-ok _))))

  -- No plugin has been run before the loop.
  abbrev IsUnrun : Option (Stack ExecItem) → Type 0
  IsUnrun none = Unit
  IsUnrun (some s) = s.executions ≡ 0

  abbrev start : List ExecItem → Result (Option (Stack ExecItem))
  start [] = ok none
  start (i ∷ is) =
      let pushed = push_execlist stack_init (i ∷ is) in
      ok (if pushed.0 then some pushed.1 else none)

  IsUnrun-if :
      (b : Bool) (s : Stack ExecItem) → s.executions ≡ 0 → IsUnrun (if b then some s else none)
  IsUnrun-if true s h = h
  IsUnrun-if false s h = tt

  start-IsUnrun : (items : List ExecItem) → Post IsUnrun (start items)
  unfolding stack_init
  start-IsUnrun [] = tt
  start-IsUnrun (i ∷ is) = IsUnrun-if _ _ (push_execlist-executions (i ∷ is) stack_init)

  Ends-start : (items : List ExecItem) → Ends (start items)
  Ends-start [] = Ends-ok none
  Ends-start (i ∷ is) = Ends-ok _

  first_items-IsUnrun : (job : Job) → Post IsUnrun (first_items S I db job)
  unfolding first_items stack_init
  first_items-IsUnrun job =
      Post-elim IsUnrun job.command _ _
        (Post-bind IsUnrun
          (execlist_build S I db none job.cmd_id job.use_sender_address job.sender_address none
            none)
          _ (λ items. start-IsUnrun items))
        (λ command. push_execitem-executions stack_init (some command) for_host none none)

  Ends-first_items : IsChained S I db → (job : Job) → Ends (first_items S I db job)
  unfolding first_items
  Ends-first_items chained job =
      Ends-elim job.command _ _
        (Ends-bind
          (execlist_build S I db none job.cmd_id job.use_sender_address job.sender_address none
            none)
          _
          (execlist_build-Ends S I db chained job.cmd_id job.use_sender_address none
            job.sender_address none none)
          (λ items _. Ends-start items))
        (λ command. Ends-ok _)

  module _ (plugin : ℕ → Bytes → List Bytes) (taken : ℕ → Bool) (set_permissions : Bytes → Bool)
      (limit : ℕ) (oid command : CString) (channel : Channel) where
    -- What the loop and its result are, once the stack is there.
    abbrev from_start : Job → Option (Stack ExecItem) → Result (Bool × ℕ × Channel)
    from_start j none = ok (false, 0, channel)
    from_start j (some s) = do
      done ← exec_loop S I (limit + 2) plugin taken limit db j s channel
      ok (done.0, done.1.executions, done.2)

    Ends-from_start :
        IsChained S I db
        → (j : Job) (o : Option (Stack ExecItem)) → IsUnrun o
        → Ends (from_start j o)
    Ends-from_start chained j none h = Ends-ok _
    Ends-from_start chained j (some s) h =
        Ends-bind (exec_loop S I (limit + 2) plugin taken limit db j s channel) _
          (Ends-exec_loop S I db chained j (limit + 2) plugin taken limit s channel (omega arith)
            (omega arith))
          (λ done _. Ends-ok _)

    AtMost : Bool × ℕ × Channel → Type 0
    AtMost r = r.1 ≤ limit + 1

    from_start-AtMost :
        (j : Job) (o : Option (Stack ExecItem)) → IsUnrun o → Post AtMost (from_start j o)
    unfolding AtMost
    from_start-AtMost j none h = omega arith
    from_start-AtMost j (some s) h =
        Post-then (λ r. r.1.executions ≤ limit + 1) AtMost
          (exec_loop S I (limit + 2) plugin taken limit db j s channel) _
          (exec_loop-bounded S I db j (limit + 2) plugin taken limit s channel (omega arith))
          (λ done k. k)

    handled :
        IsChained S I db
        → (trap : Option Trap)
        → Ends (exec_trap S I plugin taken set_permissions limit db trap oid command channel)
    unfolding exec_trap
    handled chained none = Ends-ok _
    handled chained (some trap) =
        Ends-elim (wanted_oid S I (some trap) oid) _ _ (Ends-ok _) (λ trap_oid.
          Ends-bind (find_command S I db trap_oid command) _ (Ends-find_command trap_oid command)
            (λ found _. Ends-elim found _ _ (Ends-ok _) (λ f.
              Ends-if (not (set_permissions f.1)) _ _ (Ends-ok _) (
                Ends-bind (job_of S I command f.0 f.2 trap) _ (Ends-job_of command f.0 f.2 trap)
                  (λ job _. Ends-elim job _ _ (Ends-ok _) (λ j.
                    Ends-bind (first_items S I db j) _ (Ends-first_items chained j) (λ o e.
                      Ends-from_start chained j o
                        (Post-ok IsUnrun (first_items S I db j) o e (first_items-IsUnrun j)))))))))

    handled-AtMost :
        (trap : Option Trap)
        → Post AtMost (exec_trap S I plugin taken set_permissions limit db trap oid command channel)
    unfolding exec_trap AtMost
    handled-AtMost none = omega arith
    handled-AtMost (some trap) =
        Post-elim AtMost (wanted_oid S I (some trap) oid) _ _ (omega arith) (λ trap_oid.
          Post-bind AtMost (find_command S I db trap_oid command) _ (λ found.
            Post-elim AtMost found _ _ (omega arith) (λ f.
              Post-if AtMost (not (set_permissions f.1)) _ _ (omega arith) (
                Post-bind AtMost (job_of S I command f.0 f.2 trap) _ (λ job.
                  Post-elim AtMost job _ _ (omega arith) (λ j.
                    Post-then IsUnrun AtMost (first_items S I db j) _ (first_items-IsUnrun j)
                      (λ o h. from_start-AtMost j o h)))))))

    -- On tables that have been loaded, from whatever rows, the handling of a trap never runs out of
    -- fuel, whatever the plugins print and whatever further runs their results ask for: it comes to
    -- its end, or to a fault of the program.
    pub exec_trap-Ends :
        (is_daemon : Bool) (rows : Rows) (trap : Option Trap)
        → db_init S I is_daemon rows ≡ ok db
        → Ends (exec_trap S I plugin taken set_permissions limit db trap oid command channel)
    exec_trap-Ends is_daemon rows trap e = handled (db_init-IsChained S I is_daemon rows db e) trap

    -- The handling of a trap runs at most one plugin more than the limit of the settings, however
    -- many items the plugins put on the stack.
    pub exec_trap-bounded :
        (trap : Option Trap) (done : Bool) (runs : ℕ) (out : Channel)
        → exec_trap S I plugin taken set_permissions limit db trap oid command channel
          ≡ ok (done, runs, out)
        → runs ≤ limit + 1
    unfolding AtMost
    exec_trap-bounded trap done runs out e =
        Post-ok AtMost
          (exec_trap S I plugin taken set_permissions limit db trap oid command channel)
          (done, runs, out) e (handled-AtMost trap)
