-- ===== src/Exec/Finished.antt =====
-- The loop of `exec_trap` comes to its end, whatever the plugins print.
use nagios_snmp.Base.{
  ℕ, zero, suc, ◌+◌, ◌≤◌, Bool, false, not, List, [], ◌∷◌, Option, none, some, Bytes, CString,
  equal, Result, ok, ltb, ◌==◌, deref, ◌≡◌, arith,
}
use nagios_snmp.Base.Int.{ℤ}
use nagios_snmp.Base.Ends.{Ends, Ends-ok, Ends-bind, Ends-elim, Ends-if, Ends-deref}
use nagios_snmp.Base.Post.{Post-ok}
use nagios_snmp.Util.{is_empty, remove_chars}
use nagios_snmp.Stack.{
  Stack, pop_item, unlink, stack_get_data, stack_increment_executions, stack_count_executions,
}
use nagios_snmp.Channel.{Channel}
use nagios_snmp.Db.Tables.{HashTable}
use nagios_snmp.Db.{
  same_int, Db, deref_in, db_extract_host_address, db_extract_host_name, db_extract_svc_desc,
}
use nagios_snmp.Db.Chains.{IsChained}
use nagios_snmp.Execlist.{Kind, ExecItem, execlist_build}
use nagios_snmp.Execlist.Walk.{Ends-deref_in}
use nagios_snmp.Execlist.Built.{Ends-extract_address, Ends-extract_name, execlist_build-Ends}
use nagios_snmp.Exec.{
  ExecResult, Fields, field_loop, separate, r_started, no_fields, fill, fill_fields, result_of,
  parse_result_str,
}
use nagios_snmp.Exec.Run.{
  push_execlist, exec_command, Job, line_loop, stack_run, do_output, exec_loop,
}
use nagios_snmp.Exec.Bounded.{after_list, stack_run-Counts, Counts}
use nagios_snmp.Exec.Output.{Ends-do_output}

Ends-unlink : (s : Stack ExecItem) (xs : List ExecItem) → Ends (unlink s xs)
unfolding unlink
Ends-unlink s [] e = cc
Ends-unlink s (x ∷ xs) e = cc

Ends-pop_item : (s : Stack ExecItem) → Ends (pop_item s)
unfolding pop_item
Ends-pop_item s = Ends-if (s.depth == 0) _ _ (Ends-ok _) (Ends-unlink s s.top)

Ends-fill :
    (field : CString) (p : Option ℕ) (found : Result CString)
    → Ends found
    → Ends (fill field p found)
Ends-fill field none found h = Ends-ok field
Ends-fill field (some p) found h =
    Ends-if (is_empty field) _ _ (Ends-bind found _ h (λ v _. Ends-ok _)) (Ends-ok field)

-- `E`, where there is a value.
abbrev Known {ℓ} : {A : Type ℓ} → Type 0 → Option A → Type 0
Known E none = Unit
Known E (some a) = E

Ends-Known {ℓ κ} :
    {A : Type ℓ} {B : Type κ} (E : Type 0) (o : Option A) (m : Result B) (f : A → Result B)
    → Known E o
    → Ends m
    → ((a : A) → E → Ends (f a))
    → Ends (elim o [ none ↦ m | some a ↦ f a ])
Ends-Known E none m f k h g = h
Ends-Known E (some a) m f k h g = g a k

Ends-after_list :
    (s : Stack ExecItem) (items : List ExecItem)
    (rest : Stack ExecItem → Result (Stack ExecItem × Option ExecResult))
    → ((t : Stack ExecItem) → Ends (rest t))
    → Ends (after_list rest s items)
Ends-after_list s [] rest h = Ends-ok _
Ends-after_list s (i ∷ is) rest h =
    Ends-if (push_execlist s (i ∷ is)).0 _ _ (h (push_execlist s (i ∷ is)).1) (Ends-ok _)

module _ (S : HashTable Bytes equal) (I : HashTable ℤ same_int) (db : Db S I) where
  Ends-svc_desc : (p : Option ℕ) → Ends (db_extract_svc_desc S I db p)
  unfolding db_extract_svc_desc
  Ends-svc_desc none = Ends-ok none
  Ends-svc_desc (some p) =
      Ends-bind (deref_in db.svcs p) _ (Ends-deref_in db.svcs p) (λ _ _. Ends-ok _)

  Ends-fill_fields : (host svc : Option ℕ) (r : ExecResult) → Ends (fill_fields S I db host svc r)
  unfolding fill_fields
  Ends-fill_fields host svc r = Ends-if (not r.is_complete) _ _ (Ends-ok r) (
      Ends-if (not r.is_service) _ _
        (Ends-bind (fill r.host_address host (db_extract_host_address S I db host none)) _
          (Ends-fill r.host_address host _ (Ends-extract_address S I db host none))
          (λ a _.
            Ends-bind (fill r.host_name host (db_extract_host_name S I db host none)) _
              (Ends-fill r.host_name host _ (Ends-extract_name S I db host none))
              (λ n _. Ends-ok _)))
        (Ends-bind (fill r.host_address svc (db_extract_host_address S I db none svc)) _
          (Ends-fill r.host_address svc _ (Ends-extract_address S I db none svc))
          (λ a _.
            Ends-bind (fill r.host_name svc (db_extract_host_name S I db none svc)) _
              (Ends-fill r.host_name svc _ (Ends-extract_name S I db none svc))
              (λ n _.
                Ends-bind (fill r.svc_desc svc (db_extract_svc_desc S I db svc)) _
                  (Ends-fill r.svc_desc svc _ (Ends-svc_desc svc)) (λ d _. Ends-ok _)))))

  Ends-result_of :
      (k : Kind) (host svc : Option ℕ) (use_sender_address : Bool) (f : Fields)
      → Ends (result_of S I db k host svc use_sender_address f)
  unfolding result_of
  Ends-result_of k host svc use_sender_address f =
      Ends-bind (deref f.ret_value) _ (Ends-deref f.ret_value) (λ ret _.
        Ends-bind (deref f.svc_id) _ (Ends-deref f.svc_id) (λ id _. Ends-fill_fields host svc _))

  Ends-parse_result_str :
      (s : CString) (k : Kind) (host svc : Option ℕ) (use_sender_address : Bool)
      → Ends (parse_result_str S I db s k host svc use_sender_address)
  unfolding parse_result_str
  Ends-parse_result_str s k host svc use_sender_address =
      Ends-elim (remove_chars s (b'\n' ∷ b'\r' ∷ [])) _ _ (Ends-ok none) (λ line.
        Ends-bind
          (result_of S I db k host svc use_sender_address
            (field_loop r_started no_fields (separate line)))
          _
          (Ends-result_of k host svc use_sender_address
            (field_loop r_started no_fields (separate line)))
          (λ r _. Ends-ok _))

  module _ (chained : IsChained S I db) (job : Job) where
    Ends-line_loop :
        (item : ExecItem) (lines : List Bytes) (s : Stack ExecItem) (last : Option ExecResult)
        → Ends (line_loop S I db job item s last lines)
    unfolding line_loop
    Ends-line_loop item [] s last = Ends-ok _
    Ends-line_loop item (line ∷ lines) s last =
        Ends-bind
          (parse_result_str S I db (some line) item.is_service item.host item.svc
            job.use_sender_address)
          _
          (Ends-parse_result_str (some line) item.is_service item.host item.svc
            job.use_sender_address)
          (λ parsed _.
            Ends-elim parsed _ _ (λ e. cc)
              (λ r. Ends-if r.is_complete _ _ (Ends-ok _) (
                Ends-bind
                  (execlist_build S I db job.command job.cmd_id job.use_sender_address
                    job.sender_address r.host_address r.host_name)
                  _
                  (execlist_build-Ends S I db chained job.cmd_id job.use_sender_address job.command
                    job.sender_address r.host_address r.host_name)
                  (λ items _.
                    Ends-after_list s items (λ t. line_loop S I db job item t (some r) lines)
                      (λ t. Ends-line_loop item lines t (some r))))))

    Ends-stack_run :
        (plugin : ℕ → Bytes → List Bytes) (limit : ℕ) (s : Stack ExecItem)
        → Ends (stack_run S I plugin limit db job s)
    unfolding stack_run
    Ends-stack_run plugin limit s = Ends-if (ltb limit (stack_count_executions s)) _ _ (Ends-ok _) (
        Ends-bind (pop_item (stack_increment_executions s)) _
          (Ends-pop_item (stack_increment_executions s))
          (λ popped _.
            Ends-elim (stack_get_data popped.0) _ _ (λ e. cc)
              (λ item.
                Ends-bind
                  (line_loop S I db job item popped.1 none
                    (exec_command plugin s.executions item.command job.trap_contents))
                  _
                  (Ends-line_loop item
                    (exec_command plugin s.executions item.command job.trap_contents) popped.1 none)
                  (λ run _. Ends-ok _))))

    pub Ends-exec_loop :
        (fuel : ℕ) (plugin : ℕ → Bytes → List Bytes) (taken : ℕ → Bool) (limit : ℕ)
        (s : Stack ExecItem) (channel : Channel)
        → s.executions ≤ limit + 1
        → limit + 2 ≤ fuel + s.executions
        → Ends (exec_loop S I fuel plugin taken limit db job s channel)
    unfolding exec_loop
    Ends-exec_loop zero plugin taken limit s channel h k = absurd (omega arith)
    Ends-exec_loop (suc fuel) plugin taken limit s channel h k =
        Ends-if (s.depth == 0) _ _ (Ends-ok _) (
          Ends-bind (stack_run S I plugin limit db job s) _ (Ends-stack_run plugin limit s)
            (λ run e.
              let counts =
                Post-ok (Counts S I db job limit s) (stack_run S I plugin limit db job s) run e
                  (stack_run-Counts S I db job plugin limit s h) in
              Ends-Known (run.0.executions ≡ s.executions + 1) run.1 (ok (false, run.0, channel)) _
                counts.1 (Ends-ok _)
                (λ r j.
                  Ends-bind (do_output S I (taken s.executions) db r channel) _
                    (Ends-do_output S I db chained (taken s.executions) r channel)
                    (λ out _.
                      Ends-exec_loop fuel plugin taken limit run.0 out.1 counts.0
                        (omega (arith, j, k))))))
