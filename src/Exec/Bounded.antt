-- ===== src/Exec/Bounded.antt =====
-- The runs of a trap end, and the limit bounds them.
use nagios_snmp.Base.{
  ℕ, zero, suc, ◌+◌, ◌≤◌, Bool, List, [], ◌∷◌, Option, none, some, Bytes, CString, equal, Result,
  ok, ltb, ltb_false→le, ◌==◌, if◌then◌else◌, ◌≡◌, refl, ◌∙◌, arith, Bool-cases, Option-cases, inl,
  inr,
}
use nagios_snmp.Base.Int.{ℤ}
use nagios_snmp.Base.Post.{Post, Post-bind, Post-elim, Post-then, Post-if, Post-mono}
use nagios_snmp.Stack.{
  Stack, stack_push, pop_item, unlink, stack_increment_executions, stack_count_executions,
  stack_get_data,
}
use nagios_snmp.Channel.{Channel}
use nagios_snmp.Db.Tables.{HashTable}
use nagios_snmp.Db.{same_int, Db}
use nagios_snmp.Execlist.{Kind, ExecItem, execlist_build}
use nagios_snmp.Exec.{ExecResult, parse_result_str}
use nagios_snmp.Exec.Run.{
  push_execitem, push_execlist, exec_command, Job, line_loop, stack_run, do_output, exec_loop,
}

pub push_execitem-executions :
    (s : Stack ExecItem) (command : CString) (k : Kind) (host svc : Option ℕ)
    → (push_execitem s command k host svc).executions ≡ s.executions
unfolding push_execitem stack_push
push_execitem-executions s none k host svc = refl
push_execitem-executions s (some c) k host svc = refl

pub push_execlist-executions :
    (items : List ExecItem) (s : Stack ExecItem)
    → ((push_execlist s items).1).executions ≡ s.executions
unfolding push_execlist
push_execlist-executions [] s = refl
push_execlist-executions (i ∷ items) s = elim (Option-cases i.command) [
  | inl e ↦ rw (push_execlist, e) refl
  | inr (c, e) ↦
      rw (push_execlist, e)
        (push_execlist-executions items (push_execitem s (some c) i.is_service i.host i.svc)
          ∙ push_execitem-executions s (some c) i.is_service i.host i.svc)
]

-- A pop keeps the count of the runs.
unlink-executions :
    (s : Stack ExecItem) (xs : List ExecItem)
    → Post (λ r. r.1.executions ≡ s.executions) (unlink s xs)
unfolding unlink
unlink-executions s [] = tt
unlink-executions s (x ∷ xs) = refl

pop_item-executions : (s : Stack ExecItem) → Post (λ r. r.1.executions ≡ s.executions) (pop_item s)
unfolding pop_item
pop_item-executions s =
    Post-if _ (s.depth == 0) (ok (none, s)) (unlink s s.top) refl (unlink-executions s s.top)

-- What follows a line whose result is not complete, with `rest` for the other lines.
abbrev pub after_list :
    (Stack ExecItem → Result (Stack ExecItem × Option ExecResult))
    → Stack ExecItem
    → List ExecItem
    → Result (Stack ExecItem × Option ExecResult)
after_list rest s [] = ok (s, none)
after_list rest s (i ∷ is) =
    let pushed = push_execlist s (i ∷ is) in if pushed.0 then rest pushed.1 else ok (pushed.1, none)

after_list-executions :
    (rest : Stack ExecItem → Result (Stack ExecItem × Option ExecResult)) (s : Stack ExecItem)
    (items : List ExecItem)
    → ((t : Stack ExecItem) → Post (λ r. r.0.executions ≡ t.executions) (rest t))
    → Post (λ r. r.0.executions ≡ s.executions) (after_list rest s items)
after_list-executions rest s [] h = refl
after_list-executions rest s (i ∷ is) h =
    let same = push_execlist-executions (i ∷ is) s in
    Post-if (λ r. r.0.executions ≡ s.executions) (push_execlist s (i ∷ is)).0
      (rest (push_execlist s (i ∷ is)).1) (ok ((push_execlist s (i ∷ is)).1, none))
      (Post-mono _ (λ r. r.0.executions ≡ s.executions) (rest (push_execlist s (i ∷ is)).1)
        (λ r e. e ∙ same) (h (push_execlist s (i ∷ is)).1))
      same

module _ (S : HashTable Bytes equal) (I : HashTable ℤ same_int) (db : Db S I) (job : Job) where
  pub line_loop-executions :
      (item : ExecItem) (lines : List Bytes) (s : Stack ExecItem) (last : Option ExecResult)
      → Post (λ r. r.0.executions ≡ s.executions) (line_loop S I db job item s last lines)
  unfolding line_loop
  line_loop-executions item [] s last = refl
  line_loop-executions item (line ∷ lines) s last =
      Post-bind _
        (parse_result_str S I db (some line) item.is_service item.host item.svc
          job.use_sender_address)
        _
        (λ parsed. Post-elim _ parsed _ _ tt (λ r. Post-if _ r.is_complete _ _ refl (
          Post-bind _
            (execlist_build S I db job.command job.cmd_id job.use_sender_address job.sender_address
              r.host_address r.host_name)
            _
            (λ items.
              after_list-executions (λ t. line_loop S I db job item t (some r) lines) s items
                (λ t. line_loop-executions item lines t (some r))))))

  -- A run counts once, and there is none past the limit.
  abbrev pub Counts : ℕ → Stack ExecItem → (Stack ExecItem × Option ExecResult) → Type 0
  Counts limit s r =
      (r.0.executions ≤ limit + 1)
      × elim r.1 [ none ↦ Unit | some _ ↦ r.0.executions ≡ s.executions + 1 ]

  stamped-Counts :
      (limit : ℕ) (s t : Stack ExecItem) (o : Option ExecResult) (n : ℕ)
      → s.executions ≤ limit
      → t.executions ≡ s.executions + 1
      → Counts limit s (t, elim o [ none ↦ none | some r ↦ some (record r { timestamp = n }) ])
  stamped-Counts limit s t none n h e = (omega arith, tt)
  stamped-Counts limit s t (some r) n h e = (omega arith, e)

  pub stack_run-Counts :
      (plugin : ℕ → Bytes → List Bytes) (limit : ℕ) (s : Stack ExecItem)
      → s.executions ≤ limit + 1
      → Post (Counts limit s) (stack_run S I plugin limit db job s)
  unfolding stack_run stack_increment_executions stack_count_executions
  stack_run-Counts plugin limit s h = elim (Bool-cases (ltb limit s.executions)) [
    | inl e ↦ rw (stack_run, e) (h, tt)
    | inr e ↦
        rw (stack_run, e)
          (Post-then (λ r. r.1.executions ≡ s.executions + 1) (Counts limit s)
            (pop_item (record s { executions = s.executions + 1 })) _
            (pop_item-executions (record s { executions = s.executions + 1 }))
            (λ popped k. Post-elim (Counts limit s) (stack_get_data popped.0) _ _ tt (λ item.
              Post-then (λ r. r.0.executions ≡ popped.1.executions) (Counts limit s)
                (line_loop S I db job item popped.1 none
                  (exec_command plugin s.executions item.command job.trap_contents))
                _
                (line_loop-executions item
                  (exec_command plugin s.executions item.command job.trap_contents) popped.1 none)
                (λ run j.
                  stamped-Counts limit s run.0 run.1 job.trap_timestamp (ltb_false→le _ _ e)
                    (j ∙ k)))))
  ]

  -- However many items plugins ask for, the loop runs at most one plugin more than the limit says.
  pub exec_loop-bounded :
      (fuel : ℕ) (plugin : ℕ → Bytes → List Bytes) (taken : ℕ → Bool) (limit : ℕ)
      (s : Stack ExecItem) (channel : Channel)
      → s.executions ≤ limit + 1
      → Post
          (λ r. r.1.executions ≤ limit + 1)
          (exec_loop S I fuel plugin taken limit db job s channel)
  unfolding exec_loop
  exec_loop-bounded zero plugin taken limit s channel h = tt
  exec_loop-bounded (suc fuel) plugin taken limit s channel h = Post-if _ (s.depth == 0) _ _ h (
      Post-then (Counts limit s) _ (stack_run S I plugin limit db job s) _
        (stack_run-Counts plugin limit s h)
        (λ run k. Post-elim _ run.1 _ _ k.0 (λ r.
          Post-bind _ (do_output S I (taken s.executions) db r channel) _
            (λ out. exec_loop-bounded fuel plugin taken limit run.0 out.1 k.0))))
