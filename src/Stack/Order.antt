-- ===== src/Stack/Order.antt =====
-- The stack is last in, first out, and its counter follows the chain.
use nagios_snmp.Base.{
  ℕ, zero, suc, ◌+◌, ◌-◌, false, List, [], ◌∷◌, ◌++◌, none, some, Result, ok, fault, length,
  length-append, length-reverse, ◌↔◌, ◌≡◌, ◌⊎◌, inl, inr, refl, ap, ◌∙◌, arith, append_assoc,
}
use mathlib.Core.List.{reverse, reverse-cons}
use nagios_snmp.Stack.{Stack, stack_free, free_top, free_items, stack_push, pop_item}

module _ {ℓ} {A : Type ℓ} where
  -- The counter is the length of the chain.
  abbrev pub IsCounted : Stack A → Type 0
  IsCounted s = s.depth ≡ length s.top

  -- Pushes a list, its head first.
  pub push_all : Stack A → List A → Stack A
  push_all s [] = s
  push_all s (x ∷ xs) = elim (stack_push (some s) x).1 [ none ↦ s | some t ↦ push_all t xs ]

  -- Pops `n` times: what comes off, in order, and the stack that is left.
  pub pop_all : ℕ → Stack A → Result (List A × Stack A)
  pop_all zero s = ok ([], s)
  pop_all (suc n) s = elim (pop_item s) [
    | ok (none, t) ↦ ok ([], t)
    | ok (some x, t) ↦ elim (pop_all n t) [ ok (xs, u) ↦ ok (x ∷ xs, u) | fault e ↦ fault e ]
    | fault e ↦ fault e
  ]

  -- A pop of a counted stack: nothing comes off an empty one, and the top of any other.
  abbrev pub Pops : Stack A → Type ℓ
  Pops s =
      ((s.top ≡ []) × (pop_item s ≡ ok (none, s)))
      ⊎ ((x : A) × (t : Stack A) × (pop_item s ≡ ok (some x, t))
          × (s.top ≡ x ∷ t.top)
          × IsCounted t
          × (t.executions ≡ s.executions))

  pop_item_cons :
      (s : Stack A) (x : A) (xs : List A)
      → s.top ≡ x ∷ xs
      → IsCounted s
      → pop_item s ≡ ok (some x, record s { top = xs; depth = s.depth - 1 })
  unfolding pop_item
  pop_item_cons s x xs e h = ground (arith, ap length e)

  pop_item_cases : (s : Stack A) (xs : List A) → s.top ≡ xs → IsCounted s → Pops s
  unfolding pop_item
  pop_item_cases s [] e h = inl (e, ground (arith, ap length e))
  pop_item_cases s (x ∷ xs) e h = inr (
    x,
    record s { top = xs; depth = s.depth - 1 },
    pop_item_cons s x xs e h,
    e,
    omega (arith, ap length e),
    refl,
  )

  -- A pop of a stack whose counter is right reads within the chain: an empty stack stays as it is,
  -- and otherwise the top comes off, the counter of what is left is right, and the runs are kept.
  pub pop_item-Pops : (s : Stack A) → IsCounted s → Pops s
  pop_item-Pops s h = pop_item_cases s s.top refl h

  pub push_all_lem :
      (xs : List A) (s : Stack A)
      → push_all s xs ≡ record s { top = reverse xs ++ s.top; depth = s.depth + length xs }
  unfolding push_all stack_push
  push_all_lem [] s = ground arith
  push_all_lem (x ∷ xs) s =
      let pushed = record s { top = x ∷ s.top; depth = s.depth + 1 } in
      let order : reverse (x ∷ xs) ++ s.top ≡ reverse xs ++ x ∷ s.top =
        rw reverse-cons (append_assoc (reverse xs) (x ∷ []) s.top) in
      push_all_lem xs pushed ∙ rw order (ground arith)

  pub pop_all_lem :
      (ys zs : List A) (s : Stack A)
      → s.top ≡ ys ++ zs
      → IsCounted s
      → pop_all (length ys) s ≡ ok (ys, record s { top = zs; depth = s.depth - length ys })
  unfolding pop_all
  pop_all_lem [] zs s e h = ground arith
  pop_all_lem (y ∷ ys) zs s e h =
      let popped = record s { top = ys ++ zs; depth = s.depth - 1 } in
      let counted : popped.depth ≡ length popped.top = omega (arith, ap length e) in
      ground (arith, pop_item_cons s y (ys ++ zs) e h, pop_all_lem ys zs popped refl counted)

  -- On a stack whose counter is right, what was pushed comes off in the opposite order, and then the
  -- stack is as it was: no pop reads past the end of the chain.
  pub pop_all-push_all :
      (xs : List A) (s : Stack A)
      → IsCounted s
      → pop_all (length xs) (push_all s xs) ≡ ok (reverse xs, s)
  pop_all-push_all xs s h =
      let pushed = record s { top = reverse xs ++ s.top; depth = s.depth + length xs } in
      let long = length-reverse xs in
      let counted : pushed.depth ≡ length pushed.top =
        omega (arith, long, length-append (reverse xs) s.top) in
      let back : s.depth + length xs - length xs ≡ s.depth = omega arith in
      ground
        (arith, push_all_lem xs s, long, back, pop_all_lem (reverse xs) s.top pushed refl counted)

  free_items_id : (xs : List A) → free_items xs ≡ xs
  unfolding free_items
  free_items_id [] = refl
  free_items_id (x ∷ xs) = ap (◌∷◌ x) (free_items_id xs)

  free_top_lem :
      (xs : List A) → ((free_top xs).destroyed ≡ xs) × (((free_top xs).freed ≡ false) ↔ (xs ≡ []))
  unfolding free_top
  free_top_lem [] = (refl, ((λ _. refl), λ _. refl))
  free_top_lem (x ∷ xs) = (free_items_id (x ∷ xs), ((λ e. cc), λ e. cc))

  -- `stack_free` destroys every item once, from the top, and frees the stack exactly when there is
  -- an item: an empty stack stays allocated.
  pub stack_free_lem :
      (s : Stack A)
      → ((stack_free (some s)).destroyed ≡ s.top)
        × (((stack_free (some s)).freed ≡ false) ↔ (s.top ≡ []))
  unfolding stack_free
  stack_free_lem s = free_top_lem s.top
