-- ===== src/Stack.antt =====
-- src/stack.c: the stack of plugins that wait to run. The chain from `top` is a list, its head the
-- top; `bottom` stays NULL in the source and is left out. `none` is a NULL stack. `depth` is the
-- source's counter, kept apart from the chain, and does not overflow an `int` here.
pub mod Order
use nagios_snmp.Base.{
  ℕ, ◌+◌, ◌-◌, Bool, true, false, List, [], ◌∷◌, Option, none, some, Result, ok, fault, null_deref,
  ◌==◌, if◌then◌else◌,
}

pub record Stack {ℓ} (A : Type ℓ) : Type ℓ where
  pub top : List A
  pub depth : ℕ
  pub executions : ℕ

-- What `stack_free` gives to the destructor, in order, and whether it frees the stack itself.
pub record Freed {ℓ} (A : Type ℓ) : Type ℓ where
  pub destroyed : List A
  pub freed : Bool

module _ {ℓ} {A : Type ℓ} where
  unfoldable pub stack_init : Stack A
  stack_init = record { top = []; depth = 0; executions = 0 }

  unfoldable pub stack_increment_executions : Stack A → Stack A
  stack_increment_executions s = record s { executions = s.executions + 1 }

  unfoldable pub stack_count_executions : Stack A → ℕ
  stack_count_executions s = s.executions

  -- The loop over the chain.
  free_items : List A → List A
  free_items [] = []
  free_items (x ∷ next) = x ∷ free_items next

  free_top : List A → Freed A
  unfolding free_items
  free_top [] = record { destroyed = []; freed = false }
  free_top (x ∷ next) = record { destroyed = free_items (x ∷ next); freed = true }

  unfoldable pub stack_free : Option (Stack A) → Freed A
  unfolding free_top
  stack_free none = record { destroyed = []; freed = false }
  stack_free (some s) = free_top s.top

  -- `none` is the result -1.
  unfoldable pub stack_get_depth : Option (Stack A) → Option ℕ
  stack_get_depth none = none
  stack_get_depth (some s) = some s.depth

  -- The result is 1, or 0 for a NULL stack; the assertion on the depth holds of every number.
  unfoldable pub stack_push : Option (Stack A) → A → ℕ × Option (Stack A)
  stack_push none x = (0, none)
  stack_push (some s) x = (1, some (record s { top = x ∷ s.top; depth = s.depth + 1 }))

  -- `stack->top->next`, read of a chain that may be empty.
  unfoldable pub unlink : Stack A → List A → Result (Option A × Stack A)
  unlink s [] = fault null_deref
  unlink s (x ∷ next) = ok (some x, record s { top = next; depth = s.depth - 1 })

  -- The guard and the body of `stack_pop` on a stack that is not NULL.
  unfoldable pub pop_item : Stack A → Result (Option A × Stack A)
  unfolding unlink
  pop_item s = if s.depth == 0 then ok (none, s) else unlink s s.top

  -- The item that comes off, or NULL, and the stack.
  unfoldable pub stack_pop : Option (Stack A) → Result (Option A × Option (Stack A))
  unfolding pop_item
  stack_pop none = ok (none, none)
  stack_pop (some s) = elim (pop_item s) [ ok (x, t) ↦ ok (x, some t) | fault e ↦ fault e ]

  -- The datum of an item; NULL for a NULL item.
  unfoldable pub stack_get_data : Option A → Option A
  stack_get_data none = none
  stack_get_data (some x) = some x
