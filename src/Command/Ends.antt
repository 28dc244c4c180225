-- ===== src/Command/Ends.antt =====
-- The expansion of macros never runs out of fuel: it has none.
use nagios_snmp.Base.{
  ℕ, ◌+◌, true, false, [], ◌∷◌, ◌++◌, none, some, Bytes, CString, codes, equal, Result, ok, fault,
  overflow, leb, ◌==◌, if◌then◌else◌, length,
}
use nagios_snmp.Base.Ends.{Ends, Ends-ok, Ends-bind, Ends-then, Ends-if}
use nagios_snmp.Command.{
  Expander, ExpandStatus, normal, possible_macro, check_bound, grow, reserve, append_bytes, paste,
  expand_char, expand_end, expand_loop, fresh_expander, expand_command_internal, expand_hook_2,
  command_expand_2,
}

Ends-check_bound : (n m : ℕ) → Ends (check_bound n m)
Ends-check_bound n m = elim (leb n m) as (λ b. Ends (if b then ok tt else fault overflow)) [
  | true ↦ λ e. cc
  | false ↦ λ e. cc
]

Ends-append_bytes : (s : Bytes) (e : Expander) → Ends (append_bytes s e)
unfolding append_bytes
Ends-append_bytes s e =
    Ends-then (check_bound (length e.buffer + length s) e.buflen) _ (Ends-check_bound _ _)
      (Ends-ok _)

Ends-paste : (e : Expander) (macro : Bytes) (value : CString) → Ends (paste e macro value)
unfolding paste
Ends-paste e macro none = Ends-append_bytes macro (reserve (length e.macrobuffer) e)
Ends-paste e macro (some v) = Ends-append_bytes v (reserve (length v) e)

Ends-expand_end : (st : ExpandStatus) (e : Expander) → Ends (expand_end st e)
unfolding expand_end
Ends-expand_end normal e =
    Ends-then (check_bound (length e.buffer + 1) e.buflen) _ (Ends-check_bound _ _) (Ends-ok _)
Ends-expand_end possible_macro e =
    Ends-bind (append_bytes e.macrobuffer (reserve (length e.macrobuffer) e)) _
      (Ends-append_bytes _ _)
      (λ f _.
        Ends-then (check_bound (length f.buffer + 1) f.buflen) _ (Ends-check_bound _ _) (Ends-ok _))

module _ (hook : Bytes → Result CString) (hook_ends : (m : Bytes) → Ends (hook m)) where
  Ends-expand_char : (st : ExpandStatus) (e : Expander) (c : ℕ) → Ends (expand_char hook st e c)
  unfolding expand_char
  Ends-expand_char normal e c =
      Ends-if (c == b'$') _ _
        (Ends-then (check_bound 1 e.macrobuflen) _ (Ends-check_bound _ _) (Ends-ok _))
        (Ends-append_bytes (c ∷ []) e)
  Ends-expand_char possible_macro e c =
      Ends-if (c == b'$') _ _
        (Ends-then (check_bound (length e.macrobuffer + 2) e.macrobuflen) _ (Ends-check_bound _ _) (
          Ends-bind (hook (e.macrobuffer ++ c ∷ [])) _ (hook_ends _)
            (λ v _. Ends-paste (record e { status = normal }) (e.macrobuffer ++ c ∷ []) v)))
        (Ends-then (check_bound (length e.macrobuffer + 1) e.macrobuflen) _ (Ends-check_bound _ _)
          (Ends-ok _))

  Ends-expand_loop : (e : Expander) (s : Bytes) → Ends (expand_loop hook e s)
  unfolding expand_loop
  Ends-expand_loop e [] = Ends-expand_end e.status e
  Ends-expand_loop e (c ∷ s) =
      Ends-bind (expand_char hook e.status (grow e) c) _ (Ends-expand_char e.status (grow e) c)
        (λ f _. Ends-expand_loop f s)

  pub Ends-expand_command_internal :
      (command : CString) → Ends (expand_command_internal hook command)
  unfolding expand_command_internal
  Ends-expand_command_internal none = Ends-ok none
  Ends-expand_command_internal (some command) =
      Ends-bind (expand_loop hook fresh_expander command) _
        (Ends-expand_loop fresh_expander command) (λ _ _. Ends-ok _)

pub Ends-command_expand_2 :
    (command host_address sender_address : CString)
    → Ends (command_expand_2 command host_address sender_address)
unfolding command_expand_2 expand_hook_2
Ends-command_expand_2 command host_address sender_address =
    Ends-expand_command_internal (expand_hook_2 host_address sender_address)
      (λ m.
        Ends-if (equal m (codes "$HOSTADDRESS$")) _ _ (Ends-ok _)
          (Ends-if (equal m (codes "$SENDERADDRESS$")) _ _ (Ends-ok _) (Ends-ok _)))
      command
