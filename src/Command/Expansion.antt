-- ===== src/Command/Expansion.antt =====
-- The loop of `expand_command_internal` against a description by the pieces between the dollars.
use nagios_snmp.Base.{
  ℕ, ◌≤◌, ◌<◌, true, false, List, [], ◌∷◌, ◌++◌, none, some, Bytes, CString, Result, ok, ◌==◌,
  if◌then◌else◌, length, length-append, ◌≡◌, refl, sym, ap, ◌∙◌, arith, append_assoc, append-nil,
  Bool-cases, inl, inr,
}
use nagios_snmp.Command.{
  ExpandStatus, normal, possible_macro, Expander, grow, reserve, append_bytes, paste, expand_char,
  expand_end, expand_loop, fresh_expander, expand_command_internal,
}

-- The text up to the first dollar, and the pieces behind it.
unfoldable pub head_piece : Bytes → Bytes
head_piece [] = []
head_piece (c ∷ s) = if c == b'$' then [] else c ∷ head_piece s

unfoldable pub tail_pieces : Bytes → List Bytes
tail_pieces [] = []
tail_pieces (c ∷ s) = if c == b'$' then head_piece s ∷ tail_pieces s else tail_pieces s

-- The value of the macro `$m$`, and its text where it has none.
abbrev pub meaning : (Bytes → CString) → Bytes → Bytes
meaning value m = elim (value (b'$' ∷ (m ++ b'$' ∷ []))) [
  | some v ↦ v
  | none ↦ b'$' ∷ (m ++ b'$' ∷ [])
]

-- The pieces behind a first one: a macro and a text in turn, and at the end perhaps a dollar alone.
abbrev pub expand_pieces : (Bytes → CString) → List Bytes → Bytes
expand_pieces value [] = []
expand_pieces value (m ∷ []) = b'$' ∷ m
expand_pieces value (m ∷ p ∷ ps) = meaning value m ++ (p ++ expand_pieces value ps)

-- The whole expansion.
abbrev pub expansion : (Bytes → CString) → Bytes → Bytes
expansion value s = head_piece s ++ expand_pieces value (tail_pieces s)

-- The macros that are closed have names of at most 125 bytes.
abbrev pub AreShort : List Bytes → Type 0
AreShort [] = Unit
AreShort (m ∷ []) = Unit
AreShort (m ∷ p ∷ ps) = (length m ≤ 125) × AreShort ps

record Roomy (e : Expander) : Type 0 where
  wide : 1024 ≤ e.buflen
  macro_wide : 128 ≤ e.macrobuflen
  inside : length e.buffer ≤ e.buflen
  macro_in : length e.macrobuffer ≤ e.macrobuflen

grow-Roomy : (e : Expander) → Roomy e → Roomy (grow e)
unfolding grow
grow-Roomy e r = ground arith

status-Roomy : (e : Expander) (s : ExpandStatus) → Roomy e → Roomy (record e { status = s })
status-Roomy e s r = ground arith

grow_macro : (e : Expander) → Roomy e → length e.macrobuffer < (grow e).macrobuflen
unfolding grow
grow_macro e r = ground arith

-- One round of the loop that neither faults nor spoils the sizes.
record Rounds (hook : Bytes → Result CString) (e : Expander) (c : ℕ) (status : ExpandStatus)
    (written macro : Bytes) : Type 0 where
  next : Expander
  runs : expand_char hook e.status (grow e) c ≡ ok next
  roomy : Roomy next
  status_is : next.status ≡ status
  buffer_is : next.buffer ≡ e.buffer ++ written
  macro_is : next.macrobuffer ≡ macro

-- What `paste` copies, and how much room it asks for.
abbrev pasted : Bytes → CString → Bytes
pasted mb (some v) = v
pasted mb none = mb ++ b'$' ∷ []

abbrev pasted_size : Bytes → CString → ℕ
pasted_size mb (some v) = length v
pasted_size mb none = length mb

after_paste : Expander → CString → Expander
after_paste g v = record (reserve (pasted_size g.macrobuffer v) g) {
  buffer = g.buffer ++ pasted g.macrobuffer v;
}

after_paste-Roomy : (g : Expander) (v : CString) → Roomy g → Roomy (after_paste g v)
unfolding after_paste reserve
after_paste-Roomy g (some v) r = ground (arith, length-append g.buffer v)
after_paste-Roomy g none r = ground (
  arith,
  length-append g.macrobuffer (b'$' ∷ []),
  length-append g.buffer (g.macrobuffer ++ b'$' ∷ []),
)

paste_lem :
    (g : Expander) (v : CString)
    → Roomy g
    → paste g (g.macrobuffer ++ b'$' ∷ []) v ≡ ok (after_paste g v)
unfolding after_paste paste reserve append_bytes
paste_lem g (some v) r = ground arith
paste_lem g none r = ground (arith, length-append g.macrobuffer (b'$' ∷ []))

module _ (value : Bytes → CString) (e : Expander) (c : ℕ) (r : Roomy e) where
  step_text :
      e.status ≡ normal
      → (c == b'$') ≡ false
      → Rounds (λ m. ok (value m)) e c normal (c ∷ []) e.macrobuffer
  unfolding expand_char append_bytes grow
  step_text s h = record {
    next = record (grow e) { buffer = e.buffer ++ c ∷ [] };
    runs = ground arith;
    roomy = ground (arith, length-append e.buffer (c ∷ []));
    status_is = s;
    buffer_is = refl;
    macro_is = refl;
  }

  step_open :
      e.status ≡ normal
      → (c == b'$') ≡ true
      → Rounds (λ m. ok (value m)) e c possible_macro [] (b'$' ∷ [])
  unfolding expand_char append_bytes grow
  step_open s h = record {
    next = record (grow e) { status = possible_macro; macrobuffer = c ∷ [] };
    runs = ground arith;
    roomy = ground arith;
    status_is = refl;
    buffer_is = sym (append-nil e.buffer);
    macro_is = ground arith;
  }

  step_name :
      e.status ≡ possible_macro
      → (c == b'$') ≡ false
      → Rounds (λ m. ok (value m)) e c possible_macro [] (e.macrobuffer ++ c ∷ [])
  unfolding expand_char append_bytes grow
  step_name s h = record {
    next = record (grow e) { macrobuffer = e.macrobuffer ++ c ∷ [] };
    runs = ground arith;
    roomy = ground (arith, length-append e.macrobuffer (c ∷ []));
    status_is = s;
    buffer_is = sym (append-nil e.buffer);
    macro_is = refl;
  }

  step_close :
      e.status ≡ possible_macro
      → (c == b'$') ≡ true
      → length e.macrobuffer ≤ 126
      → Rounds
          (λ m. ok (value m))
          e
          c
          normal
          (pasted e.macrobuffer (value (e.macrobuffer ++ b'$' ∷ [])))
          e.macrobuffer
  unfolding expand_char grow after_paste reserve
  step_close s h b =
      let g = record (grow e) { status = normal } in
      let v = value (e.macrobuffer ++ b'$' ∷ []) in
      let rg : Roomy g = status-Roomy (grow e) normal (grow-Roomy e r) in
      record {
        next = after_paste g v;
        runs = ground (arith, paste_lem g v rg);
        roomy = after_paste-Roomy g v rg;
        status_is = refl;
        buffer_is = refl;
        macro_is = refl;
      }

run_round :
    (hook : Bytes → Result CString) (e : Expander) (c : ℕ) (s : Bytes) {status : ExpandStatus}
    {written macro : Bytes} (r : Rounds hook e c status written macro)
    → expand_loop hook e (c ∷ s) ≡ expand_loop hook r.next s
unfolding expand_loop
run_round hook e c s r = rw r.runs

end_normal :
    (hook : Bytes → Result CString) (e : Expander) (out : Bytes)
    → Roomy e
    → e.status ≡ normal
    → out ≡ e.buffer ++ []
    → length out < 1024
    → expand_loop hook e [] ≡ ok out
unfolding expand_loop expand_end
end_normal hook e out r s h b = ground (arith, append-nil e.buffer)

end_macro :
    (hook : Bytes → Result CString) (e : Expander) (out : Bytes)
    → Roomy e
    → e.status ≡ possible_macro
    → out ≡ e.buffer ++ e.macrobuffer
    → length out < 1024
    → expand_loop hook e [] ≡ ok out
unfolding expand_loop expand_end append_bytes reserve
end_macro hook e out r s h b = ground (arith, length-append e.buffer e.macrobuffer)

pasted_with :
    (mb m : Bytes) (v : CString)
    → mb ≡ b'$' ∷ m
    → pasted mb v ≡ elim v [ some w ↦ w | none ↦ b'$' ∷ (m ++ b'$' ∷ []) ]
pasted_with mb m (some w) e = refl
pasted_with mb m none e = rw e

pasted-meaning :
    (value : Bytes → CString) (mb m : Bytes)
    → mb ≡ b'$' ∷ m
    → pasted mb (value (mb ++ b'$' ∷ [])) ≡ meaning value m
pasted-meaning value mb m e = pasted_with mb m (value (mb ++ b'$' ∷ [])) e ∙ rw e

name_fits :
    (m p mb : Bytes) (ps : List Bytes)
    → AreShort ((m ++ []) ∷ p ∷ ps)
    → mb ≡ b'$' ∷ m
    → length mb ≤ 126
name_fits m p mb ps short e = omega (arith, short.0, ap length e, ap length (append-nil m))

AreShort-tail : (m p : Bytes) (ps : List Bytes) → AreShort (m ∷ p ∷ ps) → AreShort ps
AreShort-tail m p ps short = short.1

module _ (value : Bytes → CString) where
  mutual
    unfolding head_piece tail_pieces

    loop_normal :
        (s : Bytes) (e : Expander) (out : Bytes)
        → Roomy e
        → e.status ≡ normal
        → out ≡ e.buffer ++ expansion value s
        → length out < 1024
        → AreShort (tail_pieces s)
        → expand_loop (λ m. ok (value m)) e s ≡ ok out
    loop_normal [] e out r st h b short = end_normal (λ m. ok (value m)) e out r st h b
    loop_normal (c ∷ s) e out r st h b short = elim (Bool-cases (c == b'$')) [
      | inl d ↦
          let n = step_open value e c r st d in
          run_round (λ m. ok (value m)) e c s n
          ∙ loop_macro s n.next [] out n.roomy n.status_is n.macro_is
              (ground (arith, n.buffer_is, append-nil e.buffer)) b (rw d at short)
      | inr d ↦
          let n = step_text value e c r st d in
          run_round (λ m. ok (value m)) e c s n
          ∙ loop_normal s n.next out n.roomy n.status_is
              (ground (arith, n.buffer_is, append_assoc e.buffer (c ∷ []) (expansion value s))) b
              (rw d at short)
    ]

    loop_macro :
        (s : Bytes) (e : Expander) (m out : Bytes)
        → Roomy e
        → e.status ≡ possible_macro
        → e.macrobuffer ≡ b'$' ∷ m
        → out ≡ e.buffer ++ expand_pieces value ((m ++ head_piece s) ∷ tail_pieces s)
        → length out < 1024
        → AreShort ((m ++ head_piece s) ∷ tail_pieces s)
        → expand_loop (λ m. ok (value m)) e s ≡ ok out
    loop_macro [] e m out r st mb h b short =
        end_macro (λ m. ok (value m)) e out r st (ground (arith, append-nil m)) b
    loop_macro (c ∷ s) e m out r st mb h b short = elim (Bool-cases (c == b'$')) [
      | inl d ↦
          let n =
            step_close value e c r st d
              (name_fits m (head_piece s) e.macrobuffer (tail_pieces s) (rw d at short) mb) in
          run_round (λ m. ok (value m)) e c s n
          ∙ loop_normal s n.next out n.roomy n.status_is
              (ground (
                arith,
                n.buffer_is,
                append-nil m,
                pasted-meaning value e.macrobuffer m mb,
                append_assoc e.buffer (meaning value m) (expansion value s),
              ))
              b (AreShort-tail (m ++ []) (head_piece s) (tail_pieces s) (rw d at short))
      | inr d ↦
          let n = step_name value e c r st d in
          run_round (λ m. ok (value m)) e c s n
          ∙ loop_macro s n.next (m ++ c ∷ []) out n.roomy n.status_is (n.macro_is ∙ rw mb)
              (ground
                (arith, n.buffer_is, append-nil e.buffer, append_assoc m (c ∷ []) (head_piece s)))
              b (rw (append_assoc m (c ∷ []) (head_piece s)) (rw d at short))
    ]

  -- Where the closed macros have short names and the result has less than 1,024 bytes, the expansion
  -- ends with no fault, and each macro between two dollars is replaced by its value, or stays where
  -- it has none; a dollar with no partner is copied.
  pub expand-expansion :
      (s : Bytes)
      → length (expansion value s) < 1024
      → AreShort (tail_pieces s)
      → expand_command_internal (λ m. ok (value m)) (some s) ≡ ok (some (expansion value s))
  unfolding expand_command_internal
  expand-expansion s b short = rw (
      loop_normal s fresh_expander (expansion value s)
        (record {
          wide = omega arith;
          macro_wide = omega arith;
          inside = omega arith;
          macro_in = omega arith;
        })
        refl refl b short)
