-- ===== src/Command/Boundary.antt =====
-- The end of the expansion's buffer.
use nagios_snmp.Base.{
  ℕ, ◌+◌, ◌≤◌, ◌<◌, false, [], ◌∷◌, ◌++◌, some, Bytes, CString, Result, ok, fault, overflow, ◌>>=◌,
  ltb, ◌==◌, if◌then◌else◌, has, length, length-append, ◌≡◌, ap, ◌∙◌, arith, append-nil,
  append_assoc,
}
use nagios_snmp.Command.{
  Expander, normal, grow, append_bytes, expand_char, expand_end, expand_loop, fresh_expander,
  expand_command_internal,
}

-- The state behind `n` plain bytes, for a buffer of `size`.
abbrev filled : ℕ → Bytes → Expander
filled size s = record fresh_expander { buffer = s; buflen = size }

plain_step :
    (hook : Bytes → Result CString) (size c : ℕ) (b : Bytes)
    → length b < size
    → (c == b'$') ≡ false
    → expand_char hook normal (grow (filled size b)) c ≡ ok (filled size (b ++ c ∷ []))
unfolding expand_char grow append_bytes
plain_step hook size c b room ne = ground arith

plain_loop :
    (hook : Bytes → Result CString) (size : ℕ) (b s : Bytes)
    → has b'$' s ≡ false
    → length b + length s ≤ size
    → expand_loop hook (filled size b) s
      ≡ (if ltb (length b + length s) size then ok (b ++ s) else fault overflow)
unfolding expand_loop expand_end
plain_loop hook size b [] h room = rw append-nil (ground arith)
plain_loop hook size b (c ∷ s) h room =
    let long = length-append b (c ∷ []) in
    ap (λ r. r >>= λ f. expand_loop hook f s)
      (plain_step hook size c b (omega arith) (ground arith))
    ∙ plain_loop hook size (b ++ c ∷ []) s (ground arith) (omega arith)
    ∙ rw (append_assoc b (c ∷ []) s) (ground (arith, long))

-- A command line with no dollar, of at most 1,024 bytes, is its own expansion where it has less, and
-- with 1,024 the terminating NUL is written one byte past the buffer.
pub expand-plain :
    (hook : Bytes → Result CString) (s : Bytes)
    → has b'$' s ≡ false
    → length s ≤ 1024
    → expand_command_internal hook (some s)
      ≡ (if ltb (length s) 1024 then ok (some s) else fault overflow)
unfolding expand_command_internal
expand-plain hook s h room =
    ap (λ r. r >>= λ b. ok (some b)) (plain_loop hook 1024 [] s h (omega arith)) ∙ ground arith
