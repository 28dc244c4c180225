-- ===== src/Diagnostics/Rows.antt =====
-- The rows of a dump, and the room that the buffer has for them.
use nagios_snmp.Base.{
  ℕ, ◌+◌, ◌-◌, ◌≤◌, ◌<◌, false, List, [], ◌∷◌, ◌++◌, Bytes, Result, ok, ◌>>=◌, lt→ltb, ◌==◌, length,
  length-append, length-replicate, take, take-append, length-take_le, replicate, All, ◌≡◌, refl, ap,
  sym, arith, append-nil, append_assoc, ◌∙◌,
}
use nagios_snmp.Diagnostics.{tmpbuflen, Dump, row_size, fresh_dump, cell, grown, put_row, end_dump}

abbrev pub line_of : ℕ → Bytes × Bytes → Bytes
line_of padding p = cell padding p.0 ++ p.1

abbrev pub render : ℕ → List (Bytes × Bytes) → Bytes
render padding [] = []
render padding (p ∷ ps) = line_of padding p ++ b'\n' ∷ render padding ps

-- A key that leaves a blank, and a value that is no longer than any number.
abbrev pub Fits : ℕ → Bytes × Bytes → Type 0
Fits padding p = (length p.0 < padding) × (padding + length p.1 + 1 < tmpbuflen)

pub length-cell : (padding : ℕ) (key : Bytes) → length (cell padding key) ≡ padding
unfolding cell
length-cell padding key = length-take_le padding (key ++ replicate padding 0x20) (
    omega
      (arith, length-append key (replicate padding 0x20), length-replicate {A = ℕ} padding 0x20))

abbrev HasRoom : Dump → Type 0
HasRoom d = length d.text + tmpbuflen ≤ d.buflen

abbrev behind : ℕ → Bytes × Bytes → Dump → Dump
behind padding p d = record {
  buflen = d.buflen + (tmpbuflen + row_size padding p.1);
  text = d.text ++ (cell padding p.0 ++ (p.1 ++ b'\n' ∷ []));
}

length-row :
    (padding : ℕ) (p : Bytes × Bytes) (d : Dump)
    → length (behind padding p d).text ≡ length d.text + row_size padding p.1
length-row padding p d = omega (
  arith,
  length-append d.text (cell padding p.0 ++ (p.1 ++ b'\n' ∷ [])),
  length-append (cell padding p.0) (p.1 ++ b'\n' ∷ []),
  length-append p.1 (b'\n' ∷ []),
  length-cell padding p.0,
)

behind-HasRoom :
    (padding : ℕ) (p : Bytes × Bytes) (d : Dump) → HasRoom d → HasRoom (behind padding p d)
behind-HasRoom padding p d h = omega (arith, length-row padding p d)

pub put_row-behind :
    (padding : ℕ) (p : Bytes × Bytes) (d : Dump)
    → Fits padding p
    → HasRoom d
    → put_row padding p.0 p.1 d ≡ ok (behind padding p d)
unfolding put_row grown
put_row-behind padding p d h k = ground arith

-- The loop of both programs over keys and values.
abbrev pub put_rows : ℕ → List (Bytes × Bytes) → Dump → Result Dump
put_rows padding [] d = ok d
put_rows padding (p ∷ ps) d = put_row padding p.0 p.1 d >>= put_rows padding ps

abbrev all_behind : ℕ → List (Bytes × Bytes) → Dump → Dump
all_behind padding [] d = d
all_behind padding (p ∷ ps) d = all_behind padding ps (behind padding p d)

put_rows_done :
    (padding : ℕ) (ps : List (Bytes × Bytes)) (d : Dump)
    → All (Fits padding) ps
    → HasRoom d
    → put_rows padding ps d ≡ ok (all_behind padding ps d)
put_rows_done padding [] d h k = refl
put_rows_done padding (p ∷ ps) d h k =
    rw (put_row-behind padding p d h.0 k)
      (put_rows_done padding ps (behind padding p d) h.1 (behind-HasRoom padding p d k))

all_behind-HasRoom :
    (padding : ℕ) (ps : List (Bytes × Bytes)) (d : Dump)
    → HasRoom d
    → HasRoom (all_behind padding ps d)
all_behind-HasRoom padding [] d h = h
all_behind-HasRoom padding (p ∷ ps) d h =
    all_behind-HasRoom padding ps (behind padding p d) (behind-HasRoom padding p d h)

all_behind-render :
    (padding : ℕ) (ps : List (Bytes × Bytes)) (d : Dump)
    → (all_behind padding ps d).text ≡ d.text ++ render padding ps
all_behind-render padding [] d = sym (append-nil d.text)
all_behind-render padding (p ∷ ps) d =
    all_behind-render padding ps (behind padding p d)
    ∙ append_assoc d.text (cell padding p.0 ++ (p.1 ++ b'\n' ∷ [])) (render padding ps)
    ∙ ap (◌++◌ d.text) (
        append_assoc (cell padding p.0) (p.1 ++ b'\n' ∷ []) (render padding ps)
        ∙ ap (◌++◌ (cell padding p.0)) (append_assoc p.1 (b'\n' ∷ []) (render padding ps))
        ∙ sym (append_assoc (cell padding p.0) p.1 (b'\n' ∷ render padding ps)))

-- A text that ends in a line end has one behind its last byte but one.
abbrev IsEnded : Bytes → Type 0
IsEnded t = (s : Bytes) × (t ≡ s ++ b'\n' ∷ [])

render-IsEnded :
    (padding : ℕ) (p : Bytes × Bytes) (ps : List (Bytes × Bytes))
    → IsEnded (render padding (p ∷ ps))
render-IsEnded padding p [] = (line_of padding p, refl)
render-IsEnded padding p (q ∷ ps) =
    let rest = render-IsEnded padding q ps in
    (
      line_of padding p ++ b'\n' ∷ rest.0,
      ap (λ t. line_of padding p ++ b'\n' ∷ t) rest.1
          ∙ sym (append_assoc (line_of padding p) (b'\n' ∷ rest.0) (b'\n' ∷ [])),
    )

end_dump-ended :
    (t s : Bytes) (d : Dump) → d.text ≡ t → t ≡ s ++ b'\n' ∷ [] → HasRoom d → end_dump d ≡ ok t
unfolding end_dump
end_dump-ended t s d e f room =
    let whole = e ∙ f in
    let long = ap length whole ∙ length-append s (b'\n' ∷ []) in
    let cut : take (length d.text - 1) d.text ≡ s =
      ap (λ n. take n d.text) (omega (arith, long))
      ∙ ap (take (length s)) whole
      ∙ take-append s (b'\n' ∷ []) in
    let some_bytes : (length d.text == 0) ≡ false = ground (arith, long) in
    rw some_bytes (
      rw (lt→ltb (length d.text) d.buflen (omega (arith, room)))
        (ap (λ u. ok (u ++ b'\n' ∷ [])) cut ∙ ap ok (sym f)))

-- From the first row to the last byte.
pub put_rows-end_dump :
    (padding : ℕ) (p : Bytes × Bytes) (ps : List (Bytes × Bytes))
    → All (Fits padding) (p ∷ ps)
    → (put_rows padding (p ∷ ps) fresh_dump >>= end_dump) ≡ ok (render padding (p ∷ ps))
unfolding fresh_dump
put_rows-end_dump padding p ps h =
    let ended = render-IsEnded padding p ps in
    let room = all_behind-HasRoom padding (p ∷ ps) fresh_dump (omega arith) in
    rw (put_rows_done padding (p ∷ ps) fresh_dump h (omega arith)) (
      end_dump-ended (render padding (p ∷ ps)) ended.0 (all_behind padding (p ∷ ps) fresh_dump)
        (all_behind-render padding (p ∷ ps) fresh_dump) ended.1 room)
