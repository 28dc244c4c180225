-- ===== src/Diagnostics/ReadBack.antt =====
-- A dump is read back as its keys and values.
use nagios_snmp.Base.{
  ℕ, zero, suc, ◌+◌, ◌-◌, ◌≤◌, ◌<◌, true, false, List, [], ◌∷◌, ◌++◌, map, none, some, Bytes,
  CString, has, flush, tokens_from, tokens, ok, lt→leb_false, ◌==◌, length, length-append, take,
  take-append, replicate, All, All-append, All-map, All-replicate, ◌≡◌, ◌≢◌, refl, ap, arith,
  append-nil, append_assoc, ◌∙◌,
}
use nagios_snmp.Base.Stdio.{until_nul}
use nagios_snmp.Trap.Parse.Tokens.{unwords}
use nagios_snmp.Diagnostics.{cell}
use nagios_snmp.Diagnostics.Rows.{line_of, render}
use nagios_snmp.Diagnostics.Pool.{
  KeyValue, measure, split_at, split_key_value, split_lines, parse_diagnostics, filesize, read_dump,
}

-- A word of a dump: it holds no NUL, blank or line end.
abbrev pub IsToken : Bytes → Type 0
IsToken w = (w ≢ []) × All (λ c. has c (0 ∷ b' ' ∷ b'\n' ∷ []) ≡ false) w

-- A key of words with one blank between two.
abbrev pub IsKey : Bytes → Type 0
IsKey k = (w : Bytes) × (ws : List Bytes) × All IsToken (w ∷ ws) × (k ≡ unwords (w ∷ ws))

-- Behind the key at least one blank has room.
abbrev pub IsRow : ℕ → Bytes × Bytes → Type 0
IsRow padding p = IsKey p.0 × (length p.0 < padding) × IsToken p.1

tokens_from-plain :
    (d : ℕ) (u w rest : Bytes)
    → All (λ c. (c == d) ≡ false) w
    → tokens_from d u (w ++ rest) ≡ tokens_from d (u ++ w) rest
unfolding tokens_from
tokens_from-plain d u [] rest h = rw append-nil
tokens_from-plain d u (c ∷ w) rest h =
    ground (arith, tokens_from-plain d (u ++ c ∷ []) w rest h.1, append_assoc u (c ∷ []) w)

flush-token : (w : Bytes) → w ≢ [] → flush w ≡ w ∷ []
flush-token [] h = absurd (h refl)
flush-token (c ∷ w) h = refl

tokens_from-ended :
    (d : ℕ) (w s : Bytes)
    → w ≢ []
    → All (λ c. (c == d) ≡ false) w
    → tokens_from d [] (w ++ d ∷ s) ≡ w ∷ tokens_from d [] s
tokens_from-ended d w s ne h =
    tokens_from-plain d [] w (d ∷ s) h
    ∙ unfold tokens_from in
      (let same : (d == d) ≡ true = ground arith in
        rw same (ap (λ (u : List Bytes). u ++ tokens_from d [] s) (flush-token w ne)))

not_blank : (c : ℕ) → has c (0 ∷ b' ' ∷ b'\n' ∷ []) ≡ false → (c == b' ') ≡ false
not_blank c h = ground arith

token_blank : (w : Bytes) → IsToken w → All (λ c. (c == b' ') ≡ false) w
token_blank w h =
    All-map (λ c. has c (0 ∷ b' ' ∷ b'\n' ∷ []) ≡ false) (λ c. (c == b' ') ≡ false) not_blank w h.1

tokens_from-unwords :
    (w : Bytes) (ws : List Bytes) (s : Bytes)
    → All IsToken (w ∷ ws)
    → tokens_from b' ' [] (unwords (w ∷ ws) ++ b' ' ∷ s) ≡ (w ∷ ws) ++ tokens_from b' ' [] s
tokens_from-unwords w [] s h = tokens_from-ended b' ' w s h.0.0 (token_blank w h.0)
tokens_from-unwords w (v ∷ ws) s h =
    ap (tokens_from b' ' []) (append_assoc w (b' ' ∷ unwords (v ∷ ws)) (b' ' ∷ s))
    ∙ tokens_from-ended b' ' w (unwords (v ∷ ws) ++ b' ' ∷ s) h.0.0 (token_blank w h.0)
    ∙ ap (◌∷◌ w) (tokens_from-unwords v ws s h.1)

tokens_from-blanks :
    (n : ℕ) (s : Bytes) → tokens_from b' ' [] (replicate n b' ' ++ s) ≡ tokens_from b' ' [] s
unfolding tokens_from
tokens_from-blanks zero s = refl
tokens_from-blanks (suc n) s = tokens_from-blanks n s

tokens_from-last : (v : Bytes) → IsToken v → tokens_from b' ' [] v ≡ v ∷ []
tokens_from-last v h =
    (rw append-nil at (tokens_from-plain b' ' [] v [] (token_blank v h)))
    ∙ unfold tokens_from in flush-token v h.0

take-replicate_le : (m n c : ℕ) → m ≤ n → take m (replicate n c) ≡ replicate m c
take-replicate_le zero n c h = refl
take-replicate_le (suc m) zero c h = absurd (omega arith)
take-replicate_le (suc m) (suc n) c h = ap (◌∷◌ c) (take-replicate_le m n c (omega arith))

take-append_more : (k : Bytes) (m : ℕ) (s : Bytes) → take (length k + m) (k ++ s) ≡ k ++ take m s
take-append_more [] m s = ap (λ (n : ℕ). take n s) (omega arith)
take-append_more (d ∷ k) m s =
    let e : length (d ∷ k) + m ≡ suc (length k + m) = omega arith in
    ap (λ (n : ℕ). take n (d ∷ k ++ s)) e ∙ ap (◌∷◌ d) (take-append_more k m s)

cell-blanks :
    (padding : ℕ) (k : Bytes)
    → length k < padding
    → cell padding k ≡ k ++ b' ' ∷ replicate (padding - length k - 1) b' '
unfolding cell
cell-blanks padding k h =
    let m = padding - length k - 1 in
    let e : padding ≡ length k + suc m = omega arith in
    ap (λ n. take n (k ++ replicate padding b' ')) e
    ∙ take-append_more k (suc m) (replicate padding b' ')
    ∙ ap (◌++◌ k) (take-replicate_le (suc m) padding b' ' (omega arith))

tokens-line :
    (padding : ℕ) (p : Bytes × Bytes) (w : Bytes) (ws : List Bytes)
    → All IsToken (w ∷ ws)
    → p.0 ≡ unwords (w ∷ ws)
    → length p.0 < padding
    → IsToken p.1
    → tokens b' ' (line_of padding p) ≡ (w ∷ ws) ++ p.1 ∷ []
unfolding tokens
tokens-line padding p w ws h e k v =
    let blanks = replicate (padding - length p.0 - 1) b' ' in
    ap (λ s. tokens_from b' ' [] (s ++ p.1)) (cell-blanks padding p.0 k)
    ∙ ap (tokens_from b' ' []) (append_assoc p.0 (b' ' ∷ blanks) p.1)
    ∙ ap (λ s. tokens_from b' ' [] (s ++ b' ' ∷ (blanks ++ p.1))) e
    ∙ tokens_from-unwords w ws (blanks ++ p.1) h
    ∙ ap ((w ∷ ws) ++◌) (tokens_from-blanks (padding - length p.0 - 1) p.1 ∙ tokens_from-last p.1 v)

measure-unwords :
    (n : ℕ) (prev : CString) (w : Bytes) (ws : List Bytes) (v : Bytes)
    → measure n prev ((w ∷ ws) ++ v ∷ [])
      ≡ (n + (length (unwords (w ∷ ws)) + 1) + (length v + 1), some v)
unfolding measure
measure-unwords n prev w [] v = refl
measure-unwords n prev w (u ∷ ws) v =
    measure-unwords (n + (length w + 1)) (some w) u ws v
    ∙ ap (λ (k : ℕ). (k, some v)) (omega (arith, length-append w (b' ' ∷ unwords (u ∷ ws))))

split_at-key :
    (buffer key v rest : Bytes) (keylen : ℕ)
    → keylen ≡ length key + 1 + (length v + 1)
    → buffer ≡ key ++ rest
    → split_at buffer keylen (some v) ≡ ok (record { key = key; value = v })
unfolding split_at
split_at-key buffer key v rest keylen e f =
    let n : keylen - (length v + 1) ≡ suc (length key) = omega (arith, e) in
    let m : suc (length key) - 1 ≡ length key = omega arith in
    let more : (suc (length key) == 0) ≡ false = ground arith in
    let cut : take (length key) buffer ≡ key = ap (take (length key)) f ∙ take-append key rest in
    rw n (rw more (rw m (rw cut refl)))

abbrev pub item_of : Bytes × Bytes → KeyValue
item_of p = record { key = p.0; value = p.1 }

measured :
    (key words : Bytes) (n : ℕ)
    → key ≡ words
    → 0 + (length words + 1) + (n + 1) ≡ length key + 1 + (n + 1)
measured key words n e = omega (arith, ap length e)

split_key_value-line :
    (padding : ℕ) (p : Bytes × Bytes)
    → IsRow padding p
    → split_key_value (line_of padding p) ≡ ok (item_of p)
unfolding split_key_value
split_key_value-line padding p h =
    let blanks : Bytes = replicate (padding - length p.0 - 1) b' ' in
    let words = unwords (h.0.0 ∷ h.0.1) in
    rw (tokens-line padding p h.0.0 h.0.1 h.0.2 h.0.3 h.1 h.2) (
      rw (measure-unwords 0 none h.0.0 h.0.1 p.1) (
        split_at-key (line_of padding p) p.0 p.1 (b' ' ∷ (blanks ++ p.1))
          (0 + (length words + 1) + (length p.1 + 1)) (measured p.0 words (length p.1) h.0.3)
          (ap (λ s. s ++ p.1) (cell-blanks padding p.0 h.1)
            ∙ append_assoc p.0 (b' ' ∷ blanks) p.1)))

clean_token : (c : ℕ) → has c (0 ∷ b' ' ∷ b'\n' ∷ []) ≡ false → has c (0 ∷ b'\n' ∷ []) ≡ false
clean_token c h = ground arith

-- A line holds no NUL and no line end.
abbrev IsClean : Bytes → Type 0
IsClean s = All (λ c. has c (0 ∷ b'\n' ∷ []) ≡ false) s

IsToken-IsClean : (w : Bytes) → IsToken w → IsClean w
IsToken-IsClean w h =
    All-map (λ c. has c (0 ∷ b' ' ∷ b'\n' ∷ []) ≡ false) (λ c. has c (0 ∷ b'\n' ∷ []) ≡ false)
      clean_token w h.1

unwords-IsClean : (ws : List Bytes) → All IsToken ws → IsClean (unwords ws)
unwords-IsClean [] h = tt
unwords-IsClean (w ∷ []) h = IsToken-IsClean w h.0
unwords-IsClean (w ∷ v ∷ ws) h =
    All-append (λ c. has c (0 ∷ b'\n' ∷ []) ≡ false) w (b' ' ∷ unwords (v ∷ ws))
      (IsToken-IsClean w h.0) (refl, unwords-IsClean (v ∷ ws) h.1)

blanks-IsClean : (n : ℕ) → IsClean (replicate n b' ')
blanks-IsClean n = All-replicate (λ c. has c (0 ∷ b'\n' ∷ []) ≡ false) n b' ' refl

line_of-IsClean : (padding : ℕ) (p : Bytes × Bytes) → IsRow padding p → IsClean (line_of padding p)
line_of-IsClean padding p h =
    let key : IsClean p.0 = rw h.0.3 (unwords-IsClean (h.0.0 ∷ h.0.1) h.0.2) in
    let whole =
      All-append (λ c. has c (0 ∷ b'\n' ∷ []) ≡ false) p.0
        (b' ' ∷ replicate (padding - length p.0 - 1) b' ') key
        (refl, blanks-IsClean (padding - length p.0 - 1)) in
    All-append (λ c. has c (0 ∷ b'\n' ∷ []) ≡ false) (cell padding p.0) p.1
      (rw (cell-blanks padding p.0 h.1) whole) (IsToken-IsClean p.1 h.2)

append-ne-nil : (u w : Bytes) → w ≢ [] → u ++ w ≢ []
append-ne-nil [] w h = h
append-ne-nil (c ∷ u) w h = λ e. cc

not_newline : (c : ℕ) → has c (0 ∷ b'\n' ∷ []) ≡ false → (c == b'\n') ≡ false
not_newline c h = ground arith

tokens-render :
    (padding : ℕ) (ps : List (Bytes × Bytes))
    → All (IsRow padding) ps
    → tokens b'\n' (render padding ps) ≡ map (line_of padding) ps
unfolding tokens
tokens-render padding [] h = unfold tokens_from in refl
tokens-render padding (p ∷ ps) h =
    tokens_from-ended b'\n' (line_of padding p) (render padding ps)
      (append-ne-nil (cell padding p.0) p.1 h.0.2.0)
      (All-map (λ c. has c (0 ∷ b'\n' ∷ []) ≡ false) (λ c. (c == b'\n') ≡ false) not_newline
        (line_of padding p) (line_of-IsClean padding p h.0))
    ∙ ap (◌∷◌ (line_of padding p)) (tokens-render padding ps h.1)

split_lines-render :
    (padding : ℕ) (ps : List (Bytes × Bytes))
    → All (IsRow padding) ps
    → split_lines (map (line_of padding) ps) ≡ ok (map item_of ps)
unfolding split_lines
split_lines-render padding [] h = refl
split_lines-render padding (p ∷ ps) h =
    rw (split_key_value-line padding p h.0) (rw (split_lines-render padding ps h.1) refl)

pub parse_diagnostics-render :
    (padding : ℕ) (ps : List (Bytes × Bytes))
    → All (IsRow padding) ps
    → parse_diagnostics (render padding ps) ≡ ok (map item_of ps)
unfolding parse_diagnostics
parse_diagnostics-render padding ps h =
    ap split_lines (tokens-render padding ps h) ∙ split_lines-render padding ps h

until_nul-line : (s t : Bytes) → IsClean s → until_nul (s ++ b'\n' ∷ t) ≡ s ++ b'\n' ∷ until_nul t
unfolding until_nul
until_nul-line [] t h = refl
until_nul-line (c ∷ s) t h = ground (arith, until_nul-line s t h.1)

until_nul-render :
    (padding : ℕ) (ps : List (Bytes × Bytes))
    → All (IsRow padding) ps
    → until_nul (render padding ps) ≡ render padding ps
unfolding until_nul
until_nul-render padding [] h = refl
until_nul-render padding (p ∷ ps) h =
    until_nul-line (line_of padding p) (render padding ps) (line_of-IsClean padding p h.0)
    ∙ ap (λ t. line_of padding p ++ b'\n' ∷ t) (until_nul-render padding ps h.1)

pub read_dump-render :
    (padding : ℕ) (ps : List (Bytes × Bytes))
    → All (IsRow padding) ps
    → length (render padding ps) < filesize
    → read_dump (render padding ps) ≡ ok (map item_of ps)
unfolding read_dump
read_dump-render padding ps h k =
    rw (lt→leb_false filesize (length (render padding ps)) k)
      (ap parse_diagnostics (until_nul-render padding ps h) ∙ parse_diagnostics-render padding ps h)
