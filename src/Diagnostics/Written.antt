-- ===== src/Diagnostics/Written.antt =====
-- The dump of a worker: its rows, all of them in the buffer.
use nagios_snmp.Base.{
  ℕ, ◌+◌, ◌*◌, ◌≤◌, ◌<◌, false, List, [], ◌∷◌, map, Bytes, equal, ok, ◌>>=◌, ltb, if◌then◌else◌,
  length, length-append, All, ◌≡◌, refl, ap, arith, Bool-cases, inl, inr,
}
use nagios_snmp.Diagnostics.{
  Dump, fresh_dump, cell, put_row, Real, Readings, Row, padding_from, diagnostics_get_padding,
  printed_value, prepare_from, diagnostics_prepare_write,
}
use nagios_snmp.Diagnostics.Rows.{line_of, render, Fits, length-cell, put_rows, put_rows-end_dump}
use nagios_snmp.Diagnostics.ReadBack.{IsToken, IsKey, IsRow}

-- What the code relies on of `printf`: a number is one word, and has at most 320 bytes.
pub record Prints (R : Real) : Type 0 where
  pub long_token : (x : R.Double) → IsToken (R.show_long x) × (length (R.show_long x) ≤ 320)
  pub float_token : (x : R.Double) → IsToken (R.show_float x) × (length (R.show_float x) ≤ 320)
  pub double_token : (x : R.Double) → IsToken (R.show_double x) × (length (R.show_double x) ≤ 320)

abbrev pub IsPrinted : Bytes → Type 0
IsPrinted s = IsToken s × (length s ≤ 320)

module _ (R : Real) where
  abbrev pub Differ : Row R → List (Row R) → Type 0
  Differ d es = All (λ e. equal e.key d.key ≡ false) es

  abbrev pub IsDistinct : List (Row R) → Type 0
  IsDistinct [] = Unit
  IsDistinct (d ∷ ds) = Differ d ds × IsDistinct ds

  -- A table whose keys are words, no two alike, and not too long.
  pub record IsTable (ds : List (Row R)) : Type 0 where
    pub keys : All (λ d. IsKey d.key) ds
    pub distinct : IsDistinct ds
    pub narrow : diagnostics_get_padding R ds < 700

  padding_from-le : (p : ℕ) (ds : List (Row R)) → p + 8 ≤ padding_from R p ds
  unfolding padding_from
  padding_from-le p [] = omega arith
  padding_from-le p (d ∷ ds) =
      ground (arith, padding_from-le (if ltb p (length d.key) then length d.key else p) ds)

  padding_from-keys : (p : ℕ) (ds : List (Row R)) → All (λ d. length d.key < padding_from R p ds) ds
  unfolding padding_from
  padding_from-keys p [] = tt
  padding_from-keys p (d ∷ ds) =
      let q = if ltb p (length d.key) then length d.key else p in
      (ground (arith, padding_from-le q ds), padding_from-keys q ds)

  pub keys_narrow : (ds : List (Row R)) → All (λ d. length d.key < diagnostics_get_padding R ds) ds
  unfolding diagnostics_get_padding
  keys_narrow ds = padding_from-keys 0 ds

  pub printed_value-IsPrinted :
      Prints R → (d : Row R) (x : R.Double) → IsPrinted (printed_value R d x)
  unfolding printed_value
  printed_value-IsPrinted h d x = elim (Bool-cases d.integer) [
    | inl e ↦ rw e (h.long_token x)
    | inr e ↦ rw e (h.float_token x)
  ]

  abbrev pub pairs_of : List (Row R) → Readings → List (Bytes × Bytes)
  pairs_of ds r = map (λ d. (d.key, printed_value R d (d.hook r))) ds

  prepare_from-put_rows :
      (padding : ℕ) (r : Readings) (ds : List (Row R)) (dump : Dump)
      → prepare_from R padding r ds dump ≡ put_rows padding (pairs_of ds r) dump
  unfolding prepare_from
  prepare_from-put_rows padding r [] dump = refl
  prepare_from-put_rows padding r (d ∷ ds) dump =
      ap (λ f. put_row padding d.key (printed_value R d (d.hook r)) dump >>= f)
        (λ i next. prepare_from-put_rows padding r ds next i)

  pub pairs-Fits :
      (padding : ℕ) (r : Readings) (ds : List (Row R))
      → Prints R
      → padding < 700
      → All (λ d. length d.key < padding) ds
      → All (Fits padding) (pairs_of ds r)
  pairs-Fits padding r [] h k l = tt
  pairs-Fits padding r (d ∷ ds) h k l =
      let short = (printed_value-IsPrinted h d (d.hook r)).1 in
      ((l.0, omega (arith, short)), pairs-Fits padding r ds h k l.1)

  pub pairs-IsRow :
      (padding : ℕ) (r : Readings) (ds : List (Row R))
      → Prints R
      → All (λ d. IsKey d.key) ds
      → All (λ d. length d.key < padding) ds
      → All (IsRow padding) (pairs_of ds r)
  pairs-IsRow padding r [] h k l = tt
  pairs-IsRow padding r (d ∷ ds) h k l =
      ((k.0, l.0, (printed_value-IsPrinted h d (d.hook r)).0), pairs-IsRow padding r ds h k.1 l.1)

  pub length-render :
      (padding : ℕ) (ps : List (Bytes × Bytes))
      → All (Fits padding) ps
      → length (render padding ps) ≤ length ps * 1024
  length-render padding [] h = omega arith
  length-render padding (p ∷ ps) h = omega (
    arith,
    length-append (line_of padding p) (b'\n' ∷ render padding ps),
    length-append (cell padding p.0) p.1,
    length-cell padding p.0,
    length-render padding ps h.1,
  )

  -- The buffer of a dump has room for every row, although it grows by the test that the row would
  -- fit: what is written is the rows of the table in their order, each with its key, blanks up to
  -- the padding, and its value. The table has a row, its keys are words and no two alike, its padding
  -- is less than 700, and a number is printed as one word of at most 320 bytes.
  pub diagnostics_prepare_write-render :
      (d : Row R) (ds : List (Row R)) (r : Readings)
      → Prints R
      → IsTable (d ∷ ds)
      → diagnostics_prepare_write R (d ∷ ds) r
        ≡ ok (render (diagnostics_get_padding R (d ∷ ds)) (pairs_of (d ∷ ds) r))
  unfolding diagnostics_prepare_write
  diagnostics_prepare_write-render d ds r h t =
      let padding = diagnostics_get_padding R (d ∷ ds) in
      rw (prepare_from-put_rows padding r (d ∷ ds) fresh_dump) (
        put_rows-end_dump padding (d.key, printed_value R d (d.hook r)) (pairs_of ds r)
          (pairs-Fits padding r (d ∷ ds) h t.narrow (keys_narrow (d ∷ ds))))
