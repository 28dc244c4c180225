-- ===== src/Diagnostics/Totals.antt =====
-- What `diagnostics2_do` prints of the dumps that the workers have written.
use nagios_snmp.Base.{
  ℕ, suc, ◌<◌, false, List, [], ◌∷◌, map, some, Bytes, codes, equal, equal_refl, Result, ok, ◌>>=◌,
  if◌then◌else◌, length, All, ◌≡◌, refl, ap, sym, arith, ◌∙◌, Bool-cases, inl, inr,
}
use nagios_snmp.Diagnostics.{
  Dump, fresh_dump, put_row, end_dump, Real, Readings, Row, diagnostics_get_padding, printed_value,
  diagnostics_prepare_write,
}
use nagios_snmp.Diagnostics.Rows.{render, Fits, put_rows, put_rows-end_dump}
use nagios_snmp.Diagnostics.ReadBack.{item_of, read_dump-render}
use nagios_snmp.Diagnostics.Written.{
  Prints, IsPrinted, Differ, IsDistinct, IsTable, keys_narrow, pairs_of, pairs-Fits, pairs-IsRow,
  length-render, diagnostics_prepare_write-render,
}
use nagios_snmp.Diagnostics.Pool.{
  KeyValue, file, get_value_by_key, traverse_diagnostics_pool, filesize,
}
use nagios_snmp.Diagnostics.Global.{
  add_value, global_value, printed_global, put_global, global_from, get_diagnostics_global,
  pool_report,
}

equal_comm : (a b : Bytes) → equal a b ≡ equal b a
equal_comm [] [] = refl
equal_comm [] (y ∷ b) = refl
equal_comm (x ∷ a) [] = refl
equal_comm (x ∷ a) (y ∷ b) = ground (arith, equal_comm a b)

module _ (R : Real) where
  -- The dumps of several workers.
  abbrev pub dumps : List (Row R) → List Readings → Result (List Bytes)
  dumps ds [] = ok []
  dumps ds (r ∷ rs) = do
    text ← diagnostics_prepare_write R ds r
    texts ← dumps ds rs
    ok (text ∷ texts)

  -- The total of a row over the workers: the sum of what they print, or what the last one prints.
  abbrev pub total : Row R → List Readings → R.Double → R.Double
  total d [] sum = sum
  total d (r ∷ rs) sum =
      let value = R.atof (printed_value R d (d.hook r)) in
      total d rs (if d.cumulative then R.plus sum value else value)

  abbrev pub totals : List (Row R) → List Readings → List (Bytes × Bytes)
  totals [] rs = []
  totals (d ∷ ds) rs =
      if equal d.key (codes "Pid")
      then totals ds rs
      else (d.key, printed_global R d (total d rs R.nought)) ∷ totals ds rs

  abbrev items_of : List (Row R) → Readings → List KeyValue
  items_of ds r = map item_of (pairs_of R ds r)

  -- A row's key finds the row's value.
  abbrev Finds : List (Row R) → Row R → Type 0
  Finds ds d =
      (r : Readings) → get_value_by_key (items_of ds r) d.key ≡ some (printed_value R d (d.hook r))

  Finds-skip :
      (d e : Row R) (ds : List (Row R)) → equal d.key e.key ≡ false → Finds ds e → Finds (d ∷ ds) e
  unfolding get_value_by_key
  Finds-skip d e ds h k r = rw h (k r)

  Differ-sym : (d e : Row R) → equal e.key d.key ≡ false → equal d.key e.key ≡ false
  Differ-sym d e h = equal_comm d.key e.key ∙ h

  skip-All :
      (d : Row R) (ds es : List (Row R))
      → Differ R d es
      → All (Finds ds) es
      → All (Finds (d ∷ ds)) es
  skip-All d ds [] h k = tt
  skip-All d ds (e ∷ es) h k =
      (Finds-skip d e ds (Differ-sym d e h.0) k.0, skip-All d ds es h.1 k.1)

  found-All : (ds : List (Row R)) → IsDistinct R ds → All (Finds ds) ds
  unfolding get_value_by_key
  found-All [] h = tt
  found-All (d ∷ ds) h =
      ((λ r. rw (equal_refl d.key) refl), skip-All d ds ds h.0 (found-All ds h.1))

  global_value-total :
      (d : Row R) (ds : List (Row R)) (rs : List Readings) (sum : R.Double)
      → Finds ds d
      → global_value R d (map (items_of ds) rs) sum ≡ total d rs sum
  unfolding global_value add_value
  global_value-total d ds [] sum h = refl
  global_value-total d ds (r ∷ rs) sum h =
      let value = R.atof (printed_value R d (d.hook r)) in
      rw (global_value, h r)
        (global_value-total d ds rs (if d.cumulative then R.plus sum value else value) h)

  global_from-put_rows :
      (padding : ℕ) (ds es : List (Row R)) (rs : List Readings) (dump : Dump)
      → All (Finds ds) es
      → global_from R padding (map (items_of ds) rs) es dump ≡ put_rows padding (totals es rs) dump
  unfolding global_from put_global
  global_from-put_rows padding ds [] rs dump h = refl
  global_from-put_rows padding ds (d ∷ es) rs dump h =
      elim (Bool-cases (equal d.key (codes "Pid"))) [
        | inl pid ↦ rw pid (global_from-put_rows padding ds es rs dump h.1)
        | inr other ↦ rw other (
            rw (global_value-total d ds rs R.nought h.0) (
              ap (λ f. put_row padding d.key (printed_global R d (total d rs R.nought)) dump >>= f)
                (λ i next. global_from-put_rows padding ds es rs next h.1 i)))
      ]

  printed_global-IsPrinted :
      Prints R → (d : Row R) (x : R.Double) → IsPrinted (printed_global R d x)
  unfolding printed_global
  printed_global-IsPrinted h d x = elim (Bool-cases d.integer) [
    | inl e ↦ rw e (h.long_token x)
    | inr e ↦ rw e (h.double_token x)
  ]

  totals-Fits :
      (padding : ℕ) (ds : List (Row R)) (rs : List Readings)
      → Prints R
      → padding < 700
      → All (λ d. length d.key < padding) ds
      → All (Fits padding) (totals ds rs)
  totals-Fits padding [] rs h k l = tt
  totals-Fits padding (d ∷ ds) rs h k l =
      let short = (printed_global-IsPrinted h d (total d rs R.nought)).1 in
      let more = totals-Fits padding ds rs h k l.1 in
      elim (Bool-cases (equal d.key (codes "Pid"))) [
        | inl pid ↦ rw pid more
        | inr other ↦ rw other ((l.0, omega (arith, short)), more)
      ]

  -- The table has a row that is not the process id.
  abbrev pub HasOther : List (Row R) → Type 0
  HasOther [] = ⊥
  HasOther (d ∷ ds) = if equal d.key (codes "Pid") then HasOther ds else Unit

  totals-cons :
      (ds : List (Row R)) (rs : List Readings)
      → HasOther ds
      → (p : Bytes × Bytes) × (ps : List (Bytes × Bytes)) × (totals ds rs ≡ p ∷ ps)
  totals-cons [] rs h = absurd h
  totals-cons (d ∷ ds) rs h = elim (Bool-cases (equal d.key (codes "Pid"))) [
    | inl pid ↦ rw pid (totals-cons ds rs (rw pid at h))
    | inr other ↦ rw other ((d.key, printed_global R d (total d rs R.nought)), totals ds rs, refl)
  ]

  written :
      (ds : List (Row R)) (r : Readings)
      → Prints R
      → IsTable R ds
      → HasOther ds
      → diagnostics_prepare_write R ds r
        ≡ ok (render (diagnostics_get_padding R ds) (pairs_of R ds r))
  written [] r h t o = absurd o
  written (d ∷ ds) r h t o = diagnostics_prepare_write-render R d ds r h t

  dumps-render :
      (ds : List (Row R)) (rs : List Readings)
      → Prints R
      → IsTable R ds
      → HasOther ds
      → dumps ds rs ≡ ok (map (λ r. render (diagnostics_get_padding R ds) (pairs_of R ds r)) rs)
  dumps-render ds [] h t o = refl
  dumps-render ds (r ∷ rs) h t o = rw (written ds r h t o) (rw (dumps-render ds rs h t o) refl)

  length-pairs : (ds : List (Row R)) (r : Readings) → length (pairs_of R ds r) ≡ length ds
  length-pairs [] r = refl
  length-pairs (d ∷ ds) r = ap suc (length-pairs ds r)

  traverse-items :
      (ds : List (Row R)) (rs : List Readings)
      → Prints R
      → IsTable R ds
      → length ds < 50
      → traverse_diagnostics_pool
          (map file (map (λ r. render (diagnostics_get_padding R ds) (pairs_of R ds r)) rs))
        ≡ ok (map (items_of ds) rs)
  unfolding traverse_diagnostics_pool
  traverse-items ds [] h t k = refl
  traverse-items ds (r ∷ rs) h t k =
      let padding = diagnostics_get_padding R ds in
      let fits = pairs-Fits R padding r ds h t.narrow (keys_narrow R ds) in
      let size : length (render padding (pairs_of R ds r)) < filesize =
        omega (arith, length-render R padding (pairs_of R ds r) fits, length-pairs ds r) in
      rw
        (read_dump-render padding (pairs_of R ds r)
          (pairs-IsRow R padding r ds h t.keys (keys_narrow R ds)) size)
        (rw (traverse-items ds rs h t k) refl)

  pub report_of_table :
      (ds : List (Row R)) (rs : List Readings)
      → Prints R
      → IsTable R ds
      → HasOther ds
      → length ds < 50
      → (dumps ds rs >>= λ texts. pool_report R ds (map file texts))
        ≡ ok (render (diagnostics_get_padding R ds) (totals ds rs))
  unfolding pool_report get_diagnostics_global
  report_of_table ds rs h t o k =
      let padding = diagnostics_get_padding R ds in
      let (p, ps, e) = totals-cons ds rs o in
      let fits = totals-Fits padding ds rs h t.narrow (keys_narrow R ds) in
      rw (dumps-render ds rs h t o) (
        rw (traverse-items ds rs h t k) (
          rw (global_from-put_rows padding ds ds rs fresh_dump (found-All ds t.distinct)) (
            ap (λ qs. put_rows padding qs fresh_dump >>= end_dump) e
            ∙ put_rows-end_dump padding p ps (rw e at fits)
            ∙ ap (λ qs. ok (render padding qs)) (sym e))))
