-- ===== src/Diagnostics/Global.antt =====
-- src/diagnostics2.c, `get_diagnostics_global`: the rows of all dumps, summed up or the last one's.
use nagios_snmp.Base.{
  ℕ, Bool, List, [], ◌∷◌, none, some, Bytes, CString, codes, equal, Result, ok, ◌>>=◌,
  if◌then◌else◌,
}
use nagios_snmp.Diagnostics.Buffer.{Dump, fresh_dump, put_row, end_dump}
use nagios_snmp.Diagnostics.Pool.{KeyValue, PoolEntry, get_value_by_key, traverse_diagnostics_pool}
use nagios_snmp.Diagnostics.{Real, Row, diagnostics_get_padding}

module _ (R : Real) where
  -- `global_value` behind a dump that has the value, or has it not.
  unfoldable pub add_value : Bool → CString → R.Double → R.Double
  add_value cumulative none total = total
  add_value cumulative (some value) total =
      if cumulative then R.plus total (R.atof value) else R.atof value

  unfoldable pub global_value : Row R → List (List KeyValue) → R.Double → R.Double
  unfolding add_value get_value_by_key
  global_value d [] total = total
  global_value d (list ∷ lists) total =
      global_value d lists (add_value d.cumulative (get_value_by_key list d.key) total)

  unfoldable pub printed_global : Row R → R.Double → Bytes
  printed_global d value = if d.integer then R.show_long value else R.show_double value

  -- A row; the process id is left out.
  unfoldable pub put_global : ℕ → List (List KeyValue) → Row R → Dump → Result Dump
  unfolding global_value put_row printed_global
  put_global padding lists d dump =
      if equal d.key (codes "Pid")
      then ok dump
      else put_row padding d.key (printed_global d (global_value d lists R.nought)) dump

  unfoldable pub global_from : ℕ → List (List KeyValue) → List (Row R) → Dump → Result Dump
  unfolding put_global
  global_from padding lists [] dump = ok dump
  global_from padding lists (d ∷ ds) dump = do
    next ← put_global padding lists d dump
    global_from padding lists ds next

  unfoldable pub get_diagnostics_global : List (Row R) → List (List KeyValue) → Result Bytes
  unfolding global_from diagnostics_get_padding fresh_dump end_dump
  get_diagnostics_global ds lists = do
    dump ← global_from (diagnostics_get_padding R ds) lists ds fresh_dump
    end_dump dump

  -- What is printed of the pool's files.
  unfoldable pub pool_report : List (Row R) → List PoolEntry → Result Bytes
  unfolding traverse_diagnostics_pool get_diagnostics_global
  pool_report ds pool = do lists ← traverse_diagnostics_pool pool; get_diagnostics_global ds lists
