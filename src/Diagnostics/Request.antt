-- ===== src/Diagnostics/Request.antt =====
-- src/diagnostics.c and src/diagnostics2.c: the dump file of a worker, the clearing of the pool, and
-- the request of a report.
use nagios_snmp.Base.{
  ℕ, Bool, List, [], ◌∷◌, ◌++◌, Option, none, some, Bytes, codes, printed, Result, ok, fault,
  null_deref, exit_failure, ◌>>=◌, leb, if◌then◌else◌,
}
use nagios_snmp.Base.Int.{ℤ, pos, negsuc}
use nagios_snmp.Base.Decimal.{decimal}
use nagios_snmp.Util.{is_empty}
use nagios_snmp.Config.{Options, config_get_option_value}
use nagios_snmp.Pidfile.{pidfile_read}
use nagios_snmp.Diagnostics.{Real, Readings, Row, diagnostics_prepare_write}
use nagios_snmp.Diagnostics.Pool.{PoolEntry}
use nagios_snmp.Diagnostics.Global.{pool_report}

module _ (R : Real) (os : Options) where
  -- The path and the text of the file; where it cannot be opened, the NULL stream is locked.
  unfoldable pub diagnostics_write :
      (Bytes → Bool) → List (Row R) → Readings → Result (Bytes × Bytes)
  unfolding diagnostics_prepare_write
  diagnostics_write opens ds r = do
    pool ← config_get_option_value (codes ":diagnostics_pool") os
    let path = printed pool ++ b'/' ∷ decimal r.pid
    if opens path
        then (do text ← diagnostics_prepare_write R ds r; ok (path, text))
        else fault null_deref

  -- The monitor's process is signalled, and what is printed behind that.
  unfoldable pub ask_monitor : (ℕ → Bool) → List (Row R) → List PoolEntry → ℤ → Result (ℕ × Bytes)
  unfolding pool_report
  ask_monitor kills ds pool (negsuc n) = fault exit_failure
  ask_monitor kills ds pool (pos pid) =
      if leb pid 1
      then fault exit_failure
      else if kills pid
      then (do text ← pool_report R ds pool; ok (pid, text))
      else fault exit_failure

  unfoldable pub diagnostics2_do :
      (Bytes → Option Bytes) → (ℕ → Bool) → List (Row R) → List PoolEntry → Result (ℕ × Bytes)
  unfolding pidfile_read ask_monitor
  diagnostics2_do text_of kills ds pool = do
    dir ← config_get_option_value (codes ":diagnostics_pool") os
    if is_empty dir then fault exit_failure else (do
      pid_file ← config_get_option_value (codes ":pid_file") os
      pid ← pidfile_read text_of none pid_file
      ask_monitor kills ds pool pid)

-- An entry of the pool: is it a regular file, and its name.
abbrev pub DirEntry : Type 0
DirEntry = Bool × Bytes

-- The names given to `unlink`: those of the entries, without the pool in front of them.
unfoldable pub unlinked : List DirEntry → List Bytes
unlinked [] = []
unlinked ((regular, name) ∷ more) = if regular then name ∷ unlinked more else unlinked more

-- A pool that cannot be opened is read all the same.
unfoldable pub diagnostics_pool_clear : Option (List DirEntry) → Result (List Bytes)
unfolding unlinked
diagnostics_pool_clear none = fault null_deref
diagnostics_pool_clear (some entries) = ok (unlinked entries)
