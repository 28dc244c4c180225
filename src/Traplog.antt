-- ===== src/Traplog.antt =====
-- src/traplog.c: the lines of the trap log. Locks and flushes are left out, as the text of the file
-- does not depend on them.
pub mod Session
use nagios_snmp.Base.{
  ℕ, Bool, List, [], ◌∷◌, ◌++◌, Option, none, some, Bytes, CString, codes, printed, Result, ok,
  ◌>>=◌,
}
use nagios_snmp.Trap.{Trap}
use nagios_snmp.Trap.Serialize.{SerializeMode, trap_serialize}

module _ (mode : SerializeMode) (delimiter : Bytes) where
  -- `fprintf(trap_log_handler, "%s\n", buffer)`, to the text of the file.
  unfoldable pub traplog_log : Option Trap → Bool → Bytes → Result Bytes
  unfolding trap_serialize
  traplog_log trap executed log = do
    buffer ← trap_serialize mode trap executed delimiter
    ok (log ++ (printed buffer ++ codes "\n"))

  -- The traps of a session in turn.
  unfoldable pub log_all : List (Trap × Bool) → Bytes → Result Bytes
  unfolding traplog_log
  log_all [] log = ok log
  log_all ((trap, executed) ∷ more) log = do
    next ← traplog_log (some trap) executed log
    log_all more next
