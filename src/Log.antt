-- ===== src/Log.antt =====
-- src/log.c and src/startup.c: the entries of the error log, as built with NDEBUG. A message is an
-- argument, formatted; what `asctime_r` and `strerror_r` say is an argument too.
pub mod Entries
use nagios_snmp.Base.{
  ℕ, ◌+◌, ◌-◌, Bool, true, false, not, ◌&&◌, List, [], ◌∷◌, ◌++◌, Option, none, some, Bytes,
  CString, codes, equal, Result, ok, fault, exit_failure, ◌>>=◌, ltb, ◌==◌, if◌then◌else◌, length,
  take,
}
use nagios_snmp.Util.{is_empty}

pub data LineMode : Type 0 where
  line_begins line_ends line_none : LineMode

pub data Verbosity : Type 0 where
  verbosity_debug verbosity_warning verbosity_error verbosity_critical verbosity_none : Verbosity

-- The order of the enumeration.
abbrev pub rank : Verbosity → ℕ
rank verbosity_debug = 0
rank verbosity_warning = 1
rank verbosity_error = 2
rank verbosity_critical = 3
rank verbosity_none = 4

pub data Handler : Type 0 where
  stderr error_log : Handler

-- The state of the class and the text of its two streams.
pub record Log : Type 0 where
  pub init_completed : Bool
  pub is_daemon : Bool
  pub verbosity : Verbosity
  pub error_handler : Handler
  pub error_text : Bytes
  pub stderr_text : Bytes

unfoldable pub fresh_log : Log
fresh_log = record {
  init_completed = false;
  is_daemon = false;
  verbosity = verbosity_debug;
  error_handler = stderr;
  error_text = [];
  stderr_text = [];
}

unfoldable pub write : Handler → Bytes → Log → Log
write stderr text log = record log { stderr_text = log.stderr_text ++ text }
write error_log text log = record log { error_text = log.error_text ++ text }

unfoldable pub set_verbosity : CString → Verbosity
set_verbosity none = verbosity_warning
set_verbosity (some v) =
    if equal v (codes "debug")
    then verbosity_debug
    else if equal v (codes "warning")
    then verbosity_warning
    else if equal v (codes "error")
    then verbosity_error
    else if equal v (codes "critical")
    then verbosity_critical
    else verbosity_warning

-- `opened` is whether the error log can be opened; if not, the program ends.
unfoldable pub log_init : Bool → Bool → CString → Bool → Log → Result Log
unfolding set_verbosity
log_init true verbose option opened log =
    if opened
    then ok (record log {
      init_completed = true;
      is_daemon = true;
      verbosity = set_verbosity option;
      error_handler = error_log;
    })
    else fault exit_failure
log_init false verbose option opened log = ok (record log {
  init_completed = true;
  is_daemon = false;
  verbosity = if verbose then verbosity_debug else verbosity_warning;
  error_handler = stderr;
})

-- `date` is what `asctime_r` leaves in its buffer, `strerror` the text of an error number.
module _ (date : Bytes) (strerror : ℕ → Bytes) where
  unfoldable pub log_write_prefix : Handler → Log → Log
  unfolding write
  log_write_prefix handler log =
      if is_empty (some date)
      then log
      else write handler (take (length date - 1) date ++ b' ' ∷ []) log

  unfoldable pub log_write_v : Handler → LineMode → Bytes → Log → Log
  unfolding log_write_prefix
  log_write_v handler line_begins text log = write handler text (log_write_prefix handler log)
  log_write_v handler line_ends text log = write handler (codes "\n") (write handler text log)
  log_write_v handler line_none text log = write handler text log

  unfoldable pub log_write : Handler → LineMode → Bytes → Log → Log
  unfolding log_write_v
  log_write handler line_begins text log =
      log_write_v handler line_none text (log_write_prefix handler log)
  log_write handler line_ends text log =
      write handler (codes "\n") (log_write_v handler line_none text log)
  log_write handler line_none text log = log_write_v handler line_none text log

  unfoldable pub log_strerror : Handler → ℕ → Log → Log
  unfolding log_write
  log_strerror handler errnum log =
      if errnum == 0 then log else log_write handler line_ends (codes ": " ++ strerror errnum) log

  -- The prefix and the label, the message, and the error or the end of the line.
  unfoldable pub write_entry : Handler → Bytes → ℕ → Bytes → Log → Log
  unfolding log_strerror
  write_entry handler label errnum message log =
      let begun = log_write handler line_begins label log in
      let told = log_write_v handler line_none message begun in
      if not (errnum == 0)
      then log_strerror handler errnum told
      else log_write handler line_none (codes "\n") told

  unfoldable pub log_warning : ℕ → Bytes → Log → Log
  unfolding write_entry
  log_warning errnum message log =
      if not log.init_completed
      then log
      else if ltb (rank verbosity_warning) (rank log.verbosity)
      then log
      else write_entry log.error_handler (codes "WARNING: ") errnum message log

  unfoldable pub log_error : ℕ → Bytes → Log → Log
  unfolding write_entry
  log_error errnum message log =
      if not log.init_completed
      then log
      else if ltb (rank verbosity_error) (rank log.verbosity)
      then log
      else write_entry log.error_handler (codes "ERROR: ") errnum message log

  -- What is written in front of `monitor_kill_children` and the end of the program;
  -- `startup_completed` is what `startup_is_completed` says.
  unfoldable pub log_critical : Bool → ℕ → Bytes → Log → Log
  unfolding write_entry
  log_critical startup_completed errnum message log =
      let handler = if log.init_completed then log.error_handler else stderr in
      let told = write_entry handler (codes "CRITICAL: ") errnum message log in
      if log.is_daemon && not startup_completed
      then write stderr (codes "startup failed, see error log\n") told
      else told
