-- ===== src/Tests/Daemons.antt =====
-- The log, the workers and the pid file at concrete inputs.
use nagios_snmp.Base.{
  ℕ, ◌≤◌, true, false, List, [], ◌∷◌, ◌++◌, map, none, some, Bytes, codes, equal, ok, ◌>>=◌,
  if◌then◌else◌, length, ◌≡◌, refl, arith,
}
use nagios_snmp.Base.Int.{pos}
use nagios_snmp.Pidfile.{pidfile_write, pidfile_read}
use nagios_snmp.Pidfile.RoundTrip.{pidfile_read-pidfile_write}
use nagios_snmp.Log.{error_log, fresh_log, set_verbosity, log_init, log_critical}
use nagios_snmp.Log.Entries.{
  Entry, warning, error, log_entries, all_shown, line, log_critical-entries,
}
use nagios_snmp.Monitor.{max_workers, fresh_monitor, sigterm, sighup, catch_signal, monitor_init}
use nagios_snmp.Daemon.{parent, child, monitor, worker, worker_count, fork_workers}
use nagios_snmp.Daemon.Workers.{monitoring, fork_workers-signals}

pidfile_read-pidfile_write_example :
    (pidfile_write (λ p. true) 4242 none (some (codes "/run/pid")) >>= λ written.
    pidfile_read
      (λ p. if equal p written.0 then some written.1 else none)
      none
      (some (codes "/run/pid")))
    ≡ ok (pos 4242)
pidfile_read-pidfile_write_example =
    pidfile_read-pidfile_write (λ p. true) (codes "/run/pid") 4242 (λ e. cc) refl (omega arith)

abbrev date : Bytes
date = codes "Thu Jan  1 00:00:00 1970\n"

abbrev error_name : ℕ → Bytes
error_name n = codes "No such file or directory"

abbrev told : List Entry
told = warning 0 (codes "slow") ∷ error 2 (codes "cannot open") ∷ []

log_critical-entries_example :
    (log_init true true (some (codes "error")) true fresh_log >>= λ l.
    ok (log_critical date error_name false 0 (codes "gone") (log_entries date error_name told l)))
    ≡ ok (record {
      init_completed = true;
      is_daemon = true;
      verbosity = set_verbosity (some (codes "error"));
      error_handler = error_log;
      error_text =
          fresh_log.error_text
          ++ (all_shown date error_name (set_verbosity (some (codes "error"))) told
              ++ line date error_name (codes "CRITICAL: ") 0 (codes "gone"));
      stderr_text =
          if false
          then fresh_log.stderr_text
          else fresh_log.stderr_text ++ codes "startup failed, see error log\n";
    })
log_critical-entries_example =
    log_critical-entries date error_name true (some (codes "error")) fresh_log told false 0
      (codes "gone")

abbrev pids : List ℕ
pids = 11 ∷ 12 ∷ []

abbrev older : List ℕ
older = 11 ∷ []

fork_workers-signals_example :
    (1 ≤ length pids)
    × (length pids ≤ max_workers)
    × (fork_workers (worker_count (pos 2)) 0 (map parent pids) fresh_monitor
        ≡ ok (monitor (monitor_init (monitoring pids))))
    × ((catch_signal sighup (monitor_init (monitoring pids))).0 ≡ map (λ pid. (pid, sighup)) pids)
    × ((catch_signal sigterm (monitor_init (monitoring pids))).0 ≡ map (λ pid. (pid, sigterm)) pids)
    × (fork_workers (worker_count (pos 2)) 0 (map parent older ++ child ∷ []) fresh_monitor
        ≡ ok (worker (length older)))
unfolding worker_count
fork_workers-signals_example = fork_workers-signals (pos 2) pids older [] refl (omega arith)
