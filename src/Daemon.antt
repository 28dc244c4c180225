-- ===== src/Daemon.antt =====
-- src/daemon.c, `daemon_init`: the workers are forked, and the parent becomes the monitor. What
-- `fork` returns is an argument; the terminal is left out.
pub mod Workers
use nagios_snmp.Base.{
  ℕ, zero, suc, ◌+◌, Bool, true, false, List, [], ◌∷◌, Option, none, some, Bytes, CString, codes,
  equal, deref, Result, ok, fault, critical, ◌>>=◌, ltb, leb, if◌then◌else◌,
}
use nagios_snmp.Base.Int.{ℤ, pos, negsuc, atoi}
use nagios_snmp.Config.{Options, config_get_option_value}
use nagios_snmp.Socket.Create.{Calls, socket_create}
use nagios_snmp.Monitor.{Monitor, max_workers, fresh_monitor, monitor_register_pid, monitor_init}

-- A negative result, the parent's with the process id, or the child's.
pub data Fork : Type 0 where
  failed : Fork
  parent : ℕ → Fork
  child : Fork

-- What the process has become behind the loop.
pub data Role : Type 0 where
  monitor : Monitor → Role
  worker : ℕ → Role

-- The number of workers, between 1 and `MAX_WORKERS`.
unfoldable pub worker_count : ℤ → ℕ
worker_count (negsuc n) = 1
worker_count (pos n) = if ltb n 1 then 1 else if ltb max_workers n then max_workers else n

-- `n` rounds are left, `i` is the next one's number. Where the results run out, `fork` fails.
unfoldable pub fork_workers : ℕ → ℕ → List Fork → Monitor → Result Role
unfolding monitor_init monitor_register_pid
fork_workers zero i forks m = ok (monitor (monitor_init m))
fork_workers (suc n) i [] m = fault critical
fork_workers (suc n) i (failed ∷ forks) m = fault critical
fork_workers (suc n) i (child ∷ forks) m = ok (worker i)
fork_workers (suc n) i (parent pid ∷ forks) m = do
  next ← monitor_register_pid pid i m
  fork_workers n (i + 1) forks next

-- `!strcmp(config_get_option_value(key), "true")`
unfoldable pub is_true : Bytes → Options → Result Bool
is_true key os = do
  value ← config_get_option_value key os
  text ← deref value
  ok (equal text (codes "true"))

-- The primary socket: its port, and whether its address is reused and local.
unfoldable pub server_socket : Calls → Options → Result (ℕ × Bool × Bool)
unfolding is_true socket_create
server_socket calls os = do
  port ← config_get_option_value (codes ":port_number") os
  text ← deref port
  reuse ← is_true (codes ":socket_reuse") os
  local ← is_true (codes ":localhost_only") os
  socket_create calls (atoi text) reuse local

-- With the monitor disabled the process is a worker itself, and the monitor when that has ended.
unfoldable pub daemon_init : Calls → Options → List Fork → Result Role
unfolding is_true server_socket worker_count fork_workers fresh_monitor
daemon_init calls os forks = do
  daemonize ← is_true (codes ":daemonize") os
  enable_monitor ← is_true (codes ":enable_monitor") os
  socket ← server_socket calls os
  if enable_monitor
      then (do
        value ← config_get_option_value (codes ":workers") os
        text ← deref value
        fork_workers (worker_count (atoi text)) 0 forks fresh_monitor)
      else ok (worker 0)
