-- ===== src/Settings.antt =====
-- What the constructors of the classes take from the options: `channel_init`, `trap_init`,
-- `traplog_init`, `exec_init`, and the parts of src/worker.c and src/socket.c that do the same.
use nagios_snmp.Base.{
  ℕ, Bool, false, not, ◌&&◌, ltb, ◌++◌, none, some, Bytes, CString, codes, deref, Result, ok, fault,
  critical, ◌>>=◌, if◌then◌else◌,
}
use nagios_snmp.Base.Int.{ℤ, pos, negsuc, atoi}
use nagios_snmp.Base.Decimal.{decimal}
use nagios_snmp.Util.{is_empty}
use nagios_snmp.Config.{Options, config_get_option_value}
use nagios_snmp.Trap.Serialize.{SerializeMode, serialize_mode_of}
use nagios_snmp.Daemon.{is_true}
use nagios_snmp.Socket.Create.{Calls, socket_create_unix}

abbrev option_text : Bytes → Options → Result Bytes
option_text key os = do value ← config_get_option_value key os; deref value

-- The stream of the results: the named pipe of a daemon, or else the standard output.
pub data Stream : Type 0 where
  stdout : Stream
  pipe : Bytes → Stream

unfoldable pub open_channel : (Bytes → Bool) → Bool → CString → Result Stream
open_channel opens is_daemon none = fault critical
open_channel opens is_daemon (some path) =
    if is_empty (some path)
    then fault critical
    else if is_daemon
    then (if opens path then ok (pipe path) else fault critical)
    else ok stdout

unfoldable pub channel_init : (Bytes → Bool) → Bool → Options → Result Stream
unfolding open_channel
channel_init opens is_daemon os = do
  path ← config_get_option_value (codes ":nagios_pipe") os
  open_channel opens is_daemon path

-- The tokenizer, and the form of the log.
unfoldable pub trap_init : Options → Result (CString × SerializeMode)
unfolding serialize_mode_of
trap_init os = do
  tokenizer ← config_get_option_value (codes ":trap_tokenizer") os
  mode ← option_text (codes ":trap_serialize_mode") os
  ok (tokenizer, serialize_mode_of mode)

-- The delimiter and the file of the trap log; its rate threshold is read by `atof`.
unfoldable pub traplog_init : (CString → Bool) → Options → Result (Bytes × CString)
traplog_init opens os = do
  option ← config_get_option_value (codes ":trap_log_delimiter") os
  path ← config_get_option_value (codes ":trap_log") os
  delimiter ← (if is_empty option then ok (codes ",") else deref option)
  opened ← (if opens path then ok path else fault critical)
  threshold ← option_text (codes ":trap_rate_threshold") os
  ok (delimiter, opened)

-- `stack_max_executions`
unfoldable pub exec_init : Options → Result ℤ
exec_init os = do limit ← option_text (codes ":plugins_max_executions") os; ok (atoi limit)

-- A worker's private socket: its path is the prefix and the process id.
unfoldable pub create_private_socket : Calls → ℕ → Options → Result Bytes
unfolding socket_create_unix
create_private_socket calls pid os = do
  path_prefix ← option_text (codes ":local_socket_prefix") os
  socket_create_unix calls (path_prefix ++ decimal pid)

-- Whether a socket is to be made non-blocking.
unfoldable pub socket_set_nonblocking : Options → Result Bool
unfolding is_true
socket_set_nonblocking os = is_true (codes ":socket_set_nonblocking") os

-- What a worker keeps: its private socket, whether that is non-blocking, and the size of its pool.
pub record WorkerInit : Type 0 where
  pub private_s : Bytes
  pub nonblocking : Bool
  pub threadpool_size : ℤ

-- `threadpool_size > 0`
abbrev is_positive : ℤ → Bool
is_positive (pos n) = ltb 0 n
is_positive (negsuc n) = false

-- `starts` says whether a pool of a size can be made. The change of the user and of the group is
-- left out: that it fails is only logged.
unfoldable pub worker_init : Calls → (ℤ → Bool) → ℕ → Options → Result WorkerInit
unfolding create_private_socket socket_set_nonblocking
worker_init calls starts pid os = do
  private_s ← create_private_socket calls pid os
  nonblocking ← socket_set_nonblocking os
  text ← option_text (codes ":threadpool_size") os
  (if is_positive (atoi text) && not (starts (atoi text))
      then fault critical
      else ok (record {
        private_s = private_s;
        nonblocking = nonblocking;
        threadpool_size = atoi text;
      }))
