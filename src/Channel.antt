-- ===== src/Channel.antt =====
-- src/channel.c: the results that Nagios reads from its pipe. The stream is the list of the lines
-- that have been written; whether it takes a line is an argument.
pub mod Counters
pub mod Messages
use nagios_snmp.Base.{
  ℕ, zero, suc, ◌+◌, Bool, true, false, List, [], ◌∷◌, ◌++◌, Option, none, some, Bytes, CString,
  codes, printed, if◌then◌else◌, length,
}
use nagios_snmp.Base.Int.{ℤ}
use nagios_snmp.Base.Decimal.{decimal, decimal_int}
use nagios_snmp.Util.{is_empty}

-- The counters of the source, and the lines behind them, the newest last.
pub record Channel : Type 0 where
  pub writes_host : ℕ
  pub writes_svc : ℕ
  pub written_bytes_host : ℕ
  pub written_bytes_svc : ℕ
  pub errors : ℕ
  pub lines : List Bytes

-- The output, and the performance data where there are any.
unfoldable pub output_text : CString → CString → Bytes
unfolding is_empty
output_text plugin_output perfdata =
    if is_empty perfdata
    then printed plugin_output
    else printed plugin_output ++ (codes " | " ++ printed perfdata)

-- The buffers that the two functions format.
unfoldable pub host_message : ℕ → CString → ℤ → CString → CString → Bytes
unfolding output_text
host_message timestamp host_name return_code plugin_output perfdata =
    b'['
    ∷ (decimal timestamp
        ++ (codes "] PROCESS_HOST_CHECK_RESULT;"
            ++ (printed host_name
                ++ b';' ∷ (decimal_int return_code ++ b';' ∷ output_text plugin_output perfdata))))

unfoldable pub svc_message : ℕ → CString → CString → ℤ → CString → CString → Bytes
unfolding output_text
svc_message timestamp host_name svc_desc return_code plugin_output perfdata =
    b'['
    ∷ (decimal timestamp
        ++ (codes "] PROCESS_SERVICE_CHECK_RESULT;"
            ++ (printed host_name
                ++ b';'
                  ∷ (printed svc_desc
                      ++ b';'
                        ∷ (decimal_int return_code ++ b';' ∷ output_text plugin_output perfdata)))))

-- `fprintf(channel_handle, "%s\n", buffer)` and the counters; the flag says that it succeeds.
unfoldable pub channel_process_host_check_result :
    Bool → Channel → ℕ → CString → ℤ → CString → CString → Channel
unfolding host_message
channel_process_host_check_result taken c timestamp host_name return_code plugin_output perfdata =
    let buffer = host_message timestamp host_name return_code plugin_output perfdata in
    if taken
    then record c {
      writes_host = c.writes_host + 1;
      written_bytes_host = c.written_bytes_host + (length buffer + 1);
      lines = c.lines ++ buffer ∷ [];
    }
    else record c { errors = c.errors + 1 }

unfoldable pub channel_process_svc_check_result :
    Bool → Channel → ℕ → CString → CString → ℤ → CString → CString → Channel
unfolding svc_message
channel_process_svc_check_result taken c timestamp host_name svc_desc return_code plugin_output
      perfdata =
    let buffer = svc_message timestamp host_name svc_desc return_code plugin_output perfdata in
    if taken
    then record c {
      writes_svc = c.writes_svc + 1;
      written_bytes_svc = c.written_bytes_svc + (length buffer + 1);
      lines = c.lines ++ buffer ∷ [];
    }
    else record c { errors = c.errors + 1 }

unfoldable pub channel_write :
    Bool → Channel → ℕ → CString → CString → ℤ → CString → CString → Bool → Channel
unfolding is_empty channel_process_host_check_result channel_process_svc_check_result
channel_write taken c timestamp host_name svc_desc return_code plugin_output perfdata is_service =
    if is_empty host_name
    then c
    else if is_service
    then (if is_empty svc_desc
        then c
        else channel_process_svc_check_result taken c timestamp host_name svc_desc return_code
            plugin_output perfdata)
    else channel_process_host_check_result taken c timestamp host_name return_code plugin_output
        perfdata

-- The counters as the diagnostics read them.
unfoldable pub channel_get_writes_host : Channel → ℕ
channel_get_writes_host c = c.writes_host

unfoldable pub channel_get_writes_svc : Channel → ℕ
channel_get_writes_svc c = c.writes_svc

unfoldable pub channel_get_written_bytes_host : Channel → ℕ
channel_get_written_bytes_host c = c.written_bytes_host

unfoldable pub channel_get_written_bytes_svc : Channel → ℕ
channel_get_written_bytes_svc c = c.written_bytes_svc

unfoldable pub channel_get_errors : Channel → ℕ
channel_get_errors c = c.errors
