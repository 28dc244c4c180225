-- ===== src/Channel/Counters.antt =====
-- The counters of the channel against the lines that were written.
use nagios_snmp.Base.{
  ℕ, ◌+◌, Bool, List, [], ◌∷◌, ◌++◌, Bytes, CString, length, length-append, ◌≡◌, arith,
}
use nagios_snmp.Base.Int.{ℤ}
use nagios_snmp.Channel.{
  Channel, channel_process_host_check_result, channel_process_svc_check_result, channel_write,
  host_message, svc_message,
}

-- The bytes of the lines, with a newline behind each.
unfoldable pub total : List Bytes → ℕ
total [] = 0
total (l ∷ ls) = length l + 1 + total ls

total-append : (ls : List Bytes) (l : Bytes) → total (ls ++ l ∷ []) ≡ total ls + (length l + 1)
unfolding total
total-append [] l = omega arith
total-append (k ∷ ls) l = omega (arith, total-append ls l)

-- Each line was counted once, and each of its bytes.
abbrev pub IsTallied : Channel → Type 0
IsTallied c =
    (c.writes_host + c.writes_svc ≡ length c.lines)
    × (c.written_bytes_host + c.written_bytes_svc ≡ total c.lines)

pub channel_write-IsTallied :
    (taken : Bool) (c : Channel) (timestamp : ℕ) (host_name svc_desc : CString) (return_code : ℤ)
    (plugin_output perfdata : CString) (is_service : Bool)
    → IsTallied c
    → IsTallied (
        channel_write taken c timestamp host_name svc_desc return_code plugin_output perfdata
          is_service)
unfolding channel_write channel_process_host_check_result channel_process_svc_check_result
channel_write-IsTallied taken c timestamp host_name svc_desc return_code plugin_output perfdata
      is_service h =
    let h_line = host_message timestamp host_name return_code plugin_output perfdata in
    let s_line = svc_message timestamp host_name svc_desc return_code plugin_output perfdata in
    ground (
      arith,
      total-append c.lines h_line,
      total-append c.lines s_line,
      length-append c.lines (h_line ∷ []),
      length-append c.lines (s_line ∷ []),
    )
