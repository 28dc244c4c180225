-- ===== src/Diagnostics.antt =====
-- src/diagnostics.c: the table of counters, and the dump that a worker writes of them. The numbers
-- of type double are a parameter, with the calls of libc that read and print them.
mod Buffer
pub mod Pool
pub mod Global
pub mod Rows
pub mod Written
pub mod ReadBack
pub mod Totals
pub mod Report
pub mod Request
unfoldable pub use Buffer.{fresh_dump, cell, grown, put_row, end_dump}
pub use Buffer.{tmpbuflen, Dump, row_size}
use nagios_snmp.Base.{
  ℕ, ◌+◌, ◌-◌, ◌^◌, Bool, true, false, List, [], ◌∷◌, ◌++◌, map, Option, none, some, Bytes, CString,
  codes, Result, ok, fault, critical, ◌>>=◌, ltb, leb, ◌==◌, if◌then◌else◌, length,
}
use nagios_snmp.Base.Int.{ℤ, pos, negsuc, to_int32}
use nagios_snmp.Channel.{
  Channel, channel_get_writes_host, channel_get_writes_svc, channel_get_written_bytes_host,
  channel_get_written_bytes_svc, channel_get_errors,
}

pub record Real : Type 1 where
  pub Double : Type 0
  pub nought : Double
  pub plus : Double → Double → Double
  -- `abs / timediff`
  pub quotient : Double → ℤ → Double
  pub of_count : ℕ → Double
  pub of_int : ℤ → Double
  pub atof : Bytes → Double
  -- `%ld` of `(long) value`, `%0.3f` of `(float) value`, and `%0.3f` of `value`
  pub show_long : Double → Bytes
  pub show_float : Double → Bytes
  pub show_double : Double → Bytes

-- What the hooks read: the clock, the process, the pool of threads, the allocator, and the counters
-- and files of the other parts.
pub record Readings : Type 0 where
  pub now : ℕ
  pub startup_time : ℕ
  pub pid : ℕ
  pub num_of_threads : ℕ
  pub length_of_tasks_queue : ℕ
  pub length_of_free_tasks_queue : ℕ
  pub arena : ℕ
  pub usmblks : ℕ
  pub uordblks : ℕ
  pub trap_parsed : ℕ
  pub channel : Channel
  pub log_error_size : ℕ
  pub trap_log_size : ℕ

-- The constructor of the class.
unfoldable pub diagnostics_init : ℕ → Readings → Readings
diagnostics_init time r = record r { startup_time = time }

-- A difference of two times.
abbrev pub time_diff : ℕ → ℕ → ℤ
time_diff now start = if leb start now then pos (now - start) else negsuc (start - now - 1)

-- The same in an `int`.
abbrev pub int_diff : ℕ → ℕ → ℤ
int_diff now start = to_int32 (now + 2 ^ 64 - start)

abbrev is_zero : ℤ → Bool
is_zero (pos n) = n == 0
is_zero (negsuc n) = false

module _ (R : Real) where
  unfoldable pub get_rate_per_sec : R.Double → Readings → R.Double
  unfolding to_int32
  get_rate_per_sec abs r =
      let timediff = int_diff r.now r.startup_time in
      if is_zero timediff then R.nought else R.quotient abs timediff

  abbrev total_bytes : Channel → ℕ
  total_bytes c = channel_get_written_bytes_host c + channel_get_written_bytes_svc c

  abbrev total_writes : Channel → ℕ
  total_writes c = channel_get_writes_host c + channel_get_writes_svc c

  pub record Row : Type 0 where
    pub key : Bytes
    pub hook : Readings → R.Double
    pub cumulative : Bool
    pub integer : Bool

  abbrev row : Bytes → (Readings → R.Double) → Bool → Bool → Row
  row key hook cumulative integer = record {
    key = key;
    hook = hook;
    cumulative = cumulative;
    integer = integer;
  }

  abbrev count : (Readings → ℕ) → Readings → R.Double
  count read r = R.of_count (read r)

  abbrev rate : (Readings → ℕ) → Readings → R.Double
  rate read r = get_rate_per_sec (R.of_count (read r)) r

  -- `diagnostics[]` without its end mark, as built with NDEBUG.
  unfoldable pub diagnostics : List Row
  unfolding get_rate_per_sec
  diagnostics =
      row (codes "Pid") (count (λ r. r.pid)) false true
      ∷ row (codes "Uptime") (λ r. R.of_int (time_diff r.now r.startup_time)) false true
      ∷ row (codes "Available Threads") (count (λ r. r.num_of_threads)) true true
      ∷ row (codes "Tasks Queue Length") (count (λ r. r.length_of_tasks_queue)) true true
      ∷ row (codes "Free Tasks Queue Length") (count (λ r. r.length_of_free_tasks_queue)) true true
      ∷ row (codes "Malloc Arena") (count (λ r. r.arena)) true true
      ∷ row (codes "Used Memory") (count (λ r. r.usmblks + r.uordblks)) true true
      ∷ row (codes "Parsed Traps") (count (λ r. r.trap_parsed)) true true
      ∷ row (codes "Parsed Traps/sec") (rate (λ r. r.trap_parsed)) true false
      ∷ row (codes "Channel Host Written Bytes")
          (count (λ r. channel_get_written_bytes_host r.channel)) true true
      ∷ row (codes "Channel Svc Written Bytes")
          (count (λ r. channel_get_written_bytes_svc r.channel)) true true
      ∷ row (codes "Channel Total Written Bytes") (count (λ r. total_bytes r.channel)) true true
      ∷ row (codes "Channel Host Written Bytes/sec")
          (rate (λ r. channel_get_written_bytes_host r.channel)) true false
      ∷ row (codes "Channel Svc Written Bytes/sec")
          (rate (λ r. channel_get_written_bytes_svc r.channel)) true false
      ∷ row (codes "Channel Total Written Bytes/sec") (rate (λ r. total_bytes r.channel)) true false
      ∷ row (codes "Channel Host Writes") (count (λ r. channel_get_writes_host r.channel)) true true
      ∷ row (codes "Channel Svc Writes") (count (λ r. channel_get_writes_svc r.channel)) true true
      ∷ row (codes "Channel Total Writes") (count (λ r. total_writes r.channel)) true true
      ∷ row (codes "Channel Host Writes/sec") (rate (λ r. channel_get_writes_host r.channel)) true
          false
      ∷ row (codes "Channel Svc Writes/sec") (rate (λ r. channel_get_writes_svc r.channel)) true
          false
      ∷ row (codes "Channel Total Writes/sec") (rate (λ r. total_writes r.channel)) true false
      ∷ row (codes "Channel Errors") (count (λ r. channel_get_errors r.channel)) true true
      ∷ row (codes "Error Log Size") (count (λ r. r.log_error_size)) false true
      ∷ row (codes "Trap Log Size") (count (λ r. r.trap_log_size)) false true
      ∷ []

  unfoldable pub padding_from : ℕ → List Row → ℕ
  padding_from padding [] = padding + 8
  padding_from padding (d ∷ ds) =
      padding_from (if ltb padding (length d.key) then length d.key else padding) ds

  unfoldable pub diagnostics_get_padding : List Row → ℕ
  unfolding padding_from
  diagnostics_get_padding ds = padding_from 0 ds

  -- `aux`, by the row's format.
  unfoldable pub printed_value : Row → R.Double → Bytes
  printed_value d value = if d.integer then R.show_long value else R.show_float value

  unfoldable pub prepare_from : ℕ → Readings → List Row → Dump → Result Dump
  unfolding put_row printed_value
  prepare_from padding r [] dump = ok dump
  prepare_from padding r (d ∷ ds) dump = do
    next ← put_row padding d.key (printed_value d (d.hook r)) dump
    prepare_from padding r ds next

  unfoldable pub diagnostics_prepare_write : List Row → Readings → Result Bytes
  unfolding diagnostics_get_padding prepare_from end_dump fresh_dump
  diagnostics_prepare_write ds r = do
    dump ← prepare_from (diagnostics_get_padding ds) r ds fresh_dump
    end_dump dump
