-- ===== src/Main/Boot/Runs.antt =====
-- What holds of every run behind the start of the program.
use nagios_snmp.Base.{
  ℕ, ◌+◌, ◌≤◌, Bool, List, Option, ◌⊎◌, inl, inr, Fault, fault, out_of_fuel, ◌≢◌, Bytes, CString,
  equal, Result, ok, refl, ap, ◌≡◌,
}
use nagios_snmp.Base.Ends.{Ends}
use nagios_snmp.Base.Post.{Post, Post-bind, Post-then, Post-ok}
use nagios_snmp.Base.Int.{ℤ, pos}
use nagios_snmp.Channel.{Channel}
use nagios_snmp.Config.{Options, config_get_option_value}
use nagios_snmp.Regex.{Pcre}
use nagios_snmp.Query.{query_init}
use nagios_snmp.Db.Tables.{HashTable}
use nagios_snmp.Db.{same_int}
use nagios_snmp.Db.Connect.{MySql}
use nagios_snmp.Db.Connect.Loaded.{IsLoaded, connected_db_init-IsLoaded}
use nagios_snmp.Exec.Start.{exec_trap}
use nagios_snmp.Exec.Handled.{exec_trap-Ends, exec_trap-bounded}
use nagios_snmp.Trap.{Trap}
use nagios_snmp.Settings.{channel_init, trap_init, traplog_init, exec_init}
use nagios_snmp.Main.Boot.{Booted, boot}

-- A run that ends, with its bound: a value within the bound, or a fault of the program itself.
ends_within :
    (m : Result (Bool × ℕ × Channel)) (n : ℕ)
    → Ends m
    → ((done : Bool) (runs : ℕ) (out : Channel) → m ≡ ok (done, runs, out) → runs ≤ n)
    → ((done : Bool) × (runs : ℕ) × (out : Channel) × (m ≡ ok (done, runs, out)) × (runs ≤ n))
      ⊎ ((e : Fault) × (m ≡ fault e) × (e ≢ out_of_fuel))
ends_within (ok (done, runs, out)) n h k = inl (done, runs, out, refl, k done runs out refl)
ends_within (fault e) n h k = inr (e, refl, λ p. h (ap fault p))

module _ (P : Pcre) (server : MySql) (S : HashTable Bytes equal) (I : HashTable ℤ same_int)
    (opens_pipe : Bytes → Bool) (opens_log : CString → Bool)
    (text_of : CString → Option Bytes) where
  boot-IsLoaded :
      (is_daemon : Bool) (os : Options)
      → Post
          (λ b. IsLoaded S I server is_daemon b.db)
          (boot P server S I opens_pipe opens_log text_of is_daemon os)
  unfolding boot
  boot-IsLoaded is_daemon os =
      let Q = λ (b : Booted S I). IsLoaded S I server is_daemon b.db in
      Post-bind Q (channel_init opens_pipe is_daemon os) _ (λ stream.
        Post-bind Q (config_get_option_value _ os) _ (λ source.
          Post-bind Q (query_init P (text_of source)) _ (λ table.
            Post-then (IsLoaded S I server is_daemon) Q _ _
              (connected_db_init-IsLoaded S I server is_daemon os table)
              (λ db made. Post-bind Q (trap_init os) _ (λ traps.
                Post-bind Q (traplog_init opens_log os) _
                  (λ log. Post-bind Q (exec_init os) _ (λ limit. made)))))))

  -- Whatever the options, the file of statements and the server say: where the program comes to its
  -- main loop with a limit that is not negative, the handling of each trap, with or without an OID
  -- and a command of the user, comes to a value with at most one run more than the limit, or to a
  -- fault of the program; it never runs out of fuel, whatever the plugins print.
  pub boot-exec_trap :
      (plugin : ℕ → Bytes → List Bytes) (taken : ℕ → Bool) (set_permissions : Bytes → Bool)
      (is_daemon : Bool) (os : Options) (b : Booted S I) (limit : ℕ) (trap : Option Trap)
      (oid command : CString) (channel : Channel)
      → boot P server S I opens_pipe opens_log text_of is_daemon os ≡ ok b
      → b.stack_max_executions ≡ pos limit
      → ((done : Bool) × (runs : ℕ) × (out : Channel) × (exec_trap S I plugin taken set_permissions
              limit b.db trap oid command channel
            ≡ ok (done, runs, out))
          × (runs ≤ limit + 1))
        ⊎ ((e : Fault) × (exec_trap S I plugin taken set_permissions limit b.db trap oid command
                channel
              ≡ fault e)
            × (e ≢ out_of_fuel))
  boot-exec_trap plugin taken set_permissions is_daemon os b limit trap oid command channel started
        set =
      let made =
        Post-ok (λ c. IsLoaded S I server is_daemon c.db)
          (boot P server S I opens_pipe opens_log text_of is_daemon os) b started
          (boot-IsLoaded is_daemon os) in
      ends_within _ (limit + 1)
        (exec_trap-Ends S I b.db plugin taken set_permissions limit oid command channel is_daemon
          made.0 trap made.1)
        (exec_trap-bounded S I b.db plugin taken set_permissions limit oid command channel trap)
