-- ===== src/Traplog/Session.antt =====
-- A trap from the connection to the trap log.
use nagios_snmp.Base.{
  ℕ, ◌+◌, ◌<◌, Bool, true, ◌||◌, List, [], ◌∷◌, ◌++◌, map, none, some, Bytes, codes, equal, has, ok,
  ◌>>=◌, ◌==◌, length, All, ◌≡◌, ◌≢◌, false, refl,
}
use nagios_snmp.Base.Int.{ℤ}
use nagios_snmp.Channel.{Channel}
use nagios_snmp.Db.Tables.{HashTable}
use nagios_snmp.Db.{same_int, Db}
use nagios_snmp.Exec.Start.{exec_trap}
use nagios_snmp.Socket.{Received, bytes}
use nagios_snmp.Socket.Framing.{IsPlain, joined}
use nagios_snmp.Trap.Parse.Tokens.{unwords}
use nagios_snmp.Trap.Parse.Wire.{Message, join, vars_of, message_tokens}
use nagios_snmp.Trap.Parse.RoundTrip.{IsSound, primary_value, trap_of}
use nagios_snmp.Trap.Serialize.{mode_new, header}
use nagios_snmp.Trap.Serialize.Contents.{assignment}
use nagios_snmp.Trap.Serialize.Bounds.{trap_serialize_fits}
use nagios_snmp.Worker.{Settings, child_thread}
use nagios_snmp.Worker.Traps.{child_thread_accepts}
use nagios_snmp.Traplog.{traplog_log, log_all}

module _ (S : HashTable Bytes equal) (I : HashTable ℤ same_int) (db : Db S I) (settings : Settings)
    (plugin : ℕ → Bytes → List Bytes) (taken : ℕ → Bool) (set_permissions : Bytes → Bool)
    (tv_sec tv_usec n : ℕ) (is_private : Bool) (channel : Channel) (delimiter log : Bytes) where
  pub child_thread-logged :
      (m : Message) (chunks : List Bytes) (l : Bytes) (e : ℕ) (rest : Bytes) (after : List Received)
      (a ip b v : Bytes) (done : Bool) (runs : ℕ) (out : Channel)
      → IsSound settings.tokenizer m
      → length (join settings.tokenizer m.address) < 1024
      → join settings.tokenizer m.address ≡ a ++ b'[' ∷ (ip ++ b']' ∷ b)
      → has b'[' a ≡ false
      → has b']' ip ≡ false
      → primary_value (vars_of m) ≡ some v
      → joined chunks ++ l ≡ unwords (message_tokens settings.tokenizer m)
      → All (λ s. IsPlain s × (s ≢ [])) chunks
      → IsPlain l
      → (e == b'\n' || e == b'\r') ≡ true
      → length (joined chunks) + length (l ++ e ∷ rest) < 1024
      → exec_trap S I plugin taken set_permissions settings.limit db
          (some (trap_of tv_sec tv_usec ip v m))
          none
          none
          channel
        ≡ ok (done, runs, out)
      → All (λ x. x.oid ≢ []) (vars_of m)
      → (child_thread S I db settings plugin taken set_permissions tv_sec tv_usec n is_private
            (map bytes chunks ++ bytes (l ++ e ∷ rest) ∷ after)
            channel
          >>= λ session. log_all mode_new delimiter session.logged log)
        ≡ ok (
            log
            ++ ((header done delimiter (trap_of tv_sec tv_usec ip v m)
                  ++ (delimiter ++ unwords (map assignment (vars_of m))))
                ++ codes "\n"))
  unfolding log_all traplog_log
  child_thread-logged m chunks l e rest after a ip b v done runs out sound small address p q named
        line hs hl k room run oids =
      rw
        (child_thread_accepts S I db settings plugin taken set_permissions tv_sec tv_usec n
          is_private channel m chunks l e rest after a ip b v done runs out sound small address p q
          named line hs hl k room run)
        (rw ((trap_serialize_fits tv_sec tv_usec ip v delimiter m done oids).0) refl)
