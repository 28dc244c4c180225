-- ===== src/Worker/Traps.antt =====
-- A trap from the first piece of its line to the log.
use nagios_snmp.Base.{
  ℕ, ◌+◌, ◌<◌, Bool, true, false, ◌||◌, List, [], ◌∷◌, ◌++◌, map, none, some, Bytes, codes, equal,
  has, ok, ◌==◌, if◌then◌else◌, length, All, ◌≡◌, ◌≢◌, refl,
}
use nagios_snmp.Base.Int.{ℤ}
use nagios_snmp.Channel.{Channel}
use nagios_snmp.Db.Tables.{HashTable}
use nagios_snmp.Db.{same_int, Db}
use nagios_snmp.Exec.Start.{exec_trap}
use nagios_snmp.Socket.{Received, bytes}
use nagios_snmp.Socket.Framing.{IsPlain, joined, socket_read_pdu-joined}
use nagios_snmp.Trap.{
  cmd_trap, free_objects, free_trap, trap_pdu_get_response, trap_is_trap, trap_free_pdu,
}
use nagios_snmp.Trap.Parse.Tokens.{unwords}
use nagios_snmp.Trap.Parse.Wire.{Var, Message, join, vars_of, message_tokens}
use nagios_snmp.Trap.Parse.RoundTrip.{IsSound, primary_value, trap_of, final_var, parse_accepts}
use nagios_snmp.Worker.{Settings, run_trap, answer, child_thread}

free_objects-final_var : (vs : List Var) → free_objects (map final_var vs) ≡ ok tt
unfolding free_objects
free_objects-final_var [] = refl
free_objects-final_var (v ∷ vs) = free_objects-final_var vs

pub free_accepted :
    (tv_sec tv_usec : ℕ) (ip v : Bytes) (m : Message)
    → trap_free_pdu
        (some (record { command = cmd_trap; trap = some (trap_of tv_sec tv_usec ip v m) }))
      ≡ ok tt
unfolding trap_free_pdu free_trap free_objects
free_accepted tv_sec tv_usec ip v m = free_objects-final_var m.other_vars

module _ (S : HashTable Bytes equal) (I : HashTable ℤ same_int) (db : Db S I) (settings : Settings)
    (plugin : ℕ → Bytes → List Bytes) (taken : ℕ → Bool) (set_permissions : Bytes → Bool)
    (tv_sec tv_usec n : ℕ) (is_private : Bool) (channel : Channel) where
  -- A connection that sends a trap as in `parse_accepts`, its line cut into pieces in any way and
  -- ended by a line end, all in less than 1,024 bytes, is answered ACCEPTED if answers are enabled;
  -- where the run of the trap ends in a value, its result is logged with the trap of the message,
  -- the channel is the one that the run leaves, the counter goes up by one, and to free the trap is
  -- no fault.
  pub child_thread_accepts :
      (m : Message) (chunks : List Bytes) (l : Bytes) (e : ℕ) (rest : Bytes) (after : List Received)
      (a ip b v : Bytes) (done : Bool) (runs : ℕ) (out : Channel)
      → IsSound settings.tokenizer m
      → length (join settings.tokenizer m.address) < 1024
      → join settings.tokenizer m.address ≡ a ++ b'[' ∷ (ip ++ b']' ∷ b)
      → has b'[' a ≡ false
      → has b']' ip ≡ false
      → primary_value (vars_of m) ≡ some v
      → joined chunks ++ l ≡ unwords (message_tokens settings.tokenizer m)
      → All (λ s. IsPlain s × (s ≢ [])) chunks
      → IsPlain l
      → (e == b'\n' || e == b'\r') ≡ true
      → length (joined chunks) + length (l ++ e ∷ rest) < 1024
      → exec_trap S I plugin taken set_permissions settings.limit db
          (some (trap_of tv_sec tv_usec ip v m))
          none
          none
          channel
        ≡ ok (done, runs, out)
      → child_thread S I db settings plugin taken set_permissions tv_sec tv_usec n is_private
          (map bytes chunks ++ bytes (l ++ e ∷ rest) ∷ after)
          channel
        ≡ ok (record {
          sent = if settings.send_enabled then codes "ACCEPTED" ∷ codes "\n" ∷ [] else [];
          trap_parsed = n + 1;
          channel = out;
          logged = (trap_of tv_sec tv_usec ip v m, done) ∷ [];
          closed = true;
        })
  unfolding child_thread answer run_trap trap_pdu_get_response trap_is_trap
  child_thread_accepts m chunks l e rest after a ip b v done runs out sound small address p q named
        line hs hl k room run =
      let text = socket_read_pdu-joined chunks l e rest after hs hl k room in
      let trap =
        parse_accepts settings.tokenizer tv_sec tv_usec n is_private m sound a ip b v small address
          p q named in
      rw (child_thread, text)
        (rw line (rw trap (rw run (rw (free_accepted tv_sec tv_usec ip v m)))))
