-- ===== src/Worker/Answers.antt =====
-- A connection from its first piece to its answer.
use nagios_snmp.Base.{
  ℕ, ◌+◌, ◌<◌, Bool, true, ◌||◌, List, [], ◌∷◌, ◌++◌, map, none, some, Bytes, codes, equal, ok,
  ◌==◌, if◌then◌else◌, length, All, ◌≡◌, ◌≢◌, refl, ◌∙◌,
}
use nagios_snmp.Base.Int.{ℤ}
use nagios_snmp.Channel.{Channel}
use nagios_snmp.Db.Tables.{HashTable}
use nagios_snmp.Db.{same_int, Db}
use nagios_snmp.Socket.{Received, bytes}
use nagios_snmp.Socket.Framing.{IsPlain, joined, socket_read_pdu-joined}
use nagios_snmp.Trap.{cmd_alive, trap_pdu_get_response, trap_free_pdu}
use nagios_snmp.Trap.Parse.{parse}
use nagios_snmp.Trap.Parse.Tokens.{IsWord, unwords}
use nagios_snmp.Trap.Parse.Wire.{Differs}
use nagios_snmp.Trap.Commands.{parse_first_word}
use nagios_snmp.Worker.{Settings, answer, child_thread}

module _ (S : HashTable Bytes equal) (I : HashTable ℤ same_int) (db : Db S I) (settings : Settings)
    (plugin : ℕ → Bytes → List Bytes) (taken : ℕ → Bool) (set_permissions : Bytes → Bool)
    (tv_sec tv_usec n : ℕ) (is_private : Bool) (channel : Channel) where
  alive_parsed :
      (ws : List Bytes)
      → All IsWord (codes "ALIVE?" ∷ ws)
      → Differs settings.tokenizer (codes "ALIVE?")
      → parse settings.tokenizer tv_sec tv_usec n (some (unwords (codes "ALIVE?" ∷ ws))) is_private
        ≡ ok (record { pdu = some (record { command = cmd_alive; trap = none }); trap_parsed = n })
  alive_parsed ws h d =
      let (cmd, e, alive, diagnostics, rest) =
        parse_first_word settings.tokenizer (codes "ALIVE?") ws tv_sec tv_usec n is_private h d
          (λ q. cc) in
      let same : cmd ≡ cmd_alive = alive.1 refl in e ∙ rw same refl

  -- A connection that asks whether the daemon is alive, its line cut into pieces in any way and
  -- ended by a line end, all in less than 1,024 bytes, is answered YES if answers are enabled,
  -- whatever words follow: nothing is run, counted or logged, and the socket is closed.
  pub child_thread_alive :
      (ws : List Bytes) (chunks : List Bytes) (l : Bytes) (e : ℕ) (rest : Bytes)
      (after : List Received)
      → All IsWord (codes "ALIVE?" ∷ ws)
      → Differs settings.tokenizer (codes "ALIVE?")
      → joined chunks ++ l ≡ unwords (codes "ALIVE?" ∷ ws)
      → All (λ s. IsPlain s × (s ≢ [])) chunks
      → IsPlain l
      → (e == b'\n' || e == b'\r') ≡ true
      → length (joined chunks) + length (l ++ e ∷ rest) < 1024
      → child_thread S I db settings plugin taken set_permissions tv_sec tv_usec n is_private
          (map bytes chunks ++ bytes (l ++ e ∷ rest) ∷ after)
          channel
        ≡ ok (record {
          sent = if settings.send_enabled then codes "YES" ∷ codes "\n" ∷ [] else [];
          trap_parsed = n;
          channel = channel;
          logged = [];
          closed = true;
        })
  unfolding child_thread answer trap_pdu_get_response trap_free_pdu
  child_thread_alive ws chunks l e rest after h d line hs hl k room =
      let text = socket_read_pdu-joined chunks l e rest after hs hl k room in
      rw (child_thread, text) (rw line (rw (alive_parsed ws h d) refl))
