-- ===== src/Worker.antt =====
-- src/worker.c, `child_thread`: one connection, from its line to its answer. The threads themselves
-- and the sockets are not modelled; what is sent is the list of the texts given to `send`.
pub mod Answers
pub mod Traps
pub mod Loop
pub mod Alive
use nagios_snmp.Base.{
  ℕ, Bool, true, false, List, [], ◌∷◌, ◌++◌, Option, none, some, Bytes, CString, codes, equal,
  Result, ok, fault, ◌>>=◌, ◌>>◌, if◌then◌else◌,
}
use nagios_snmp.Base.Int.{ℤ}
use nagios_snmp.Channel.{Channel}
use nagios_snmp.Db.Tables.{HashTable}
use nagios_snmp.Db.{same_int, Db}
use nagios_snmp.Exec.Start.{exec_trap}
use nagios_snmp.Socket.{Received, socket_read_pdu}
use nagios_snmp.Trap.{Trap, Pdu, trap_pdu_get_response, trap_is_trap, trap_free_pdu}
use nagios_snmp.Trap.Parse.{Parsed, parse}

-- What a connection leaves behind: the answer, the counter, the channel, the traps given to
-- `traplog_log` with its flag, and whether the socket was closed.
pub record Session : Type 0 where
  pub sent : List Bytes
  pub trap_parsed : ℕ
  pub channel : Channel
  pub logged : List (Trap × Bool)
  pub closed : Bool

-- The settings that a connection is handled with.
pub record Settings : Type 0 where
  pub tokenizer : Bytes
  pub send_enabled : Bool
  pub limit : ℕ
  pub diagnostics : CString

module _ (S : HashTable Bytes equal) (I : HashTable ℤ same_int) (db : Db S I) (settings : Settings)
    (plugin : ℕ → Bytes → List Bytes) (taken : ℕ → Bool) (set_permissions : Bytes → Bool) where
  -- `if ((trap = trap_is_trap(pdu)) != NULL)`: the channel, and what is logged.
  unfoldable pub run_trap : Option Trap → Channel → Result (Channel × List (Trap × Bool))
  unfolding exec_trap
  run_trap none channel = ok (channel, [])
  run_trap (some trap) channel = do
    run ← exec_trap S I plugin taken set_permissions settings.limit db (some trap) none none channel
    ok (run.2, (trap, run.0) ∷ [])

  -- The answer and the run of a protocol data unit. Nothing is done where there is no response.
  unfoldable pub answer : CString → Parsed → Channel → Result Session
  unfolding trap_is_trap run_trap
  answer none parsed channel = ok (record {
    sent = [];
    trap_parsed = parsed.trap_parsed;
    channel = channel;
    logged = [];
    closed = true;
  })
  answer (some response) parsed channel = do
    run ← run_trap (trap_is_trap parsed.pdu) channel
    ok (record {
      sent = if settings.send_enabled then response ∷ codes "\n" ∷ [] else [];
      trap_parsed = parsed.trap_parsed;
      channel = run.0;
      logged = run.1;
      closed = true;
    })

  unfoldable pub child_thread : ℕ → ℕ → ℕ → Bool → List Received → Channel → Result Session
  unfolding socket_read_pdu parse trap_pdu_get_response answer trap_free_pdu
  child_thread tv_sec tv_usec parsed is_private calls channel = do
    buffer ← socket_read_pdu calls
    elim buffer [
      | none ↦ ok (record {
        sent = [];
        trap_parsed = parsed;
        channel = channel;
        logged = [];
        closed = false;
      })
      | some line ↦ do
        pdu ← parse settings.tokenizer tv_sec tv_usec parsed (some line) is_private
        session ← answer (trap_pdu_get_response settings.diagnostics pdu.pdu) pdu channel
        trap_free_pdu pdu.pdu
        ok session
    ]
