-- ===== src/Worker/Loop.antt =====
-- src/worker.c, `worker_start_main_loop`: the connections that a worker takes. What `select` and
-- `accept` say is an argument, and so is whether the pool of threads takes a task.
use nagios_snmp.Base.{
  ℕ, Bool, true, false, List, [], ◌∷◌, ◌++◌, Option, none, some, Bytes, equal, Result, ok, fault,
  critical, ◌>>=◌, ltb, if◌then◌else◌, length,
}
use nagios_snmp.Base.Int.{ℤ}
use nagios_snmp.Channel.{Channel}
use nagios_snmp.Db.Tables.{HashTable}
use nagios_snmp.Db.{same_int, Db}
use nagios_snmp.Socket.{Received}
use nagios_snmp.Worker.{Session, Settings, child_thread}

-- A return of `select`: whether it failed otherwise than by a signal, which sockets are in the set,
-- and the connection that `accept` gives, if it gives one, as what will be received on it.
pub record Wake : Type 0 where
  pub select_failed : Bool
  pub server_ready : Bool
  pub private_ready : Bool
  pub accepted : Option (List Received)

-- The flag `worker_must_terminate` is seen, or it is not.
pub data Event : Type 0 where
  terminated : Event
  wake : Wake → Event

-- A task: `is_private`, and what will be received.
abbrev pub ChildData : Type 0
ChildData = Bool × List Received

-- The tasks in the queue of the pool, the sessions that have ended, the counter and the channel.
pub record WorkerState : Type 0 where
  pub queue : List ChildData
  pub sessions : List Session
  pub trap_parsed : ℕ
  pub channel : Channel

-- The connection taken from a return of `select`; the primary socket goes first.
unfoldable pub take_client : Wake → Result ChildData
take_client w =
    if w.select_failed
    then fault critical
    else if w.server_ready
    then elim w.accepted [ none ↦ fault critical | some calls ↦ ok (false, calls) ]
    else if w.private_ready
    then elim w.accepted [ none ↦ fault critical | some calls ↦ ok (true, calls) ]
    else fault critical

module _ (S : HashTable Bytes equal) (I : HashTable ℤ same_int) (db : Db S I) (settings : Settings)
    (plugin : ℕ → Bytes → List Bytes) (taken : ℕ → Bool) (set_permissions : Bytes → Bool)
    (clock : ℕ → ℕ × ℕ) (adds_task : ℕ → Bool) (threadpool_size : ℕ) where
  -- A run of `child_thread`, at the time of its number.
  unfoldable pub serve : ChildData → WorkerState → Result WorkerState
  unfolding child_thread
  serve (is_private, calls) w = do
    let time = clock (length w.sessions)
    session ←
        child_thread S I db settings plugin taken set_permissions time.0 time.1 w.trap_parsed
          is_private calls w.channel
    ok (record w {
      sessions = w.sessions ++ session ∷ [];
      trap_parsed = session.trap_parsed;
      channel = session.channel;
    })

  -- With a pool the task is queued, and one that the pool does not take is lost; with none it is run.
  unfoldable pub hand_over : ChildData → WorkerState → Result WorkerState
  unfolding serve
  hand_over child_data w =
      if ltb 0 threadpool_size
      then ok (
          if adds_task (length w.queue) then record w { queue = w.queue ++ child_data ∷ [] } else w)
      else serve child_data w

  unfoldable pub worker_start_main_loop : List Event → WorkerState → Result WorkerState
  unfolding take_client hand_over
  worker_start_main_loop [] w = ok w
  worker_start_main_loop (terminated ∷ events) w = ok w
  worker_start_main_loop (wake woken ∷ events) w = do
    child_data ← take_client woken
    next ← hand_over child_data w
    worker_start_main_loop events next
