-- ===== src/Monitor.antt =====
-- src/monitor.c: the process that keeps the workers. Signals sent are a list.
use nagios_snmp.Base.{
  ℕ, zero, suc, ◌+◌, Bool, true, false, List, [], ◌∷◌, Result, ok, fault, assertion, ltb,
  if◌then◌else◌, replicate,
}

abbrev pub max_workers : ℕ
max_workers = 32

pub record Monitor : Type 0 where
  pub children : List ℕ
  pub workers : ℕ
  pub i_am_monitor : Bool
  pub must_terminate : Bool

-- The static data as the program starts.
unfoldable pub fresh_monitor : Monitor
fresh_monitor = record {
  children = replicate max_workers 0;
  workers = 0;
  i_am_monitor = false;
  must_terminate = false;
}

-- A write to `children[i]`.
unfoldable pub set : List ℕ → ℕ → ℕ → List ℕ
set [] i v = []
set (x ∷ xs) zero v = v ∷ xs
set (x ∷ xs) (suc i) v = x ∷ set xs i v

unfoldable pub monitor_register_pid : ℕ → ℕ → Monitor → Result Monitor
unfolding set
monitor_register_pid my_pid my_workers m =
    if ltb my_workers max_workers
    then ok (record m { children = set m.children my_workers my_pid; workers = my_workers + 1 })
    else fault assertion

pub data Signal : Type 0 where
  sigterm sighup : Signal

-- The loop from `children[0]` on, for so many workers.
unfoldable pub signal_first : ℕ → List ℕ → Signal → List (ℕ × Signal)
signal_first zero children sig = []
signal_first (suc n) [] sig = []
signal_first (suc n) (pid ∷ children) sig = (pid, sig) ∷ signal_first n children sig

unfoldable pub signal_all_children : Signal → Monitor → List (ℕ × Signal)
unfolding signal_first
signal_all_children sig m = signal_first m.workers m.children sig

-- Only the monitor does it.
unfoldable pub monitor_kill_children : Monitor → List (ℕ × Signal)
unfolding signal_all_children
monitor_kill_children m = if m.i_am_monitor then signal_all_children sigterm m else []

unfoldable pub monitor_init : Monitor → Monitor
monitor_init m = record m { i_am_monitor = true }

-- The signals sent, the state behind them, and whether the program ends.
unfoldable pub catch_signal : Signal → Monitor → List (ℕ × Signal) × Monitor × Bool
unfolding monitor_kill_children signal_all_children
catch_signal sigterm m =
    let ending = record m { must_terminate = true } in (monitor_kill_children ending, ending, true)
catch_signal sighup m = (signal_all_children sighup m, m, false)
