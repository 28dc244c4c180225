-- ===== src/Daemon/Workers.antt =====
-- The workers that are forked are the processes that the monitor signals.
use nagios_snmp.Base.{
  ℕ, suc, ◌+◌, ◌-◌, ◌≤◌, ◌<◌, List, [], ◌∷◌, ◌++◌, map, ok, ◌>>=◌, lt→ltb, length, length-append,
  length-replicate, drop, replicate, ◌≡◌, refl, ap, sym, arith, append_assoc, append-nil, ◌∙◌,
}
use nagios_snmp.Base.Int.{ℤ, pos, negsuc}
use nagios_snmp.Monitor.{
  max_workers, Monitor, fresh_monitor, set, monitor_register_pid, Signal, sigterm, sighup,
  catch_signal, signal_first, signal_all_children, monitor_kill_children, monitor_init,
}
use nagios_snmp.Daemon.{Fork, parent, child, monitor, worker, worker_count, fork_workers}

abbrev keeping : List ℕ → ℕ → Monitor
keeping children n = record fresh_monitor { children = children; workers = n }

set-append :
    (done : List ℕ) (z : ℕ) (zs : List ℕ) (v : ℕ)
    → set (done ++ z ∷ zs) (length done) v ≡ done ++ v ∷ zs
unfolding set
set-append [] z zs v = refl
set-append (d ∷ done) z zs v = ap (◌∷◌ d) (set-append done z zs v)

register :
    (done : List ℕ) (z : ℕ) (zs : List ℕ) (i pid : ℕ)
    → i ≡ length done
    → i < max_workers
    → monitor_register_pid pid i (keeping (done ++ z ∷ zs) i)
      ≡ ok (keeping ((done ++ pid ∷ []) ++ zs) (i + 1))
unfolding monitor_register_pid fresh_monitor
register done z zs i pid e k = rw (lt→ltb i max_workers k) (
    ap (λ cs. ok (keeping cs (i + 1)))
      (ap (λ j. set (done ++ z ∷ zs) j pid) e
        ∙ set-append done z zs pid
        ∙ sym (append_assoc done (pid ∷ []) zs)))

fork_workers-parent :
    (n i pid : ℕ) (forks : List Fork) (m : Monitor)
    → fork_workers (suc n) i (parent pid ∷ forks) m
      ≡ (monitor_register_pid pid i m >>= fork_workers n (i + 1) forks)
unfolding fork_workers
fork_workers-parent n i pid forks m = refl

-- The array has a slot for each process that is still to be forked.
fork_workers-parents :
    (done todo zs : List ℕ) (forks : List Fork) (total n i j : ℕ)
    → i ≡ length done
    → j ≡ i + length todo
    → total ≡ length todo + n
    → length todo ≤ length zs
    → j ≤ max_workers
    → fork_workers total i (map parent todo ++ forks) (keeping (done ++ zs) i)
      ≡ fork_workers n j forks (keeping (done ++ (todo ++ drop (length todo) zs)) j)
fork_workers-parents done [] zs forks total n i j ei ej et h k =
    let same : i ≡ j = omega arith in let all : total ≡ n = omega arith in rw (same, all) refl
fork_workers-parents done (pid ∷ todo) [] forks total n i j ei ej et h k = absurd (omega (arith, h))
fork_workers-parents done (pid ∷ todo) (z ∷ zs) forks total n i j ei ej et h k =
    let more : total ≡ suc (length todo + n) = omega arith in
    let next : i + 1 ≡ length (done ++ pid ∷ []) = omega (arith, length-append done (pid ∷ [])) in
    rw more (
      rw
        (fork_workers-parent (length todo + n) i pid (map parent todo ++ forks)
          (keeping (done ++ z ∷ zs) i))
        (rw (register done z zs i pid ei (omega arith)) (
          fork_workers-parents (done ++ pid ∷ []) todo zs forks (length todo + n) n (i + 1) j next
            (omega arith) refl (omega arith) k
          ∙ ap (λ cs. fork_workers n j forks (keeping cs j))
              (append_assoc done (pid ∷ []) (todo ++ drop (length todo) zs)))))

worker_count_bounds :
    (setting : ℤ) → (1 ≤ worker_count setting) × (worker_count setting ≤ max_workers)
unfolding worker_count
worker_count_bounds (pos n) = ground arith
worker_count_bounds (negsuc n) = omega arith

signal_first-map :
    (pids rest : List ℕ) (sig : Signal)
    → signal_first (length pids) (pids ++ rest) sig ≡ map (λ pid. (pid, sig)) pids
unfolding signal_first
signal_first-map [] rest sig = refl
signal_first-map (pid ∷ pids) rest sig = ap (◌∷◌ (pid, sig)) (signal_first-map pids rest sig)

-- The state behind so many workers.
abbrev pub monitoring : List ℕ → Monitor
monitoring pids = keeping (pids ++ drop (length pids) (replicate max_workers 0)) (length pids)

forked :
    (pids : List ℕ) (forks : List Fork) (total n : ℕ)
    → total ≡ length pids + n
    → total ≤ max_workers
    → fork_workers total 0 (map parent pids ++ forks) fresh_monitor
      ≡ fork_workers n (length pids) forks (monitoring pids)
unfolding fresh_monitor
forked pids forks total n e k =
    fork_workers-parents [] pids (replicate max_workers 0) forks total n 0 (length pids) refl
      (omega arith) e (omega (arith, length-replicate {A = ℕ} max_workers 0)) (omega arith)

forked_child :
    (older : List ℕ) (forks : List Fork) (total : ℕ)
    → length older < total
    → total ≤ max_workers
    → fork_workers total 0 (map parent older ++ child ∷ forks) fresh_monitor
      ≡ ok (worker (length older))
unfolding fork_workers
forked_child older forks total h k =
    forked older (child ∷ forks) total (suc (total - length older - 1)) (omega arith) k

-- Whatever number of workers is set, as many processes are forked as it says, at least one and at
-- most 32, and none of them trips the assertion. The parent becomes the monitor, and SIGHUP and
-- SIGTERM go to these processes, each once and in their order; a child, behind any number of parents
-- that is smaller, becomes the worker of that number.
pub fork_workers-signals :
    (setting : ℤ) (pids older : List ℕ) (forks : List Fork)
    → length pids ≡ worker_count setting
    → length older < worker_count setting
    → (1 ≤ length pids)
      × (length pids ≤ max_workers)
      × (fork_workers (worker_count setting) 0 (map parent pids) fresh_monitor
          ≡ ok (monitor (monitor_init (monitoring pids))))
      × ((catch_signal sighup (monitor_init (monitoring pids))).0 ≡ map (λ pid. (pid, sighup)) pids)
      × ((catch_signal sigterm (monitor_init (monitoring pids))).0
          ≡ map (λ pid. (pid, sigterm)) pids)
      × (fork_workers (worker_count setting) 0 (map parent older ++ child ∷ forks) fresh_monitor
          ≡ ok (worker (length older)))
unfolding catch_signal signal_all_children monitor_kill_children monitor_init fresh_monitor
fork_workers-signals setting pids older forks e h =
    let bounds = worker_count_bounds setting in
    let signals = signal_first-map pids (drop (length pids) (replicate max_workers 0)) in
    (
      omega (arith, bounds.0),
      omega (arith, bounds.1),
      ap (λ fs. fork_workers (worker_count setting) 0 fs fresh_monitor)
            (sym (append-nil (map parent pids)))
          ∙ forked pids [] (worker_count setting) 0 (omega arith) bounds.1
          ∙ unfold fork_workers in refl,
      signals sighup,
      signals sigterm,
      forked_child older forks (worker_count setting) h bounds.1,
    )
