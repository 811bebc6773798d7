-- ===== src/Kernel/Threads/Tests.antt =====
-- Runs of the scheduler and of a lock on three threads, and the theorems at them.
use twcos.Common.{ℕ, ◌≡◌, refl, [], ◌∷◌, none, arith}
use twcos.Kernel.Threads.{Thread, running, Scheduler, thread_yield, thread_preempt}
use twcos.Kernel.Threads.Fair.{Scheduled, present, thread_yield-Scheduled}
use twcos.Kernel.Threads.Locks.{Mutex, monitor_broadcast}

abbrev thread_table : ℕ → Thread
thread_table t = record { state = running; priority = 1; retval = 0 }

-- Thread 1 runs, and threads 2 and 3 are queued behind it.
abbrev machine : Scheduler
machine = record { threads = thread_table; queues = [] ∷ (2 ∷ 3 ∷ []) ∷ [] ∷ []; current = 1 }

broadcast_run :
    (monitor_broadcast
      (record { lock = record { count = 0; owner = none; waiting = [] }; waiters = 5 ∷ 6 ∷ [] })
      machine).1.queues
    ≡ [] ∷ (2 ∷ 3 ∷ 5 ∷ 6 ∷ []) ∷ [] ∷ []
unfolding monitor_broadcast
broadcast_run = refl

thread_yield-Scheduled_example :
    Scheduled 1 (present 1 machine) (thread_yield machine)
    × Scheduled 1 (present 1 machine) (thread_preempt machine)
thread_yield-Scheduled_example = thread_yield-Scheduled 1 machine (omega arith)

abbrev free : Mutex
free = record { count = 0; owner = none; waiting = [] }
