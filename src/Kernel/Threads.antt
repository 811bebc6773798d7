-- ===== src/Kernel/Threads.antt =====
-- libk/list.c and the scheduler of kernel/thread.c, with arch_thread_switch of arch/i386/i386.c.
-- A circular list is its elements in the order of the `next` links from the head. Threads are
-- numbers, and their fields a function. The spin lock of the queues is held for each operation as
-- a whole, so it is left out.
pub mod Fair
pub mod Locks
mod Tests
use twcos.Common.{
  ℕ, zero, suc, ◌+◌, Option, none, some, List, [], ◌∷◌, ◌++◌, ltb, ◌==◌, if◌then◌else◌, get_or, set,
  Bool, true, false,
}

-- `LIST_APPEND`
abbrev pub list_append : List ℕ → ℕ → List ℕ
list_append list p = list ++ p ∷ []

-- `LIST_PREPEND` links `p` behind the head and makes it the head: the old head is then the last.
abbrev pub list_prepend {ℓ} : {A : Type ℓ} → List A → A → List A
list_prepend [] p = p ∷ []
list_prepend (head ∷ list) p = p ∷ list ++ head ∷ []

-- `LIST_DELETE`
abbrev pub list_delete : List ℕ → ℕ → List ℕ
list_delete [] p = []
list_delete (x ∷ list) p = if x == p then list else x ∷ list_delete list p

-- `enum tstate`
pub data ThreadState : Type 0 where
  thread_new runnable running sleeping terminated : ThreadState

pub record Thread : Type 0 where
  pub state : ThreadState
  pub priority : ℕ
  pub retval : ℕ

-- The threads, the run queue of each priority, and the thread that runs.
pub record Scheduler : Type 0 where
  pub threads : ℕ → Thread
  pub queues : List (List ℕ)
  pub current : ℕ

abbrev pub set_state : ℕ → ThreadState → Scheduler → Scheduler
set_state t state s = record s {
  threads = λ i. if i == t then record (s.threads i) { state = state } else s.threads i;
}

-- `thread_queue` and `thread_prequeue` for a thread that is not NULL: the queue that they return,
-- and the threads.
unfoldable pub thread_queue : List ℕ → ℕ → ThreadState → Scheduler → List ℕ × Scheduler
thread_queue queue t state s = (list_append queue t, set_state t state s)

unfoldable pub thread_prequeue : List ℕ → ℕ → ThreadState → Scheduler → List ℕ × Scheduler
thread_prequeue queue t state s = (list_prepend queue t, set_state t state s)

abbrev pub set_queue : ℕ → List ℕ × Scheduler → Scheduler
set_queue priority (queue, s) = record s { queues = set s.queues priority queue }

unfoldable pub thread_resume : ℕ → Scheduler → Scheduler
unfolding thread_queue
thread_resume t s =
    let priority = (s.threads t).priority in
    set_queue priority (thread_queue (get_or s.queues priority []) t runnable s)

-- What the thread switched to does next is its own matter: the state is the one in which it goes on.
abbrev pub when_running : ThreadState → ThreadState
when_running running = runnable
when_running state = state

abbrev pub when_runnable : ThreadState → ThreadState
when_runnable runnable = running
when_runnable state = state

unfoldable pub arch_thread_switch : ℕ → Scheduler → Scheduler
arch_thread_switch t s =
    let old = s.current in
    if old == t
    then set_state t running s
    else let s' = set_state old (when_running (s.threads old).state) s in
      record (set_state t (when_runnable (s'.threads t).state) s') { current = t }

-- `for(i=0; i<THREAD_PRIORITIES; i++)`: the first thread of the first queue that is not empty, and
-- the queues without it.
unfoldable pub pick_next : List (List ℕ) → Option (ℕ × List (List ℕ))
pick_next [] = none
pick_next ([] ∷ queues) = elim (pick_next queues) [
  | none ↦ none
  | some (next, queues') ↦ some (next, [] ∷ queues')
]
pick_next ((next ∷ queue) ∷ queues) = some (next, queue ∷ queues)

-- `none` is the panic on an empty run queue.
unfoldable pub thread_schedule : Scheduler → Option Scheduler
unfolding pick_next arch_thread_switch
thread_schedule s = elim (pick_next s.queues) [
  | none ↦ none
  | some (next, queues') ↦ some (arch_thread_switch next (record s { queues = queues' }))
]

unfoldable pub thread_yield : Scheduler → Option Scheduler
unfolding thread_queue thread_schedule
thread_yield s =
    let priority = (s.threads s.current).priority in
    thread_schedule
      (set_queue priority (thread_queue (get_or s.queues priority []) s.current runnable s))

unfoldable pub thread_preempt : Scheduler → Option Scheduler
unfolding thread_prequeue thread_schedule
thread_preempt s =
    let priority = (s.threads s.current).priority in
    thread_schedule
      (set_queue priority (thread_prequeue (get_or s.queues priority []) s.current runnable s))

-- `check_int_bounds(priority, THREAD_INTERRUPT, THREAD_IDLE, ...)` throws at 3 and above: `none`.
unfoldable pub thread_set_priority : ℕ → ℕ → Scheduler → Option Scheduler
thread_set_priority t priority s =
    if ltb priority 3
    then some (record s {
      threads = λ i. if i == t then record (s.threads i) { priority = priority } else s.threads i;
    })
    else none
