-- ===== src/Kernel/Threads/Locks.antt =====
-- The locks of kernel/sync.c. A mutex is stepped under its spin lock, so each step is one function;
-- between the steps of a thread that waits, other threads may take theirs.
use twcos.Common.{
  ℕ, ◌+◌, ◌-◌, ◌≤◌, ◌≡◌, ◌≢◌, sym, Option, none, some, List, [], ◌∷◌, ◌==◌, if◌then◌else◌, arith,
  Bool, true, false, ne→==, ==_refl, Bool-cases, inl, inr,
}
use twcos.Kernel.Threads.{list_delete, Scheduler, sleeping, thread_queue, thread_resume}

-- `mutex_t`: `owner` is `none` for 0.
pub record Mutex : Type 0 where
  pub count : ℕ
  pub owner : Option ℕ
  pub waiting : List ℕ

-- `thread_lock_signal`
unfoldable pub thread_lock_signal : Mutex → Scheduler → Mutex × Scheduler
unfolding thread_resume
thread_lock_signal m s = elim m.waiting [
  | [] ↦ (m, s)
  | t ∷ _ ↦ (record m { waiting = list_delete m.waiting t }, thread_resume t s)
]

-- `thread_lock_wait` up to its call of `thread_schedule`.
unfoldable pub thread_lock_wait : ℕ → Mutex → Scheduler → Mutex × Scheduler
unfolding thread_queue thread_lock_signal
thread_lock_wait t m s =
    let (waiting, s') = thread_queue m.waiting t sleeping s in
    thread_lock_signal (record m { waiting = waiting }) s'

-- `mutex_lock` of thread `t`, up to its return (`true`) or its first wait (`false`).
unfoldable pub mutex_lock : ℕ → Mutex → Scheduler → Bool × Mutex × Scheduler
unfolding thread_lock_wait
mutex_lock t m s = elim m.owner [
  | none ↦ (true, record m { owner = some t; count = m.count + 1 }, s)
  | some o ↦
      if t == o
      then (true, record m { count = m.count + 1 }, s)
      else let (m', s') = thread_lock_wait t m s in (false, m', s')
]

-- `while (0 != lock->owner)` when the thread runs again: the loop goes on, or the function returns.
-- The owner is not written on this way.
unfoldable pub mutex_relock : ℕ → Mutex → Scheduler → Bool × Mutex × Scheduler
unfolding thread_lock_wait
mutex_relock t m s = elim m.owner [
  | none ↦ (true, record m { count = m.count + 1 }, s)
  | some o ↦ let (m', s') = thread_lock_wait t m s in (false, m', s')
]

abbrev pub owner_after : ℕ → ℕ → Option ℕ
owner_after count o = if 0 == count then none else some o

unfoldable pub mutex_unlock : ℕ → Mutex → Mutex
mutex_unlock t m = elim m.owner [
  | none ↦ m
  | some o ↦
      if t == o then record m { count = m.count - 1; owner = owner_after (m.count - 1) o } else m
]

-- `thread_trylock_internal`
unfoldable pub thread_trylock_internal : ℕ → Mutex → Bool × Mutex
thread_trylock_internal t m =
    if m.count == 0 then (true, record m { count = 1; owner = some t }) else elim m.owner [
      | none ↦ (false, m)
      | some o ↦ if o == t then (true, record m { count = m.count + 1 }) else (false, m)
    ]

-- A monitor, and `monitor_wait` up to its call of `thread_schedule`: with the count that is put
-- back after the lock is taken again.
pub record Monitor : Type 0 where
  pub lock : Mutex
  pub waiters : List ℕ

unfoldable pub monitor_wait : ℕ → Monitor → Scheduler → ℕ × Monitor × Scheduler
unfolding thread_queue mutex_unlock
monitor_wait t m s =
    let (waiters, s') = thread_queue m.waiters t sleeping s in
    (m.lock.count, record { lock = mutex_unlock t m.lock; waiters = waiters }, s')

-- `monitor_signal` reads the fields of the first waiting thread without a test for NULL: `none`.
unfoldable pub monitor_signal : Monitor → Scheduler → Option (Monitor × Scheduler)
unfolding thread_resume
monitor_signal m s = elim m.waiters [
  | [] ↦ none
  | t ∷ _ ↦ some (record m { waiters = list_delete m.waiters t }, thread_resume t s)
]

-- `while(monitor->waiting)`, in as many rounds as there are threads that wait.
unfoldable pub broadcast_loop : List ℕ → Monitor → Scheduler → Monitor × Scheduler
unfolding monitor_signal
broadcast_loop [] m s = (m, s)
broadcast_loop (t ∷ left) m s = elim (monitor_signal m s) [
  | none ↦ (m, s)
  | some (m', s') ↦ broadcast_loop left m' s'
]

unfoldable pub monitor_broadcast : Monitor → Scheduler → Monitor × Scheduler
unfolding broadcast_loop
monitor_broadcast m s = broadcast_loop m.waiters m s

-- A free mutex has no owner and the count 0; one that is taken has a positive count.
abbrev pub IsConsistent : Mutex → Type 0
IsConsistent m = elim m.owner [ none ↦ m.count ≡ 0 | some o ↦ 1 ≤ m.count ]

unlock_lock :
    (t count : ℕ) (waiting : List ℕ) (s : Scheduler) (owner : Option ℕ)
    → IsConsistent (record { count = count; owner = owner; waiting = waiting })
    → (mutex_lock t (record { count = count; owner = owner; waiting = waiting }) s).0 ≡ true
    → mutex_unlock t (mutex_lock t (record { count = count; owner = owner; waiting = waiting }) s).1
      ≡ record { count = count; owner = owner; waiting = waiting }
unfolding mutex_lock mutex_unlock
unlock_lock t count waiting s none c l =
    let e : (t == t) ≡ true = ==_refl t in
    let z : count + 1 - 1 ≡ count = omega arith in rw (e, z, c)
unlock_lock t count waiting s (some o) c l = elim (Bool-cases (t == o)) [
  | inl e ↦
      let z : count + 1 - 1 ≡ count = omega arith in
      let k : (0 == count) ≡ false = ground arith in rw (e, e, z, k)
  | inr e ↦ ground arith
]

-- On a consistent mutex that a thread may take at once, `mutex_unlock` undoes `mutex_lock`.
pub mutex_unlock-mutex_lock :
    (t : ℕ) (m : Mutex) (s : Scheduler)
    → IsConsistent m
    → (mutex_lock t m s).0 ≡ true
    → mutex_unlock t (mutex_lock t m s).1 ≡ m
mutex_unlock-mutex_lock t m s c l = unlock_lock t m.count m.waiting s m.owner c l

-- The second thread to lock a mutex waits, and when the first one has unlocked it the second
-- returns from `mutex_lock` and no owner is noted: `mutex_unlock` of the second changes nothing,
-- and any other thread that locks the mutex returns at once as well.
pub mutex_relock-unowned :
    (a b c : ℕ) (waiting : List ℕ) (s : Scheduler)
    → a ≢ b
    → let free : Mutex = record { count = 0; owner = none; waiting = waiting } in
      let held : Mutex = (mutex_lock a free s).1 in
      let taken : Mutex = (mutex_relock b (mutex_unlock a held) s).1 in
      ((mutex_lock b held s).0 ≡ false)
      × ((mutex_relock b (mutex_unlock a held) s).0 ≡ true)
      × (mutex_unlock b taken ≡ taken)
      × ((mutex_lock c taken s).0 ≡ true)
unfolding mutex_lock mutex_relock mutex_unlock
mutex_relock-unowned a b c waiting s n =
    let e : (a == a) ≡ true = ==_refl a in
    let d : (b == a) ≡ false = ne→== b a (λ h. n (sym h)) in (rw d, rw e, rw e, rw e)
