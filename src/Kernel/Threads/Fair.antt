-- ===== src/Kernel/Threads/Fair.antt =====
-- The scheduler keeps every thread, and runs them in turn.
use twcos.Common.{
  ◌≤◌, ==_refl, ℕ, zero, suc, ◌+◌, ◌<◌, ◌≡◌, refl, sym, ap, Option, none, some, List, [], ◌∷◌, ◌++◌,
  ◌==◌, if◌then◌else◌, arith, length, get_or, set, replicate, Bool-cases, inl, inr, true, false,
  ==→eq,
}
use twcos.Kernel.Threads.{
  list_append, list_prepend, Thread, runnable, Scheduler, set_queue, thread_queue, thread_prequeue,
  arch_thread_switch, pick_next, thread_schedule, thread_yield, thread_preempt,
}

-- How often a thread stands in a queue, and in all of them.
abbrev pub times : ℕ → List ℕ → ℕ
times t [] = 0
times t (x ∷ queue) = (if x == t then 1 else 0) + times t queue

abbrev pub times_all : ℕ → List (List ℕ) → ℕ
times_all t [] = 0
times_all t (queue ∷ queues) = times t queue + times_all t queues

-- How often a thread is queued or running.
abbrev pub present : ℕ → Scheduler → ℕ
present t s = (if s.current == t then 1 else 0) + times_all t s.queues

times-append :
    (t : ℕ) (xs : List ℕ) (x : ℕ) → times t (xs ++ x ∷ []) ≡ (if x == t then 1 else 0) + times t xs
times-append t [] x = omega arith
times-append t (y ∷ xs) x = omega (arith, times-append t xs x)

times_all-set :
    (t p x : ℕ) (queues : List (List ℕ)) (queue : List ℕ)
    → p < length queues
    → times t queue ≡ (if x == t then 1 else 0) + times t (get_or queues p [])
    → times_all t (set queues p queue) ≡ (if x == t then 1 else 0) + times_all t queues
times_all-set t p x [] queue b h = absurd (omega arith)
times_all-set t zero x (q ∷ queues) queue b h = omega (arith, h)
times_all-set t (suc p) x (q ∷ queues) queue b h =
    omega (arith, times_all-set t p x queues queue (omega arith) h)

-- What a choice leaves: the queues without the thread chosen.
abbrev Picks : ℕ → List (List ℕ) → Option (ℕ × List (List ℕ)) → Type 0
Picks t queues none = times_all t queues ≡ 0
Picks t queues (some (next, queues')) =
    times_all t queues ≡ (if next == t then 1 else 0) + times_all t queues'

pick_next-Picks : (t : ℕ) (queues : List (List ℕ)) → Picks t queues (pick_next queues)
unfolding pick_next
pick_next-Picks t [] = refl
pick_next-Picks t ((next ∷ queue) ∷ queues) = omega arith
pick_next-Picks t ([] ∷ queues) = behind (pick_next queues) (pick_next-Picks t queues)
  where
    behind :
        (o : Option (ℕ × List (List ℕ)))
        → Picks t queues o
        → Picks t
            ([] ∷ queues)
            (elim o [ none ↦ none | some (next, queues') ↦ some (next, [] ∷ queues') ])
    behind none h = omega (arith, h)
    behind (some (next, queues')) h = omega (arith, h)

current-switch :
    (next : ℕ) (s : Scheduler)
    → ((arch_thread_switch next s).current ≡ next) × ((arch_thread_switch next s).queues ≡ s.queues)
unfolding arch_thread_switch
current-switch next s = elim (Bool-cases (s.current == next)) [
  | inl h ↦ rw h (==→eq s.current next h, refl)
  | inr h ↦ rw h (refl, refl)
]

-- What a scheduling leaves: each thread as often as it was in the queues before.
abbrev Keeps : ℕ → ℕ → Option Scheduler → Type 0
Keeps t n none = n ≡ 0
Keeps t n (some s) = present t s ≡ n

thread_schedule-Keeps : (t : ℕ) (s : Scheduler) → Keeps t (times_all t s.queues) (thread_schedule s)
unfolding thread_schedule
thread_schedule-Keeps t s = chosen (pick_next s.queues) (pick_next-Picks t s.queues)
  where
    chosen :
        (o : Option (ℕ × List (List ℕ)))
        → Picks t s.queues o
        → Keeps t (times_all t s.queues) (elim o [
          | none ↦ none
          | some (next, queues') ↦ some (arch_thread_switch next (record s { queues = queues' }))
        ])
    chosen none h = h
    chosen (some (next, queues')) h =
        let (c, q) = current-switch next (record s { queues = queues' }) in rw (c, q) (sym h)

times-prepend :
    (t x : ℕ) (queue : List ℕ)
    → times t (list_prepend queue x) ≡ (if x == t then 1 else 0) + times t queue
times-prepend t x [] = omega arith
times-prepend t x (y ∷ queue) = omega (arith, times-append t queue y)

-- A scheduling that finds a thread, and leaves `t` queued or running `n` times.
abbrev pub Scheduled : ℕ → ℕ → Option Scheduler → Type 0
Scheduled t n none = false ≡ true
Scheduled t n (some s) = present t s ≡ n

Keeps-Scheduled :
    (t n current m : ℕ) (o : Option Scheduler)
    → 1 ≤ m
    → Keeps current m o
    → Keeps t n o
    → Scheduled t n o
Keeps-Scheduled t n current m none l c k = absurd (omega arith)
Keeps-Scheduled t n current m (some s) l c k = k

present-current : (s : Scheduler) → 1 ≤ present s.current s
present-current s = ground (arith, ==_refl s.current)

thread_yield-Keeps :
    (t : ℕ) (s : Scheduler)
    → (s.threads s.current).priority < length s.queues
    → Keeps t (present t s) (thread_yield s)
unfolding thread_yield thread_queue
thread_yield-Keeps t s b =
    let p = (s.threads s.current).priority in
    let q = get_or s.queues p [] in
    let last =
      times_all-set t p s.current s.queues (list_append q s.current) b
        (times-append t q s.current) in
    rw (← last) (thread_schedule-Keeps t (set_queue p (thread_queue q s.current runnable s)))

thread_preempt-Keeps :
    (t : ℕ) (s : Scheduler)
    → (s.threads s.current).priority < length s.queues
    → Keeps t (present t s) (thread_preempt s)
unfolding thread_preempt thread_prequeue
thread_preempt-Keeps t s b =
    let p = (s.threads s.current).priority in
    let q = get_or s.queues p [] in
    let first =
      times_all-set t p s.current s.queues (list_prepend q s.current) b
        (times-prepend t s.current q) in
    rw (← first) (thread_schedule-Keeps t (set_queue p (thread_prequeue q s.current runnable s)))

-- `thread_yield` and `thread_preempt` never find the run queues empty, and every thread is queued or
-- running as often after them as before, provided that the priority of the running thread is one
-- of those with a queue.
pub thread_yield-Scheduled :
    (t : ℕ) (s : Scheduler)
    → (s.threads s.current).priority < length s.queues
    → Scheduled t (present t s) (thread_yield s) × Scheduled t (present t s) (thread_preempt s)
thread_yield-Scheduled t s b =
    let c = s.current in
    (
      Keeps-Scheduled t (present t s) c (present c s) (thread_yield s) (present-current s)
          (thread_yield-Keeps c s b) (thread_yield-Keeps t s b),
      Keeps-Scheduled t (present t s) c (present c s) (thread_preempt s) (present-current s)
          (thread_preempt-Keeps c s b) (thread_preempt-Keeps t s b),
    )

pick_next-first :
    (p x : ℕ) (queue : List ℕ) (rest : List (List ℕ))
    → pick_next (replicate p [] ++ (x ∷ queue) ∷ rest) ≡ some (x, replicate p [] ++ queue ∷ rest)
unfolding pick_next
pick_next-first zero x queue rest = refl
pick_next-first (suc p) x queue rest = rw (pick_next-first p x queue rest)

set-first :
    (p : ℕ) (queue queue' : List ℕ) (rest : List (List ℕ))
    → set (replicate p [] ++ queue ∷ rest) p queue' ≡ replicate p [] ++ queue' ∷ rest
set-first zero queue queue' rest = refl
set-first (suc p) queue queue' rest = ap (λ qs. [] ∷ qs) (set-first p queue queue' rest)

get_or-first :
    (p : ℕ) (queue : List ℕ) (rest : List (List ℕ))
    → get_or (replicate p [] ++ queue ∷ rest) p [] ≡ queue
get_or-first zero queue rest = refl
get_or-first (suc p) queue rest = get_or-first p queue rest

-- Who runs, and the run queues.
abbrev pub Runs : ℕ → List (List ℕ) → Option Scheduler → Type 0
Runs t queues none = false ≡ true
Runs t queues (some s) = (s.current ≡ t) × (s.queues ≡ queues)

-- Where no thread of a more urgent priority is queued, `thread_yield` runs the first thread of the
-- running thread's own queue, and puts the running thread at the end of that queue.
pub thread_yield-Runs :
    (threads : ℕ → Thread) (current x : ℕ) (queue : List ℕ) (rest : List (List ℕ))
    → let p = (threads current).priority in
      let s : Scheduler = record {
        threads = threads;
        queues = replicate p [] ++ (x ∷ queue) ∷ rest;
        current = current;
      } in
      Runs x (replicate p [] ++ (queue ++ current ∷ []) ∷ rest) (thread_yield s)
unfolding thread_yield thread_schedule thread_queue
thread_yield-Runs threads current x queue rest =
    let p = (threads current).priority in
    let next : List (List ℕ) = replicate p [] ++ (queue ++ current ∷ []) ∷ rest in
    rw
      (
        get_or-first p (x ∷ queue) rest,
        set-first p (x ∷ queue) (x ∷ queue ++ current ∷ []) rest,
        thread_schedule,
        pick_next-first p x (queue ++ current ∷ []) rest,
      )
      (current-switch x _)
