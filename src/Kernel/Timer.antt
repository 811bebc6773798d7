-- ===== src/Kernel/Timer.antt =====
-- kernel/timer.c: the queue of pending timers. An event stores its delay after the event before
-- it. The hardware timer is the record `TimerOps`, as `timer_ops_t` is for the code.
pub mod Deadlines
pub mod Removal
mod Tests
use twcos.Common.{ℕ, zero, suc, Bool, Option, none, some, List, [], ◌∷◌, ◌==◌, if◌then◌else◌}
use twcos.Common.Int.{ℤ, pos, negsuc, ◌+ℤ◌, ◌-ℤ◌, ltb_ℤ}

-- `timer_ops_t`: operations on the state `S` of the timer hardware.
pub record TimerOps (S : Type 0) : Type 0 where
  pub timer_set : ℤ → S → S
  pub timer_clear : S → ℤ × S

-- `timer_event_t`: `id` is the event's address, `cb` the callback's (0 is NULL), `p` its argument.
pub record TimerEvent : Type 0 where
  pub id : ℕ
  pub usec : ℤ
  pub cb : ℕ
  pub p : ℕ

-- `timer_t`, with the links of `queue` as a list, beside the state of the hardware.
pub record Timers (S : Type 0) : Type 0 where
  pub queue : List TimerEvent
  pub dev : S

module _ {S : Type 0} (ops : TimerOps S) where
  -- "Start next timer" / "Set the timer": nothing is set for an empty queue.
  unfoldable pub set_first : Timers S → Timers S
  set_first t = elim t.queue [ [] ↦ t | e ∷ _ ↦ record t { dev = ops.timer_set e.usec t.dev } ]

  -- "Cancel the current outstanding timer": the head loses what `timer_clear` returns.
  unfoldable pub cancel_first : Timers S → Timers S
  cancel_first t = elim t.queue [
    | [] ↦ t
    | e ∷ rest ↦
        let (taken, dev') = ops.timer_clear t.dev in
        record { queue = record e { usec = e.usec -ℤ taken } ∷ rest; dev = dev' }
  ]

-- The loop of `timer_add`, and the two assignments through `pprev` that follow it.
unfoldable pub timer_insert : TimerEvent → List TimerEvent → List TimerEvent
timer_insert timer [] = timer ∷ []
timer_insert timer (next ∷ rest) =
    let further = next ∷ timer_insert (record timer { usec = timer.usec -ℤ next.usec }) rest in
    if ltb_ℤ timer.usec next.usec
    then timer ∷ record next { usec = next.usec -ℤ timer.usec } ∷ rest
    else further

-- "timer->next->usec += timer->usec"
unfoldable pub carry : ℤ → List TimerEvent → List TimerEvent
carry d [] = []
carry d (e ∷ rest) = record e { usec = e.usec +ℤ d } ∷ rest

-- The loop of `timer_delete` at the node `next`, whose tail is the second list. `pprev` is still
-- `&timers->queue` when the event is found: the loop advances `next` alone.
unfoldable pub timer_unlink : ℕ → List TimerEvent → List TimerEvent → List TimerEvent
timer_unlink id queue [] = queue
timer_unlink id queue (next ∷ rest) =
    if next.id == id then carry next.usec rest else timer_unlink id queue rest

-- What the deleted event holds afterwards: no callback and no argument.
unfoldable pub timer_cleared : ℕ → List TimerEvent → Option TimerEvent
timer_cleared id [] = none
timer_cleared id (next ∷ rest) =
    if next.id == id then some (record next { cb = 0; p = 0 }) else timer_cleared id rest

module _ {S : Type 0} (ops : TimerOps S) where
  -- `timer_add`; `id` is the address that `malloc` returns.
  unfoldable pub timer_add : (id : ℕ) (usec : ℤ) (cb p : ℕ) → Timers S → Timers S
  unfolding set_first cancel_first
  timer_add id usec cb p t =
      let t' = cancel_first ops t in
      let timer : TimerEvent = record { id = id; usec = usec; cb = cb; p = p } in
      set_first ops (record t' { queue = timer_insert timer t'.queue })

  unfoldable pub timer_delete : ℕ → Timers S → Timers S × Option TimerEvent
  unfolding set_first cancel_first
  timer_delete id t =
      let t' = cancel_first ops t in
      (
        set_first ops (record t' { queue = timer_unlink id t'.queue t'.queue }),
        timer_cleared id t'.queue,
      )

  -- `timer_expire`. The callback runs with the lock released and may change the timers.
  unfoldable pub timer_expire : (ℕ → ℕ → Timers S → Timers S) → Timers S → Timers S
  unfolding set_first
  timer_expire call t = elim t.queue [
    | [] ↦ t
    | e ∷ rest ↦ set_first ops (call e.cb e.p (record t { queue = rest }))
  ]
