-- ===== src/Kernel/Timer/Removal.antt =====
-- What `timer_delete` leaves in the queue, and when the hardware is set.
use twcos.Common.{ℕ, ◌≡◌, ◌≢◌, refl, List, [], ◌∷◌, ◌++◌, All, ne→==, ==_refl}
use twcos.Common.Int.{ℤ, ◌+ℤ◌, int_laws}
use twcos.Kernel.Timer.{
  TimerOps, TimerEvent, Timers, set_first, carry, timer_unlink, timer_add, timer_delete,
  timer_expire,
}
use twcos.Kernel.Timer.Deadlines.{deadlines}

-- No event of the list has the address `id`.
abbrev pub IsFree : ℕ → List TimerEvent → Type 0
IsFree id = All (λ e. e.id ≢ id)

-- The delay of a deleted event is carried over, so the events behind it keep their deadlines.
pub deadlines-carry :
    (now : ℤ) (e : TimerEvent) (rest : List TimerEvent)
    → deadlines now (carry e.usec rest) ≡ deadlines (now +ℤ e.usec) rest
unfolding carry
deadlines-carry now e [] = refl
deadlines-carry now e (x ∷ rest) =
    let same : now +ℤ (x.usec +ℤ e.usec) ≡ (now +ℤ e.usec) +ℤ x.usec = omega int_laws in rw same

-- Deleting the first event of the queue leaves the events behind it, at the deadlines they had.
pub timer_unlink-first :
    (now : ℤ) (e : TimerEvent) (rest : List TimerEvent)
    → deadlines now (timer_unlink e.id (e ∷ rest) (e ∷ rest)) ≡ deadlines (now +ℤ e.usec) rest
unfolding timer_unlink
timer_unlink-first now e rest = rw (==_refl e.id) (deadlines-carry now e rest)

timer_unlink-walk :
    (queue before : List TimerEvent) (e : TimerEvent) (rest : List TimerEvent)
    → IsFree e.id before
    → timer_unlink e.id queue (before ++ e ∷ rest) ≡ carry e.usec rest
unfolding timer_unlink
timer_unlink-walk queue [] e rest h = rw (==_refl e.id)
timer_unlink-walk queue (x ∷ before) e rest h =
    rw (ne→== _ _ h.0) (timer_unlink-walk queue before e rest h.1)

-- Deleting an event cuts off every event that stands before it in the queue as well: only the
-- events behind it are left, the first of them with the deleted event's delay added to its own.
pub timer_unlink-middle :
    (before : List TimerEvent) (e : TimerEvent) (rest : List TimerEvent)
    → IsFree e.id before
    → timer_unlink e.id (before ++ e ∷ rest) (before ++ e ∷ rest) ≡ carry e.usec rest
timer_unlink-middle before e rest h = timer_unlink-walk (before ++ e ∷ rest) before e rest h

-- Deleting an event that is not in the queue changes nothing there.
pub timer_unlink-absent :
    (id : ℕ) (queue q : List TimerEvent) → IsFree id q → timer_unlink id queue q ≡ queue
unfolding timer_unlink
timer_unlink-absent id queue [] h = refl
timer_unlink-absent id queue (x ∷ q) h = rw (ne→== _ _ h.0) (timer_unlink-absent id queue q h.1)

module _ {S : Type 0} (ops : TimerOps S) where
  -- The hardware was last set to the delay of the queue's first event.
  abbrev pub IsArmed : Timers S → Type 0
  IsArmed t = elim t.queue [ [] ↦ Unit | e ∷ _ ↦ (d : S) × (t.dev ≡ ops.timer_set e.usec d) ]

  set_first-IsArmed :
      (q : List TimerEvent) (d : S) → IsArmed (set_first ops (record { queue = q; dev = d }))
  unfolding set_first
  set_first-IsArmed [] d = tt
  set_first-IsArmed (e ∷ q) d = (d, refl)

  -- After `timer_add`, after `timer_delete` and after `timer_expire`, whatever the callback does,
  -- the hardware is set for the first event of the queue that is left, if there is one.
  pub armed :
      (id : ℕ) (usec : ℤ) (cb p : ℕ) (call : ℕ → ℕ → Timers S → Timers S) (t : Timers S)
      → IsArmed (timer_add ops id usec cb p t)
        × IsArmed (timer_delete ops id t).0
        × IsArmed (timer_expire ops call t)
  unfolding timer_add timer_delete timer_expire
  armed id usec cb p call t = (set_first-IsArmed _ _, set_first-IsArmed _ _, expired t.queue t.dev)
    where
      expired :
          (q : List TimerEvent) (d : S)
          → IsArmed (timer_expire ops call (record { queue = q; dev = d }))
      expired [] d = tt
      expired (e ∷ q) d = set_first-IsArmed _ _
