-- ===== src/Kernel/Timer/Tests.antt =====
-- Runs of kernel/timer.c on small queues, and the theorems at them.
use twcos.Common.{ℕ, ◌≡◌, refl, List, [], ◌∷◌, arith}
use twcos.Common.Int.{ℤ, pos, ◌+ℤ◌, ◌-ℤ◌}
use twcos.Kernel.Timer.{TimerOps, TimerEvent, Timers, timer_insert, timer_unlink, timer_add}
use twcos.Kernel.Timer.Deadlines.{
  deadlines, schedule, sooner, taken, deadlines-timer_insert, deadlines-timer_add,
}
use twcos.Kernel.Timer.Removal.{timer_unlink-first, timer_unlink-absent}

-- A timer that counts down from what it was set to, and says that 100 have passed.
abbrev counter : TimerOps ℤ
counter = record { timer_set = λ usec _. usec; timer_clear = λ s. (pos 100, s) }

abbrev event : ℕ → ℕ → TimerEvent
event id usec = record { id = id; usec = pos usec; cb = 7; p = id }

abbrev three : List TimerEvent
three = event 1 500 ∷ event 2 200 ∷ event 3 50 ∷ []

abbrev timers : Timers ℤ
timers = record { queue = three; dev = pos 500 }

due_in_order : deadlines (pos 0) three ≡ (1, pos 500) ∷ (2, pos 700) ∷ (3, pos 750) ∷ []
unfolding ◌+ℤ◌
due_in_order = refl

timer_add_run :
    (timer_add counter 9 (pos 650) 7 9 timers).queue
    ≡ event 1 400 ∷ event 2 200 ∷ event 3 50 ∷ event 9 0 ∷ []
unfolding timer_add timer_insert ◌-ℤ◌
timer_add_run = refl

deadlines-timer_insert_example :
    deadlines (pos 0) (timer_insert (event 9 650) three)
    ≡ schedule (9, pos 0 +ℤ pos 650) (deadlines (pos 0) three)
deadlines-timer_insert_example = deadlines-timer_insert (pos 0) (event 9 650) three

deadlines-timer_add_example :
    deadlines (pos 0) (timer_add counter 9 (pos 650) 7 9 timers).queue
    ≡ schedule (9, pos 650) (sooner (taken counter timers) (deadlines (pos 0) three))
deadlines-timer_add_example = deadlines-timer_add counter 9 (pos 650) 7 9 timers

timer_unlink-first_example :
    deadlines (pos 0) (timer_unlink 1 three three)
    ≡ deadlines (pos 0 +ℤ pos 500) (event 2 200 ∷ event 3 50 ∷ [])
timer_unlink-first_example =
    timer_unlink-first (pos 0) (event 1 500) (event 2 200 ∷ event 3 50 ∷ [])

timer_unlink-absent_example : timer_unlink 8 three three ≡ three
timer_unlink-absent_example = timer_unlink-absent 8 three three (omega arith)
