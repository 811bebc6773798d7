-- ===== src/Kernel/Timer/Deadlines.antt =====
-- What the queue of kernel/timer.c means: each event's delay from now on, in order.
use twcos.Common.{ℕ, ◌≡◌, refl, List, [], ◌∷◌, arith, if◌then◌else◌, Bool-cases, inl, inr}
use twcos.Common.Int.{ℤ, pos, ◌+ℤ◌, ◌-ℤ◌, ltb_ℤ, +ℤ_parts, int_laws}
use twcos.Kernel.Timer.{
  TimerOps, TimerEvent, Timers, set_first, cancel_first, timer_insert, timer_add,
}

-- An event's address with the time, counted from `now`, at which it is due.
abbrev pub deadlines : ℤ → List TimerEvent → List (ℕ × ℤ)
deadlines now [] = []
deadlines now (e ∷ rest) = (e.id, now +ℤ e.usec) ∷ deadlines (now +ℤ e.usec) rest

-- A new deadline goes behind those that are not later.
abbrev pub schedule : ℕ × ℤ → List (ℕ × ℤ) → List (ℕ × ℤ)
schedule d [] = d ∷ []
schedule d (x ∷ rest) = if ltb_ℤ d.1 x.1 then d ∷ x ∷ rest else x ∷ schedule d rest

add_sub : (now a b : ℤ) → (now +ℤ a) +ℤ (b -ℤ a) ≡ now +ℤ b
add_sub now a b = omega int_laws

ltb_shift : (now a b : ℤ) → ltb_ℤ (now +ℤ a) (now +ℤ b) ≡ ltb_ℤ a b
ltb_shift now a b = ground (arith, +ℤ_parts now a, +ℤ_parts now b)

-- Putting an event into the queue puts its deadline among those of the others, behind those that
-- are not later, and moves no other deadline.
pub deadlines-timer_insert :
    (now : ℤ) (e : TimerEvent) (q : List TimerEvent)
    → deadlines now (timer_insert e q) ≡ schedule (e.id, now +ℤ e.usec) (deadlines now q)
unfolding timer_insert
deadlines-timer_insert now e [] = refl
deadlines-timer_insert now e (x ∷ rest) =
    let e' : TimerEvent = record e { usec = e.usec -ℤ x.usec } in
    elim (Bool-cases (ltb_ℤ e.usec x.usec)) [
      | inl sooner ↦ rw (ltb_shift, sooner, add_sub now e.usec x.usec)
      | inr later ↦ rw (
        ltb_shift,
        later,
        deadlines-timer_insert (now +ℤ x.usec) e' rest,
        add_sub now x.usec e.usec,
      )
    ]

-- Every deadline moved closer by `taken`.
abbrev pub sooner : ℤ → List (ℕ × ℤ) → List (ℕ × ℤ)
sooner taken [] = []
sooner taken ((id, due) ∷ rest) = (id, due -ℤ taken) ∷ sooner taken rest

deadlines-sooner :
    (now taken : ℤ) (q : List TimerEvent)
    → deadlines (now -ℤ taken) q ≡ sooner taken (deadlines now q)
deadlines-sooner now taken [] = refl
deadlines-sooner now taken (e ∷ rest) =
    let same : (now -ℤ taken) +ℤ e.usec ≡ (now +ℤ e.usec) -ℤ taken = omega int_laws in
    rw (same, deadlines-sooner (now +ℤ e.usec) taken rest)

zero_add : (a : ℤ) → pos 0 +ℤ a ≡ a
zero_add a = omega int_laws

-- With `S` the state of the hardware and `taken` what `timer_clear` returns for a queue that is
-- not empty.
module _ {S : Type 0} (ops : TimerOps S) where
  abbrev pub taken : Timers S → ℤ
  taken t = (ops.timer_clear t.dev).0

  deadlines-cancel_first :
      (t : Timers S)
      → deadlines (pos 0) (cancel_first ops t).queue ≡ sooner (taken t) (deadlines (pos 0) t.queue)
  unfolding cancel_first
  deadlines-cancel_first t = by_queue t.queue t.dev
    where
      by_queue :
          (q : List TimerEvent) (dev : S)
          → deadlines (pos 0) (cancel_first ops (record { queue = q; dev = dev })).queue
            ≡ sooner (ops.timer_clear dev).0 (deadlines (pos 0) q)
      by_queue [] dev = refl
      by_queue (e ∷ rest) dev =
          let due = (ops.timer_clear dev).0 in
          let same : pos 0 +ℤ (e.usec -ℤ due) ≡ (pos 0 +ℤ e.usec) -ℤ due = omega int_laws in
          rw (same, deadlines-sooner (pos 0 +ℤ e.usec) due rest)

  queue-set_first : (t : Timers S) → (set_first ops t).queue ≡ t.queue
  unfolding set_first
  queue-set_first t = ground arith

  -- `timer_add` moves every deadline closer by what `timer_clear` returned, and adds the new event
  -- at its delay `usec`, behind the events that are not later.
  pub deadlines-timer_add :
      (id : ℕ) (usec : ℤ) (cb p : ℕ) (t : Timers S)
      → deadlines (pos 0) (timer_add ops id usec cb p t).queue
        ≡ schedule (id, usec) (sooner (taken t) (deadlines (pos 0) t.queue))
  unfolding timer_add
  deadlines-timer_add id usec cb p t =
      let e : TimerEvent = record { id = id; usec = usec; cb = cb; p = p } in
      let t' = cancel_first ops t in
      rw (
        queue-set_first (record t' { queue = timer_insert e t'.queue }),
        deadlines-timer_insert (pos 0) e t'.queue,
        zero_add usec,
        deadlines-cancel_first t,
      )
