-- ===== src/Libk/Exception/Blocks.antt =====
-- Programs with KTRY blocks of libk/exception.c: how they run on the chain of frames, and what they
-- mean without one.
use twcos.Common.{ℕ, Bool, true, false, Option, none, some, List, ◌∷◌, if◌then◌else◌}
use twcos.Libk.Exception.{
  ExceptionDef, Site, Cause, Frame, DtorOps, Machine, Outcome, ok, jumped, crashed, type_matches,
  exception_push, exception_throw_cause, exception_match, try_loop,
}

-- A program: a change of the world, a throw, a sequence, or a block at a place, with its clauses and
-- its last part.
mutual
  pub data Stmt (D : Type 0) : Type 0 where
    act : (D → D) → Stmt D
    throw : Cause → Stmt D
    seq : Stmt D → Stmt D → Stmt D
    ktry : Site → (body : Stmt D) → Clauses D → (finally : Stmt D) → Stmt D

  pub data Clauses (D : Type 0) : Type 0 where
    no_clause : Clauses D
    kcatch : ExceptionDef → Stmt D → Clauses D → Clauses D

-- A round for each state of a frame.
abbrev pub rounds : ℕ
rounds = 5

module _ {D : Type 0} (ops : DtorOps D) where
  open ops use {poll_frame, pop}

  -- What stands behind a piece of code runs when that goes on behind itself.
  abbrev pub on_ok : (Machine D → Outcome D) → Outcome D → Outcome D
  on_ok next (ok m) = next m
  on_ok next (jumped m) = jumped m
  on_ok next crashed = crashed

  -- A clause runs if its type matches, and otherwise what follows it.
  abbrev pub on_match :
      (Machine D → Outcome D) → Option (Outcome D) → Option (Machine D) → Option (Outcome D)
  on_match code rest none = rest
  on_match code rest (some m) = some (code m)

  -- The macros, on the chain of frames.
  unfoldable mutual
    unfolding exception_throw_cause try_loop exception_push exception_match

    pub run : Stmt D → Machine D → Outcome D
    run (act g) m = ok (record m { world = g m.world })
    run (throw cause) m = exception_throw_cause ops cause m
    run (seq a b) m = on_ok (λ m. run b m) (run a m)
    run (ktry site body clauses finally) m =
        try_loop ops rounds site (λ m. run body m) (λ m. run_clauses clauses m) (λ m. run finally m)
          (exception_push ops site m)

    pub run_clauses : Clauses D → Machine D → Option (Outcome D)
    run_clauses no_clause m = none
    run_clauses (kcatch type s clauses) m =
        on_match (λ m. run s m) (run_clauses clauses m) (exception_match ops type m)

  -- The meaning: the exception that comes out, if one does, and the world.
  abbrev pub or_cause : Option Cause → Option Cause → Option Cause
  or_cause none o = o
  or_cause (some c) o = some c

  -- Nothing is run behind an exception.
  abbrev pub after_first : (D → Option Cause × D) → Option Cause × D → Option Cause × D
  after_first next (none, d) = next d
  after_first next (some c, d) = (some c, d)

  -- After the clauses: whether an exception was caught, the one that is left, and the world.
  abbrev pub after_clauses : Cause → D → Option (Option Cause × D) → Bool × Option Cause × D
  after_clauses c d none = (false, some c, d)
  after_clauses c d (some (o, d')) = (true, o, d')

  abbrev pub after_body :
      (Cause → D → Option (Option Cause × D)) → Option Cause × D → Bool × Option Cause × D
  after_body clauses (none, d) = (false, none, d)
  after_body clauses (some c, d) = after_clauses c d (clauses c d)

  -- The last part runs in any case, then the destructors of the block. An exception of the last part
  -- takes the place of one before it; where one was caught, none comes out.
  abbrev pub closing : ℕ → (D → Option Cause × D) → Bool × Option Cause × D → Option Cause × D
  closing start finally (caught, o, d) =
      let (o', d') = finally d in (if caught then none else or_cause o' o, pop start d')

  unfoldable mutual
    pub eval : Stmt D → D → Option Cause × D
    eval (act g) d = (none, g d)
    eval (throw cause) d = (some cause, d)
    eval (seq a b) d = after_first (λ d. eval b d) (eval a d)
    eval (ktry site body clauses finally) d =
        closing (poll_frame d) (λ d. eval finally d)
          (after_body (λ c d. eval_clauses clauses c d) (eval body d))

    pub eval_clauses : Clauses D → Cause → D → Option (Option Cause × D)
    eval_clauses no_clause c d = none
    eval_clauses (kcatch type s clauses) c d =
        let rest = eval_clauses clauses c d in
        let caught = some (eval s d) in if type_matches c.type type then caught else rest

  -- What a program does to the machine, when its meaning is `r`: the chain is as it was, but for the
  -- cause that a throw writes to its first frame.
  abbrev pub leaves : Frame → List Frame → Option Cause × D → Outcome D
  leaves f fs (none, d) = ok (record { frames = f ∷ fs; world = d })
  leaves f fs (some c, d) = jumped (record { frames = record f { cause = some c } ∷ fs; world = d })
