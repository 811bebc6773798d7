-- ===== src/Libk/Exception/Tests.antt =====
-- A program with two nested blocks of libk/exception.c, and the theorems at it.
use twcos.Common.{ℕ, ◌≡◌, refl, none, List, [], ◌∷◌, true, false}
use twcos.Common.Int.{◌-ℤ◌}
use twcos.Libk.Strings.{strcmp}
use twcos.Libk.Exception.{
  throwable, exception, error, runtime_exception, Site, Cause, exception_trying, Frame, DtorOps, ok,
  type_matches,
}
use twcos.Libk.Exception.Blocks.{Stmt, act, throw, seq, ktry, no_clause, kcatch, run, eval, leaves}
use twcos.Libk.Exception.Meaning.{run-eval}

-- A world that is a log, the newest entry first; leaving a block is logged as 900 and its mark.
abbrev log_ops : DtorOps (List ℕ)
log_ops = record { poll_frame = λ d. 0; pop = λ mark d. 900 ∷ d }

abbrev here : ℕ → Site
here line = record { file = 1; line = line }

abbrev failure : Cause
failure = record { type = runtime_exception; site = here 5; message = [] }

abbrev note : ℕ → Stmt (List ℕ)
note n = act (λ d. n ∷ d)

-- An inner block that catches nothing, in an outer one with two clauses.
abbrev inner : Stmt (List ℕ)
inner =
    ktry (here 20) (seq (note 1) (seq (throw failure) (note 2))) (kcatch error (note 3) no_clause)
      (note 4)

abbrev nested : Stmt (List ℕ)
nested = ktry (here 10) inner (kcatch exception (note 5) no_clause) (note 6)

abbrev bottom : Frame
bottom = record {
  site = here 1;
  state = exception_trying;
  caught = false;
  dtor_frame = 0;
  cause = none;
}

is_runtime : type_matches runtime_exception throwable ≡ true
unfolding type_matches strcmp ◌-ℤ◌
is_runtime = refl

run-nested :
    run log_ops nested (record { frames = bottom ∷ []; world = [] })
    ≡ ok (record { frames = bottom ∷ []; world = 900 ∷ 6 ∷ 5 ∷ 900 ∷ 4 ∷ 1 ∷ [] })
unfolding run strcmp ◌-ℤ◌
run-nested = refl

run-eval_example :
    run log_ops nested (record { frames = bottom ∷ []; world = [] })
    ≡ leaves log_ops bottom [] (eval log_ops nested [])
run-eval_example = run-eval log_ops nested bottom [] []
