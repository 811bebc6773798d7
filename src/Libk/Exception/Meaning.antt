-- ===== src/Libk/Exception/Meaning.antt =====
-- The chain of frames of libk/exception.c gives programs with KTRY blocks their meaning.
use twcos.Common.{
  ℕ, suc, ◌≡◌, refl, ap, ◌∙◌, Bool, true, false, Option, none, some, List, ◌∷◌, if◌then◌else◌,
  ==_refl, Bool-cases, inl, inr,
}
use twcos.Libk.Exception.{
  ExceptionDef, Site, Cause, FrameState, exception_new, exception_trying, exception_catching,
  exception_finishing, Frame, DtorOps, Machine, Outcome, ok, jumped, crashed, type_matches,
  find_frame, next_state, exception_push, exception_throw_cause, leave_frame, exception_finished,
  exception_try, exception_match, exception_finally, or_finally, try_loop,
}
use twcos.Libk.Exception.Blocks.{
  Stmt, act, throw, seq, ktry, Clauses, no_clause, kcatch, run, run_clauses, or_cause, after_first,
  after_clauses, after_body, closing, on_ok, on_match, eval, eval_clauses, leaves,
}

find_frame-here : (f : Frame) (fs : List Frame) → find_frame f.site (f ∷ fs) ≡ next_state f fs
unfolding find_frame
find_frame-here f fs = rw (==_refl f.site.file, ==_refl f.site.line)

module _ {D : Type 0} (ops : DtorOps D) (site : Site) (start : ℕ) where
  -- The frame of the block.
  abbrev frame : FrameState → Bool → Option Cause → Frame
  frame state caught cause = record {
    site = site;
    state = state;
    caught = caught;
    dtor_frame = start;
    cause = cause;
  }

  -- Parts that do what their meanings say.
  abbrev Does : (Machine D → Outcome D) → (D → Option Cause × D) → Type 0
  Does code meaning =
      (f : Frame) (fs : List Frame) (d : D)
      → code (record { frames = f ∷ fs; world = d }) ≡ leaves ops f fs (meaning d)

  abbrev clause_result : Cause → List Frame → Option (Option Cause × D) → Option (Outcome D)
  clause_result c fs none = none
  clause_result c fs (some r) = some (leaves ops (frame exception_catching true (some c)) fs r)

  module _ (body finally : Machine D → Outcome D) (clauses : Machine D → Option (Outcome D))
      (body' finally' : D → Option Cause × D) (clauses' : Cause → D → Option (Option Cause × D))
      (body_does : Does body body') (finally_does : Does finally finally')
      (clauses_do : (c : Cause) (fs : List Frame) (d : D)
        → clauses (record { frames = frame exception_catching false (some c) ∷ fs; world = d })
          ≡ clause_result c fs (clauses' c d))
      (clauses_idle : (caught : Bool) (o : Option Cause) (fs : List Frame) (d : D)
        → clauses (record { frames = frame exception_finishing caught o ∷ fs; world = d }) ≡ none)
      (f : Frame) (fs : List Frame) where
    abbrev loop : ℕ → Machine D → Outcome D
    loop n m = try_loop ops n site body clauses finally m

    -- The block is left.
    left :
        (n : ℕ) (caught : Bool) (o : Option Cause) (d : D)
        → loop (suc n) (record { frames = frame exception_finishing caught o ∷ f ∷ fs; world = d })
          ≡ leaves ops f fs (if caught then none else o, ops.pop start d)
    unfolding try_loop exception_finished leave_frame exception_throw_cause
    left n false none d = rw (
      find_frame-here (frame exception_finishing false none) (f ∷ fs),
      try_loop,
      exception_finished,
    )
    left n true none d = rw (
      find_frame-here (frame exception_finishing true none) (f ∷ fs),
      try_loop,
      exception_finished,
    )
    left n false (some c) d = rw (
      find_frame-here (frame exception_finishing false (some c)) (f ∷ fs),
      try_loop,
      exception_finished,
    )
    left n true (some c) d = rw (
      find_frame-here (frame exception_finishing true (some c)) (f ∷ fs),
      try_loop,
      exception_finished,
    )

    -- The last part has run, and the block is left.
    after_finally :
        (n : ℕ) (caught : Bool) (o : Option Cause) (r : Option Cause × D)
        → (elim (leaves ops (frame exception_finishing caught o) (f ∷ fs) r) [
          | ok m ↦ loop (suc n) m
          | jumped m ↦ loop (suc n) m
          | crashed ↦ crashed
        ])
          ≡ leaves ops f fs (if caught then none else or_cause ops r.0 o, ops.pop start r.1)
    after_finally n caught o (none, d) = left n caught o d
    after_finally n caught o (some c, d) = left n caught (some c) d

    -- The last part runs.
    from_catching :
        (n : ℕ) (caught : Bool) (o : Option Cause) (d : D)
        → loop
            (suc (suc n))
            (record { frames = frame exception_catching caught o ∷ f ∷ fs; world = d })
          ≡ leaves ops f fs (closing ops start finally' (caught, o, d))
    unfolding try_loop exception_finished exception_try exception_finally
    from_catching n caught o d =
        rw
          (
            find_frame-here (frame exception_catching caught o) (f ∷ fs),
            try_loop,
            exception_finished,
            clauses_idle caught o (f ∷ fs) d,
            finally_does (frame exception_finishing caught o) (f ∷ fs) d,
          )
          (after_finally n caught o (finally' d))

    from_trying :
        (n : ℕ) (d : D)
        → loop
            (suc (suc n))
            (record { frames = frame exception_trying false none ∷ f ∷ fs; world = d })
          ≡ leaves ops f fs (closing ops start finally' (false, none, d))
    unfolding try_loop exception_finished exception_try exception_finally
    from_trying n d =
        rw
          (
            find_frame-here (frame exception_trying false none) (f ∷ fs),
            try_loop,
            exception_finished,
            clauses_idle false none (f ∷ fs) d,
            finally_does (frame exception_finishing false none) (f ∷ fs) d,
          )
          (after_finally n false none (finally' d))

    -- The clauses run after an exception in the body.
    after_clause :
        (n : ℕ) (c : Cause) (d : D) (r : Option (Option Cause × D))
        → (elim (or_finally ops
            (ok (record { frames = frame exception_catching false (some c) ∷ f ∷ fs; world = d }))
            (clause_result c (f ∷ fs) r)) [
              | ok m ↦ loop (suc (suc n)) m
              | jumped m ↦ loop (suc (suc n)) m
              | crashed ↦ crashed
            ])
          ≡ leaves ops f fs (closing ops start finally' (after_clauses ops c d r))
    after_clause n c d none = from_catching n false (some c) d
    after_clause n c d (some (none, d')) = from_catching n true (some c) d'
    after_clause n c d (some (some c', d')) = from_catching n true (some c') d'

    from_throw :
        (n : ℕ) (c : Cause) (d : D)
        → loop
            (suc (suc (suc n)))
            (record { frames = frame exception_trying false (some c) ∷ f ∷ fs; world = d })
          ≡ leaves ops f fs (closing ops start finally' (after_clauses ops c d (clauses' c d)))
    unfolding try_loop exception_finished exception_try exception_finally
    from_throw n c d =
        rw
          (
            find_frame-here (frame exception_trying false (some c)) (f ∷ fs),
            try_loop,
            exception_finished,
            clauses_do c (f ∷ fs) d,
          )
          (after_clause n c d (clauses' c d))

    -- The block does what its parts mean.
    block_does :
        (n : ℕ) (d : D)
        → loop
            (suc (suc (suc (suc n))))
            (record { frames = frame exception_new false none ∷ f ∷ fs; world = d })
          ≡ leaves ops f fs (closing ops start finally' (after_body ops clauses' (body' d)))
    unfolding try_loop exception_finished exception_try
    block_does n d =
        rw
          (
            find_frame-here (frame exception_new false none) (f ∷ fs),
            try_loop,
            exception_finished,
            body_does (frame exception_trying false none) (f ∷ fs) d,
          )
          (after_body_runs (body' d))
      where
        after_body_runs :
            (r : Option Cause × D)
            → (elim (leaves ops (frame exception_trying false none) (f ∷ fs) r) [
              | ok m ↦ loop (suc (suc (suc n))) m
              | jumped m ↦ loop (suc (suc (suc n))) m
              | crashed ↦ crashed
            ])
              ≡ leaves ops f fs (closing ops start finally' (after_body ops clauses' r))
        after_body_runs (none, d) = from_trying (suc n) d
        after_body_runs (some c, d) = from_throw n c d

module _ {D : Type 0} (ops : DtorOps D) where
  abbrev at_frame : Frame → List Frame → D → Machine D
  at_frame f fs d = record { frames = f ∷ fs; world = d }

  -- No clause matches while the last part runs.
  idle :
      (clauses : Clauses D) (site : Site) (start : ℕ) (caught : Bool) (o : Option Cause)
      (fs : List Frame) (d : D)
      → run_clauses ops clauses (at_frame (frame ops site start exception_finishing caught o) fs d)
        ≡ none
  unfolding run exception_match
  idle no_clause site start caught o fs d = refl
  idle (kcatch type s clauses) site start caught o fs d = idle clauses site start caught o fs d

  then_runs :
      (b : Stmt D) (f : Frame) (fs : List Frame) (r : Option Cause × D)
      → ((f : Frame) (fs : List Frame) (d : D)
          → run ops b (record { frames = f ∷ fs; world = d }) ≡ leaves ops f fs (eval ops b d))
      → on_ok ops (λ m. run ops b m) (leaves ops f fs r)
        ≡ leaves ops f fs (after_first ops (λ d. eval ops b d) r)
  then_runs b f fs (none, d) does = does f fs d
  then_runs b f fs (some c, d) does = refl

  matched :
      (type : ExceptionDef) (site : Site) (start : ℕ) (c : Cause) (fs : List Frame) (d : D)
      (b : Bool)
      → type_matches c.type type ≡ b
      → exception_match ops type
          (at_frame (frame ops site start exception_catching false (some c)) fs d)
        ≡ (if b
            then some (at_frame (frame ops site start exception_catching true (some c)) fs d)
            else none)
  unfolding exception_match
  matched type site start c fs d b h = rw h refl

  mutual
    unfolding run eval exception_throw_cause exception_push exception_match

    run_does :
        (s : Stmt D) (f : Frame) (fs : List Frame) (d : D)
        → run ops s (at_frame f fs d) ≡ leaves ops f fs (eval ops s d)
    run_does (act g) f fs d = refl
    run_does (throw cause) f fs d = refl
    run_does (seq a b) f fs d =
        ap (λ o. on_ok ops (λ m. run ops b m) o) (run_does a f fs d)
        ∙ then_runs b f fs (eval ops a d) (λ f fs d. run_does b f fs d)
    run_does (ktry site body clauses finally) f fs d =
        block_does ops site (ops.poll_frame d) (λ m. run ops body m) (λ m. run ops finally m)
          (λ m. run_clauses ops clauses m) (λ d. eval ops body d) (λ d. eval ops finally d)
          (λ c d. eval_clauses ops clauses c d) (λ f fs d. run_does body f fs d)
          (λ f fs d. run_does finally f fs d)
          (λ c fs e. clauses_do clauses site (ops.poll_frame d) c fs e)
          (λ caught o fs e. idle clauses site (ops.poll_frame d) caught o fs e) f fs 1 d

    clauses_do :
        (clauses : Clauses D) (site : Site) (start : ℕ) (c : Cause) (fs : List Frame) (d : D)
        → run_clauses ops clauses
            (at_frame (frame ops site start exception_catching false (some c)) fs d)
          ≡ clause_result ops site start c fs (eval_clauses ops clauses c d)
    clauses_do no_clause site start c fs d = refl
    clauses_do (kcatch type s clauses) site start c fs d =
        let rest =
          run_clauses ops clauses
            (at_frame (frame ops site start exception_catching false (some c)) fs d) in
        elim (Bool-cases (type_matches c.type type)) [
          | inl h ↦
              ap (on_match ops (λ m. run ops s m) rest) (matched type site start c fs d true h)
              ∙ rw h (
                  ap some (run_does s (frame ops site start exception_catching true (some c)) fs d))
          | inr h ↦
              ap (on_match ops (λ m. run ops s m) rest) (matched type site start c fs d false h)
              ∙ rw h (clauses_do clauses site start c fs d)
        ]

  -- On a chain with at least one frame every program does what it means: the try blocks run their
  -- parts, clauses and destructors in the order of the meaning, the block's frame is taken off, the
  -- rest of the chain is as it was, and an exception that comes out is left in the first frame, where
  -- `longjmp` goes. Nothing ends in a NULL frame or without rounds.
  pub run-eval :
      (s : Stmt D) (f : Frame) (fs : List Frame) (d : D)
      → run ops s (record { frames = f ∷ fs; world = d }) ≡ leaves ops f fs (eval ops s d)
  run-eval s f fs d = run_does s f fs d
