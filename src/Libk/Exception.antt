-- ===== src/Libk/Exception.antt =====
-- libk/exception.c: the chain of try blocks of a thread, and the macros KTRY, KCATCH and KFINALLY.
-- `setjmp` and `longjmp` come to this: a throw goes on at the loop of the block whose frame is the
-- first of the chain. What destructors do is a parameter.
pub mod Blocks
pub mod Meaning
mod Tests
use twcos.Common.{
  ℕ, zero, suc, Bool, true, false, ◌&&◌, not, Option, none, some, List, [], ◌∷◌, ◌==◌,
  if◌then◌else◌, ◌⊎◌, inl, inr,
}
use twcos.Common.Int.{is_zero}
use twcos.Libk.Strings.{strcmp}

-- `exception_def`: a name, and the parent, which may be NULL.
pub data ExceptionDef : Type 0 where
  root_def : List ℕ → ExceptionDef
  derived_def : List ℕ → ExceptionDef → ExceptionDef

abbrev pub def_name : ExceptionDef → List ℕ
def_name (root_def name) = name
def_name (derived_def name parent) = name

-- "Throwable", "Exception", "Error" and "RuntimeException"
abbrev pub throwable : ExceptionDef
throwable = root_def (84 ∷ 104 ∷ 114 ∷ 111 ∷ 119 ∷ 97 ∷ 98 ∷ 108 ∷ 101 ∷ [])

abbrev pub exception : ExceptionDef
exception = derived_def (69 ∷ 120 ∷ 99 ∷ 101 ∷ 112 ∷ 116 ∷ 105 ∷ 111 ∷ 110 ∷ []) throwable

abbrev pub error : ExceptionDef
error = derived_def (69 ∷ 114 ∷ 114 ∷ 111 ∷ 114 ∷ []) throwable

abbrev pub runtime_exception : ExceptionDef
runtime_exception =
    derived_def
      (82 ∷ 117 ∷ 110 ∷ 116 ∷ 105 ∷ 109 ∷ 101 ∷ 69 ∷ 120 ∷ 99 ∷ 101 ∷ 112 ∷ 116 ∷ 105 ∷ 111 ∷ 110
        ∷ [])
      exception

-- A place in a file: `file` is compared as a pointer.
pub record Site : Type 0 where
  pub file : ℕ
  pub line : ℕ

pub record Cause : Type 0 where
  pub type : ExceptionDef
  pub site : Site
  pub message : List ℕ

-- `enum estates`
pub data FrameState : Type 0 where
  exception_new exception_trying exception_catching exception_finishing : FrameState

pub record Frame : Type 0 where
  pub site : Site
  pub state : FrameState
  pub caught : Bool
  pub dtor_frame : ℕ
  pub cause : Option Cause

-- `dtor_poll_frame` and `dtor_pop` on all that a program may change.
pub record DtorOps (D : Type 0) : Type 0 where
  pub poll_frame : D → ℕ
  pub pop : ℕ → D → D

pub record Machine (D : Type 0) : Type 0 where
  pub frames : List Frame
  pub world : D

-- `while(type)` of `exception_match`
unfoldable pub type_matches : ExceptionDef → ExceptionDef → Bool
type_matches (root_def name) match = is_zero (strcmp name (def_name match))
type_matches (derived_def name parent) match =
    let rest = type_matches parent match in
    if is_zero (strcmp name (def_name match)) then true else rest

-- What a piece of code ends with: it goes on behind itself, or at the loop of the first frame's block;
-- or NULL is read, the stack of frames is found empty, or the fuel is used up.
pub data Outcome (D : Type 0) : Type 0 where
  ok : Machine D → Outcome D
  jumped : Machine D → Outcome D
  crashed : Outcome D

-- Where `exception_finished` stops: at a block that goes on, or at one that is left.
pub data Search : Type 0 where
  going_on : List Frame → Search
  leaving : Frame → List Frame → Search
  no_frame : Search

abbrev pub is_site : Site → Frame → Bool
is_site site f = f.site.file == site.file && f.site.line == site.line

abbrev pub keep_frame : Frame → Search → Search
keep_frame f (going_on fs) = going_on (f ∷ fs)
keep_frame f (leaving g fs) = leaving g fs
keep_frame f no_frame = no_frame

-- The switch.
abbrev pub next_state : Frame → List Frame → Search
next_state f fs = elim f.state [
  | exception_new ↦ going_on (record f { state = exception_trying } ∷ fs)
  | exception_trying ↦ elim f.cause [
    | some c ↦ going_on (record f { state = exception_catching } ∷ fs)
    | none ↦ going_on (record f { state = exception_finishing } ∷ fs)
  ]
  | exception_catching ↦ going_on (record f { state = exception_finishing } ∷ fs)
  | exception_finishing ↦ leaving f fs
]

-- `while(frame->file != file || frame->line != line)`
unfoldable pub find_frame : Site → List Frame → Search
find_frame site [] = no_frame
find_frame site (f ∷ fs) =
    let rest = keep_frame f (find_frame site fs) in if is_site site f then next_state f fs else rest

module _ {D : Type 0} (ops : DtorOps D) where
  open ops use {poll_frame, pop}

  unfoldable pub exception_push : Site → Machine D → Machine D
  exception_push site m = record m {
    frames =
        record {
          site = site;
          state = exception_new;
          caught = false;
          dtor_frame = poll_frame m.world;
          cause = none;
        }
        ∷ m.frames;
  }

  unfoldable pub exception_throw_cause : Cause → Machine D → Outcome D
  exception_throw_cause cause m = elim m.frames [
    | [] ↦ crashed
    | f ∷ fs ↦ jumped (record m { frames = record f { cause = some cause } ∷ fs })
  ]

  -- `dtor_pop`, `tls_set`, and the exception of a block that did not catch it.
  unfoldable pub leave_frame : Frame → Machine D → Outcome D
  unfolding exception_throw_cause
  leave_frame f m =
      let m' = record m { world = pop f.dtor_frame m.world } in
      elim f.cause [
        | none ↦ ok m'
        | some c ↦ if not f.caught then exception_throw_cause c m' else ok m'
      ]

  -- The result 0 is `inl`, with the machine; the result 1 and the throw are `inr`.
  unfoldable pub exception_finished : Site → Machine D → Machine D ⊎ Outcome D
  unfolding find_frame leave_frame
  exception_finished site m = elim (find_frame site m.frames) [
    | going_on fs ↦ inl (record m { frames = fs })
    | leaving f fs ↦ inr (leave_frame f (record m { frames = fs }))
    | no_frame ↦ inr crashed
  ]

  abbrev pub is_trying : FrameState → Bool
  is_trying exception_trying = true
  is_trying _ = false

  abbrev pub is_finishing : FrameState → Bool
  is_finishing exception_finishing = true
  is_finishing _ = false

  unfoldable pub exception_try : Machine D → Bool
  exception_try m = elim m.frames [ [] ↦ false | f ∷ _ ↦ is_trying f.state ]

  -- The machine when the result is 1: the frame has caught its exception.
  unfoldable pub exception_match : ExceptionDef → Machine D → Option (Machine D)
  unfolding type_matches
  exception_match match m = elim m.frames [
    | [] ↦ none
    | f ∷ fs ↦ elim f.state [
      | exception_catching ↦ elim f.cause [
        | none ↦ none
        | some c ↦
            if type_matches c.type match
            then some (record m { frames = record f { caught = true } ∷ fs })
            else none
      ]
      | _ ↦ none
    ]
  ]

  unfoldable pub exception_finally : Machine D → Bool
  exception_finally m = elim m.frames [ [] ↦ false | f ∷ _ ↦ is_finishing f.state ]

  -- What runs where no clause does.
  abbrev pub or_finally : Outcome D → Option (Outcome D) → Outcome D
  or_finally rest none = rest
  or_finally rest (some o) = o

  -- One turn of `while(!exception_finished(...)) if (exception_try()) ... else if ...`: the bodies are
  -- arguments; the clauses give `none` when no type matches. After a throw the loop goes on too.
  abbrev pub turn :
      (body : Machine D → Outcome D) (clauses : Machine D → Option (Outcome D))
      (finally : Machine D → Outcome D)
      → Machine D
      → Outcome D
  turn body clauses finally m =
      if exception_try m
      then body m
      else or_finally (if exception_finally m then finally m else ok m) (clauses m)

  unfoldable pub try_loop :
      ℕ
      → Site
      → (body : Machine D → Outcome D) (clauses : Machine D → Option (Outcome D))
        (finally : Machine D → Outcome D)
      → Machine D
      → Outcome D
  unfolding exception_finished exception_try exception_finally
  try_loop zero site body clauses finally m = crashed
  try_loop (suc f) site body clauses finally m = elim (exception_finished site m) [
    | inr o ↦ o
    | inl m' ↦ elim (turn body clauses finally m') [
      | ok m'' ↦ try_loop f site body clauses finally m''
      | jumped m'' ↦ try_loop f site body clauses finally m''
      | crashed ↦ crashed
    ]
  ]
