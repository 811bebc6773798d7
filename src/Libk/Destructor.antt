-- ===== src/Libk/Destructor.antt =====
-- libk/destructor.c: the stack of destructors of a thread, and the cache of frames. A `dtor_t *` is
-- the address of its frame, 0 for NULL. The calls that `dtor_pop` makes are listed in their order;
-- what the functions called do is theirs.
pub mod Unwind
mod Tests
use twcos.Common.{
  ℕ, zero, suc, Bool, true, false, ◌&&◌, Option, none, some, List, [], ◌∷◌, ◌++◌, ◌==◌,
  if◌then◌else◌,
}

-- `dtor_t`: `dtor` is `none` for 0.
pub record DtorFrame : Type 0 where
  pub addr : ℕ
  pub dtor : Option ℕ
  pub p : ℕ

-- The list at the thread's key, and the list at `frames[0]`.
pub record Dtors : Type 0 where
  pub stack : List DtorFrame
  pub cache : List DtorFrame

abbrev pub head_addr : List DtorFrame → ℕ
head_addr [] = 0
head_addr (f ∷ fs) = f.addr

unfoldable pub dtor_poll_frame : Dtors → ℕ
dtor_poll_frame s = head_addr s.stack

-- The frame is taken from the cache, or it is new memory at `fresh`. The result is `frame->next`.
unfoldable pub dtor_push : (fresh : ℕ) → ℕ → ℕ → Dtors → ℕ × Dtors
dtor_push fresh dtor p s = elim s.cache [
  | [] ↦ (
    head_addr s.stack,
    record s { stack = record { addr = fresh; dtor = some dtor; p = p } ∷ s.stack },
  )
  | f ∷ cache ↦ (
    head_addr s.stack,
    record { stack = record { addr = f.addr; dtor = some dtor; p = p } ∷ s.stack; cache = cache },
  )
]

-- `if (frame->dtor) frame->dtor(frame->p)`
abbrev pub call_of : DtorFrame → List (ℕ × ℕ)
call_of f = elim f.dtor [ none ↦ [] | some d ↦ (d, f.p) ∷ [] ]

-- What `while(frame && until != frame)` has done when it ends: the calls, the frames passed with
-- their `dtor` cleared, and the frames left.
pub record Popped : Type 0 where
  pub calls : List (ℕ × ℕ)
  pub freed : List DtorFrame
  pub left : List DtorFrame

abbrev pub pass_frame : DtorFrame → Popped → Popped
pass_frame f r = record r {
  calls = call_of f ++ r.calls;
  freed = record f { dtor = none } ∷ r.freed;
}

unfoldable pub dtor_pop_loop : ℕ → List DtorFrame → Popped
dtor_pop_loop until [] = record { calls = []; freed = []; left = [] }
dtor_pop_loop until (f ∷ fs) =
    let rest = dtor_pop_loop until fs in
    if f.addr == until then record { calls = []; freed = []; left = f ∷ fs } else pass_frame f rest

-- The calls, and the frames freed put before those in the cache. With nothing to do the function
-- returns at once. On an empty stack it writes to `last->next` of NULL: `none`.
unfoldable pub dtor_pop : ℕ → Dtors → Option (List (ℕ × ℕ) × Dtors)
unfolding dtor_pop_loop
dtor_pop until s =
    let r = dtor_pop_loop until s.stack in
    if head_addr s.stack == until then some ([], s) else elim s.stack [
      | [] ↦ none
      | _ ∷ _ ↦ some (r.calls, record { stack = r.left; cache = r.freed ++ s.cache })
    ]

abbrev pub is_call : ℕ → ℕ → DtorFrame → Bool
is_call dtor p f = elim f.dtor [ none ↦ false | some d ↦ d == dtor && f.p == p ]

unfoldable pub remove_frame : ℕ → ℕ → List DtorFrame → List DtorFrame
remove_frame dtor p [] = []
remove_frame dtor p (f ∷ fs) =
    let rest = remove_frame dtor p fs in
    if is_call dtor p f then record f { dtor = none } ∷ fs else f ∷ rest

unfoldable pub dtor_remove : ℕ → ℕ → Dtors → Dtors
unfolding remove_frame
dtor_remove dtor p s = record s { stack = remove_frame dtor p s.stack }
