-- ===== src/Libk/Destructor/Unwind.antt =====
-- What `dtor_pop` of libk/destructor.c calls and leaves.
use twcos.Common.{
  ℕ, ◌≡◌, ◌≢◌, refl, sym, ap, ◌∙◌, false, none, some, List, [], ◌∷◌, ◌++◌, All, arith, ==_refl,
  ne→==, append_assoc,
}
use twcos.Libk.Destructor.{
  DtorFrame, Dtors, dtor_push, dtor_poll_frame, head_addr, call_of, is_call, dtor_pop_loop,
  dtor_pop, remove_frame, dtor_remove,
}

-- The calls of the frames that still have a destructor, the newest first.
abbrev pub calls_of : List DtorFrame → List (ℕ × ℕ)
calls_of [] = []
calls_of (f ∷ fs) = call_of f ++ calls_of fs

abbrev pub cleared : List DtorFrame → List DtorFrame
cleared [] = []
cleared (f ∷ fs) = record f { dtor = none } ∷ cleared fs

-- None of the frames is at the address.
abbrev pub Avoids : ℕ → List DtorFrame → Type 0
Avoids until = All (λ f. f.addr ≢ until)

pop_loop-older :
    (older : List DtorFrame)
    → dtor_pop_loop (head_addr older) older ≡ record { calls = []; freed = []; left = older }
unfolding dtor_pop_loop
pop_loop-older [] = refl
pop_loop-older (f ∷ older) = rw (==_refl f.addr)

pop_loop-newer :
    (newer older : List DtorFrame)
    → Avoids (head_addr older) newer
    → dtor_pop_loop (head_addr older) (newer ++ older)
      ≡ record { calls = calls_of newer; freed = cleared newer; left = older }
unfolding dtor_pop_loop
pop_loop-newer [] older h = pop_loop-older older
pop_loop-newer (f ∷ newer) older h =
    rw (ne→== f.addr (head_addr older) h.0, pop_loop-newer newer older h.1)

pop_frames :
    (newer older cache : List DtorFrame)
    → Avoids (head_addr older) newer
    → dtor_pop (head_addr older) (record { stack = newer ++ older; cache = cache })
      ≡ some (calls_of newer, record { stack = older; cache = cleared newer ++ cache })
unfolding dtor_pop
pop_frames [] older cache h = rw (==_refl (head_addr older))
pop_frames (f ∷ newer) older cache h =
    rw (ne→== f.addr (head_addr older) h.0, pop_loop-newer newer older h.1)

-- A frame with a destructor that is on a stack, and below it the frames of another.
pub record Pushed (dtor p : ℕ) (older stack : List DtorFrame) : Type 0 where
  pub frame : DtorFrame
  pub on_top : stack ≡ frame ∷ older
  pub called : call_of frame ≡ (dtor, p) ∷ []

-- `dtor_pop` calls the destructors of the newer frames and leaves the older ones.
abbrev pub PopsTo : (until : ℕ) (newer older cache : List DtorFrame) → Type 0
PopsTo until newer older cache =
    dtor_pop until (record { stack = newer ++ older; cache = cache })
    ≡ some (calls_of newer, record { stack = older; cache = cleared newer ++ cache })

-- `dtor_push` puts one frame with its destructor on the stack. `dtor_pop` with what `dtor_poll_frame`
-- said earlier, and with what `dtor_push` returned then, calls the destructors of the frames
-- pushed since, the newest first, except those removed, and of no other frame; it leaves the
-- frames of that time, and puts the others into the cache without a destructor.
pub dtor_pop-unwinds :
    (newer older frames cache : List DtorFrame) (fresh dtor p : ℕ)
    → Avoids (head_addr older) newer
    → let before : Dtors = record { stack = older; cache = frames } in
      let pushed = dtor_push fresh dtor p before in
      Pushed dtor p older pushed.1.stack
      × PopsTo pushed.0 newer older cache
      × PopsTo (dtor_poll_frame before) newer older cache
unfolding dtor_push dtor_poll_frame
dtor_pop-unwinds newer older [] cache fresh dtor p h = (
  record { frame = record { addr = fresh; dtor = some dtor; p = p }; on_top = refl; called = refl },
  pop_frames newer older cache h,
  pop_frames newer older cache h,
)
dtor_pop-unwinds newer older (f ∷ frames) cache fresh dtor p h = (
  record {
    frame = record { addr = f.addr; dtor = some dtor; p = p };
    on_top = refl;
    called = refl;
  },
  pop_frames newer older cache h,
  pop_frames newer older cache h,
)

remove_frame-skip :
    (dtor p : ℕ) (pre post : List DtorFrame)
    → All (λ f. is_call dtor p f ≡ false) pre
    → remove_frame dtor p (pre ++ post) ≡ pre ++ remove_frame dtor p post
unfolding remove_frame
remove_frame-skip dtor p [] post h = refl
remove_frame-skip dtor p (f ∷ pre) post h = rw (h.0, remove_frame-skip dtor p pre post h.1)

calls_of-append : (xs ys : List DtorFrame) → calls_of (xs ++ ys) ≡ calls_of xs ++ calls_of ys
calls_of-append [] ys = refl
calls_of-append (f ∷ xs) ys =
    ap (λ cs. call_of f ++ cs) (calls_of-append xs ys)
    ∙ sym (append_assoc (call_of f) (calls_of xs) (calls_of ys))

-- After `dtor_remove` the newest call of that destructor with that argument is not made any more, and
-- all other calls are, in the order in which they were.
pub dtor_remove-calls_of :
    (dtor p addr : ℕ) (pre post cache : List DtorFrame)
    → All (λ f. is_call dtor p f ≡ false) pre
    → let f : DtorFrame = record { addr = addr; dtor = some dtor; p = p } in
      let s : Dtors = record { stack = pre ++ f ∷ post; cache = cache } in
      calls_of (dtor_remove dtor p s).stack ≡ calls_of pre ++ calls_of post
unfolding dtor_remove remove_frame
dtor_remove-calls_of dtor p addr pre post cache h =
    let f : DtorFrame = record { addr = addr; dtor = some dtor; p = p } in
    let found : remove_frame dtor p (f ∷ post) ≡ record f { dtor = none } ∷ post =
      ground (arith, ==_refl dtor, ==_refl p) in
    ap calls_of (remove_frame-skip dtor p pre (f ∷ post) h ∙ ap (λ fs. pre ++ fs) found)
    ∙ calls_of-append pre (record f { dtor = none } ∷ post)
