-- ===== src/Libk/Destructor/Tests.antt =====
-- Runs of libk/destructor.c, and the theorems at a stack of four frames.
use twcos.Common.{ℕ, ◌≡◌, refl, some, List, [], ◌∷◌, arith}
use twcos.Libk.Destructor.{DtorFrame, Dtors, dtor_push, dtor_poll_frame}
use twcos.Libk.Destructor.Unwind.{Pushed, PopsTo, dtor_pop-unwinds}

abbrev frame : ℕ → DtorFrame
frame addr = record { addr = addr; dtor = some 7; p = addr }

abbrev recent : List DtorFrame
recent = frame 64 ∷ frame 48 ∷ []

abbrev long_ago : List DtorFrame
long_ago = frame 32 ∷ frame 16 ∷ []

push_run : (dtor_push 80 7 1 (record { stack = long_ago; cache = [] })).0 ≡ 32
unfolding dtor_push
push_run = refl

dtor_pop-unwinds_example :
    let before : Dtors = record { stack = long_ago; cache = frame 80 ∷ [] } in
    let pushed = dtor_push 0 7 48 before in
    Pushed 7 48 long_ago pushed.1.stack
    × PopsTo pushed.0 recent long_ago []
    × PopsTo (dtor_poll_frame before) recent long_ago []
dtor_pop-unwinds_example =
    dtor_pop-unwinds recent long_ago (frame 80 ∷ []) [] 0 7 48
      ((λ e. absurd (omega (arith, e))), ((λ e. absurd (omega (arith, e))), tt))
