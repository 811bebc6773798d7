-- ===== src/Kernel/Dev/Tests.antt =====
-- The theorem on kernel/dev.c at a concrete input.
use twcos.Common.{ℕ, ◌≡◌, true, false, some, List, [], ◌∷◌, arith, length, take}
use twcos.Kernel.Dev.{BufOp, complete, dev_op_submit, dev_op_wait, dev_static_submit}
use twcos.Kernel.Dev.Transfer.{dev_op_submit-read, transfer}

abbrev disk : List ℕ
disk = 1 ∷ 2 ∷ 3 ∷ 4 ∷ 5 ∷ []

dev_op_submit-read_example :
    (bytes' : List ℕ) × (written done : BufOp) × (dev_op_submit dev_static_submit disk
        (transfer true (8 ∷ 9 ∷ []) 1 2)
      ≡ some (bytes', written))
    × (dev_op_wait written ≡ some complete)
    × (dev_op_submit dev_static_submit bytes' (transfer false (0 ∷ 0 ∷ 0 ∷ []) 1 2)
        ≡ some (bytes', done))
    × (dev_op_wait done ≡ some complete)
    × (take 2 done.buffer ≡ take 2 (8 ∷ 9 ∷ []))
    × (length bytes' ≡ length disk)
dev_op_submit-read_example =
    dev_op_submit-read disk (8 ∷ 9 ∷ []) (0 ∷ 0 ∷ 0 ∷ []) 1 2 (omega arith) (omega arith)
      (omega arith)
