-- ===== src/Arch/Keyboard.antt =====
-- arch/i386/console.c: the keyboard queue, a ring of 256 scan codes. `keyhead` and `keytail` count
-- up without bound here; the code's `int` wraps after 2 ^ 31 key strokes.
pub mod Fifo
mod Tests
use twcos.Common.{ℕ, ◌+◌, ◌%◌, Bool, List, ◌==◌, if◌then◌else◌, get_or, set}

pub record KeyQueue : Type 0 where
  pub keyq : List ℕ
  pub keyhead : ℕ
  pub keytail : ℕ

-- `(i) % sizeof(keyq)`
abbrev pub keyq_ptr : ℕ → ℕ
keyq_ptr i = i % 256

-- `scancode` is what `inb(0x60)` returns.
unfoldable pub keyb_isr : ℕ → KeyQueue → KeyQueue
keyb_isr scancode q =
    if keyq_ptr (q.keyhead + 1) == keyq_ptr q.keytail
    then q
    else record q { keyq = set q.keyq (keyq_ptr q.keyhead) scancode; keyhead = q.keyhead + 1 }

unfoldable pub keyq_empty : KeyQueue → Bool
keyq_empty q = q.keyhead == q.keytail

-- 0 where the queue is empty.
unfoldable pub keyq_get : KeyQueue → ℕ × KeyQueue
keyq_get q =
    if keyq_ptr q.keyhead == keyq_ptr q.keytail
    then (0, q)
    else (get_or q.keyq (keyq_ptr q.keytail) 0, record q { keytail = q.keytail + 1 })
