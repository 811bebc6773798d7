-- ===== src/Arch/Keyboard/Tests.antt =====
-- Runs of the keyboard queue of arch/i386/console.c, and the theorems at them.
use twcos.Common.{◌≡◌, refl, arith, replicate, set}
use twcos.Arch.Keyboard.{KeyQueue, keyb_isr, keyq_get}
use twcos.Arch.Keyboard.Fifo.{IsValid}

-- Two codes wait, at the end of the ring and at its start.
abbrev wrapped : KeyQueue
wrapped = record { keyq = set (set (replicate 256 0) 255 30) 0 31; keyhead = 257; keytail = 255 }

wrapped-IsValid : IsValid wrapped
wrapped-IsValid = record { size = refl; order = omega arith; room = omega arith }

oldest_first : (keyq_get (keyb_isr 32 wrapped)).0 ≡ 30
unfolding keyq_get keyb_isr
oldest_first = refl
