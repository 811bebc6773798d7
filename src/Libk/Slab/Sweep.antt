-- ===== src/Libk/Slab/Sweep.antt =====
-- The sweep of libk/slab.c: what slab_gc_end finalizes.
use twcos.Common.{ℕ, ◌+◌, ◌-◌, ◌*◌, not, List, [], ◌∷◌, ◌++◌, ltb, if◌then◌else◌, map}
use twcos.Kernel.Pages.{Word}
use twcos.Libk.Slab.{Slab, slab_data}

-- `^=` on two words
abbrev pub xor_word : Word → Word → Word
xor_word [] v = []
xor_word (a ∷ w) [] = a ∷ w
xor_word (a ∷ w) (b ∷ v) = (if b then not a else a) ∷ xor_word w v

-- The first loop of `slab_finalize`.
unfoldable pub xor_words : ℕ → List Word → List Word → List Word
xor_words left [] words = []
xor_words left (w ∷ fin) [] = w ∷ fin
xor_words left (w ∷ fin) (v ∷ words) =
    if ltb 0 left then xor_word w v ∷ xor_words (left - 32) fin words else w ∷ fin

-- `for(; i<count && mask; i++, mask>>=1)`: the slots whose bit is set.
unfoldable pub set_slots : (count i : ℕ) → Word → List ℕ
set_slots count i [] = []
set_slots count i (b ∷ w) =
    let rest = set_slots count (i + 1) w in
    if ltb i count then (if b then i ∷ rest else rest) else []

-- The second loop of `slab_finalize`, over the words of the bit map. A word 0 is passed by as a
-- whole, which finds no slot in it either.
unfoldable pub finalize_slots : (count i : ℕ) → List Word → List ℕ
unfolding set_slots
finalize_slots count i [] = []
finalize_slots count i (w ∷ words) =
    if ltb i count then set_slots count i w ++ finalize_slots count (i + 32) words else []

-- `slab_finalize`: the pointers that are finalized, and the slab.
unfoldable pub slab_finalize : Slab → List ℕ × Slab
unfolding xor_words finalize_slots
slab_finalize s =
    let words = xor_words s.type.count s.finalize s.available in
    (
      map (λ i. slab_data s.page s.type + s.type.esize * i) (finalize_slots s.type.count 0 words),
      record s { finalize = words },
    )

-- `slab_gc_end`
unfoldable pub slab_gc_end : List Slab → List ℕ × List Slab
unfolding slab_finalize
slab_gc_end [] = ([], [])
slab_gc_end (s ∷ heap) =
    let (later, heap') = slab_gc_end heap in
    let (own, s') = slab_finalize s in
    if s.type.finalized then (own ++ later, s' ∷ heap') else (later, s ∷ heap')
