-- ===== src/Kernel/Pages/Tests.antt =====
-- Runs of kernel/core.c on a small range, and the theorems at them.
use twcos.Common.{
  ℕ, zero, suc, ◌+◌, ◌-◌, ◌≡◌, refl, true, false, [], ◌∷◌, ◌/◌, ◌%◌, arith, replicate, get_or,
}
use twcos.Kernel.Pages.{Range, page_free, range_alloc, alloc_from, page_alloc}
use twcos.Kernel.Pages.Alloc.{IsValid, Changed, Allocated, range_alloc-Allocated, page_free-Changed}

-- 40 pages from page 100 on; none is free.
abbrev small : Range
small = record { base = 100; count = 40; free = 0; available = replicate 2 (replicate 32 false) }

get_or_clear : (n i : ℕ) → get_or (replicate n false) i false ≡ false
get_or_clear zero i = refl
get_or_clear (suc n) zero = refl
get_or_clear (suc n) (suc i) = get_or_clear n i

words_clear : (n k i : ℕ) → get_or (get_or (replicate n (replicate 32 false)) k []) i false ≡ false
words_clear zero k i = refl
words_clear (suc n) zero i = get_or_clear 32 i
words_clear (suc n) (suc k) i = words_clear n k i

small-IsValid : IsValid small
small-IsValid = record {
  full = (refl, (refl, tt));
  size = refl;
  counted = refl;
  clear = λ p h. words_clear 2 (p / 32) (p % 32);
}

-- The range after page 135 is freed.
after_free :
    (r' : Range) × (page_free 135 (small ∷ []) ≡ r' ∷ [])
    × Changed small (135 - 100) true r'
    × (r'.free ≡ 0 + 1)
after_free = page_free-Changed 135 small [] small-IsValid (omega arith) (omega arith) refl

range_alloc-Allocated_example : Allocated after_free.0 (range_alloc after_free.0)
range_alloc-Allocated_example = range_alloc-Allocated after_free.0 after_free.2.valid

alloc_after_free : (page_alloc (page_free 139 (page_free 135 (small ∷ [])))).0 ≡ 135
unfolding page_alloc alloc_from range_alloc page_free
alloc_after_free = refl

out_of_pages : page_alloc (small ∷ []) ≡ (0, small ∷ [])
unfolding page_alloc
out_of_pages = refl
