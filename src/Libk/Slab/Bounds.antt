-- ===== src/Libk/Slab/Bounds.antt =====
-- The slots of a slab of libk/slab.c lie in its page, and the pools that `malloc` chooses.
use twcos.Common.{ℕ, ◌+◌, ◌-◌, ◌*◌, ◌≤◌, ◌<◌, ◌≡◌, sym, ap, ap₂, subst, ◌∙◌, arith}
use native.Mathlib.Nat.{div-mul-le_self, mul_left_comm, mul-suc, mul-add, mul-le-mul_left, mul_comm}
use twcos.Libk.Slab.{SlabType, page_size, slab_size, slab_count, slab_data}

-- All slots of a type together.
slots_size :
    (esize : ℕ)
    → 8 * (esize * slab_count esize) + 2 * slab_count esize ≤ 8 * (page_size - slab_size) - 64
unfolding slab_count
slots_size esize =
    let c = slab_count esize in
    let fits : c * (8 * esize + 2) ≤ 32480 = div-mul-le_self 32480 (8 * esize + 2) in
    let parts : c * (8 * esize + 2) ≡ 8 * (esize * c) + 2 * c =
      mul-add c (8 * esize) 2
      ∙ ap₂ ◌+◌ (mul_left_comm c 8 esize ∙ ap (8 *◌) (mul_comm c esize)) (mul_comm c 2) in
    omega (arith, fits, parts)

-- The slots of a slab, where the type has the count that `slab_new` computes, start behind its bit maps
-- and end before its page does.
pub slab_data-slab_count :
    (page slot : ℕ) (t : SlabType)
    → t.count ≡ slab_count t.esize
    → slot < t.count
    → slab_data page t + t.esize * slot + t.esize ≤ page + page_size
slab_data-slab_count page slot t e l =
    let all : t.esize * slot + t.esize ≤ t.esize * t.count =
      subst (λ n. n ≤ t.esize * t.count) (mul-suc t.esize slot) (mul-le-mul_left t.esize l) in
    let size : 8 * (t.esize * t.count) + 2 * t.count ≤ 32480 =
      subst (λ c. 8 * (t.esize * c) + 2 * c ≤ 32480) (sym e) (slots_size t.esize) in
    omega (arith, all, size)
