-- ===== src/Kernel/Vm/Kas.antt =====
-- kernel/vm.c: the addresses of the kernel that are given out in order, below a spin lock.
use twcos.Common.{ℕ, ◌+◌, ◌-◌, ◌*◌, ◌/◌, ◌%◌, ◌^◌, ◌<◌, ◌≤◌, ◌≡◌, refl, arith}
use native.Mathlib.Nat.{div-add-mod', mod-lt, mul-mod_left, one-le-pow}

-- `vm_kas_get_aligned` for an alignment of 2 ^ k bytes: `p &= ~(align-1)` clears the last k bits.
-- The result is the address and the new `kas_next`, on 32 bits.
unfoldable pub vm_kas_get_aligned : (kas_next size k : ℕ) → ℕ × ℕ
vm_kas_get_aligned kas_next size k =
    let p = (kas_next + 2 ^ k - 1) % 2 ^ 32 / 2 ^ k * 2 ^ k in (p, (p + size) % 2 ^ 32)

-- `vm_kas_get`: sizeof(intptr_t) is 4.
unfoldable pub vm_kas_get : (kas_next size : ℕ) → ℕ × ℕ
unfolding vm_kas_get_aligned
vm_kas_get kas_next size = vm_kas_get_aligned kas_next size 2

-- The block stands at or behind `kas_next`, by less than the alignment, at a multiple of the
-- alignment, and `kas_next` moves to its end, as long as the addresses do not run out.
pub vm_kas_get_aligned-bounds :
    (kas_next size k : ℕ)
    → kas_next + 2 ^ k + size ≤ 2 ^ 32
    → (kas_next ≤ (vm_kas_get_aligned kas_next size k).0)
      × ((vm_kas_get_aligned kas_next size k).0 < kas_next + 2 ^ k)
      × ((vm_kas_get_aligned kas_next size k).0 % 2 ^ k ≡ 0)
      × ((vm_kas_get_aligned kas_next size k).0 + size ≤ 2 ^ 32)
      × ((vm_kas_get_aligned kas_next size k).1
          ≡ ((vm_kas_get_aligned kas_next size k).0 + size) % 2 ^ 32)
unfolding vm_kas_get_aligned
vm_kas_get_aligned-bounds kas_next size k h =
    let a : ℕ = 2 ^ k in
    let n : ℕ = kas_next + a - 1 in
    let positive : 0 < a = one-le-pow k 2 (omega arith) in
    let small : n % 2 ^ 32 ≡ n = omega arith in
    let split : n / a * a + n % a ≡ n = div-add-mod' n a in
    let rest : n % a < a = mod-lt n positive in
    rw small (omega arith, omega arith, mul-mod_left (n / a) a, omega arith, refl)
