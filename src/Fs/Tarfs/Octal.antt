-- ===== src/Fs/Tarfs/Octal.antt =====
-- The numbers in the headers of fs/tarfs/tarfs.c.
use twcos.Common.{
  ℕ, zero, suc, ◌+◌, ◌-◌, ◌*◌, ◌/◌, ◌%◌, ◌^◌, ◌≤◌, ◌<◌, ◌≡◌, refl, sym, ap, ◌∙◌, Bool, true, false,
  List, [], ◌∷◌, ◌++◌, arith, if◌then◌else◌, All, All-append,
}
use native.Mathlib.Nat.{pow-suc}
use twcos.Libk.Slab.Marks.{no_true}
use twcos.Fs.Tarfs.{
  tar_blocksize, Block, size_field, is_regular, otoi_loop, tarfs_otoi, tarfs_nextheader,
}

-- The last `n` octal digits of a number, as a tar archive has them.
abbrev pub octal : ℕ → ℕ → List ℕ
octal zero v = []
octal (suc n) v = octal n (v / 8) ++ (48 + v % 8) ∷ []

abbrev IsDigit : ℕ → Type 0
IsDigit c = (48 ≤ c) × (c < 56)

octal-IsDigit : (n v : ℕ) → All IsDigit (octal n v)
octal-IsDigit zero v = tt
octal-IsDigit (suc n) v =
    All-append IsDigit (octal n (v / 8)) ((48 + v % 8) ∷ []) (octal-IsDigit n (v / 8))
      ((omega arith, omega arith), tt)

otoi_loop-append :
    (v : ℕ) (xs ys : List ℕ)
    → All IsDigit xs
    → otoi_loop v (xs ++ ys) ≡ otoi_loop (otoi_loop v xs) ys
unfolding otoi_loop
otoi_loop-append v [] ys h = refl
otoi_loop-append v (c ∷ xs) ys h =
    ground (arith, h.0.0, h.0.1, otoi_loop-append ((v * 8 % 2 ^ 32 + (c - 48)) % 2 ^ 32) xs ys h.1)

otoi_loop-octal : (n v : ℕ) → v < 8 ^ n → v < 2 ^ 32 → otoi_loop 0 (octal n v) ≡ v
unfolding otoi_loop
otoi_loop-octal zero v h l = omega (arith, h)
otoi_loop-octal (suc n) v h l =
    otoi_loop-append 0 (octal n (v / 8)) ((48 + v % 8) ∷ []) (octal-IsDigit n (v / 8))
    ∙ ap (λ x. otoi_loop x ((48 + v % 8) ∷ []))
        (otoi_loop-octal n (v / 8) (omega (arith, h, pow-suc 8 n)) (omega (arith, l)))
    ∙ ground (arith, l)

-- `tarfs_otoi` reads a number below 2 ^ 32 from its octal digits, whatever is behind them and a 0.
pub tarfs_otoi-octal :
    (n v : ℕ) (behind : List ℕ) → v < 8 ^ n → v < 2 ^ 32 → tarfs_otoi (octal n v ++ 0 ∷ behind) ≡ v
unfolding tarfs_otoi otoi_loop
tarfs_otoi-octal n v behind h l =
    otoi_loop-append 0 (octal n v) (0 ∷ behind) (octal-IsDigit n v) ∙ otoi_loop-octal n v h l

-- From the header of a regular file whose size is below 2 ^ 32 - 511, `tarfs_nextheader` goes past the
-- header's block and all blocks with the file's data, and no further; from another header it goes to the
-- next block.
pub tarfs_nextheader_past :
    (h : Block) (offset : ℕ)
    → offset < 2 ^ 63
    → tarfs_otoi (size_field h) < 2 ^ 32 - 511
    → let next = tarfs_nextheader h offset in
      let size = tarfs_otoi (size_field h) in
      (is_regular h ≡ true
        → (offset + tar_blocksize + size ≤ next) × (next < offset + 2 * tar_blocksize + size))
      × (is_regular h ≡ false → next ≡ offset + tar_blocksize)
      × (next % tar_blocksize ≡ offset % tar_blocksize)
unfolding tarfs_nextheader
tarfs_nextheader_past h offset l s = by_type (is_regular h)
  where
    size : ℕ
    size = (tarfs_otoi (size_field h) + 511) % 2 ^ 32 / 512 * 512

    by_type :
        (b : Bool)
        → let next = if b then (offset + 512 + size) % 2 ^ 64 else (offset + 512) % 2 ^ 64 in
          (b ≡ true
            → (offset + 512 + tarfs_otoi (size_field h) ≤ next)
              × (next < offset + 1024 + tarfs_otoi (size_field h)))
          × (b ≡ false → next ≡ offset + 512)
          × (next % 512 ≡ offset % 512)
    by_type true =
        let plain : (offset + 512 + size) % 2 ^ 64
            ≡ offset + 512 + (tarfs_otoi (size_field h) + 511) / 512 * 512 =
          omega (arith, s, l) in
        rw plain ((λ e. (omega arith, omega arith)), (λ e. absurd (no_true e)), omega arith)
    by_type false =
        let plain : (offset + 512) % 2 ^ 64 ≡ offset + 512 = omega (arith, l) in
        rw plain ((λ e. absurd (no_true (sym e))), (λ e. refl), omega arith)
