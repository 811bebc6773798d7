-- ===== src/Fs/Tarfs/Scan.antt =====
-- The scan of an archive by fs/tarfs/tarfs.c ends.
use twcos.Common.{
  ℕ, zero, suc, ◌+◌, ◌*◌, ◌/◌, ◌%◌, ◌^◌, ◌≤◌, ◌<◌, ◌≡◌, refl, Bool, true, false, Option, none, some,
  List, arith, ◌==◌, if◌then◌else◌, ◌>>=◌,
}
use native.Mathlib.Decide.{dec_lt}
use twcos.Libk.Strings.{ssplit, dirname, basename}
use twcos.Libk.Strings.Split.{Splits, ssplit-Splits}
use twcos.Libk.Map.{MapOps}
use twcos.Fs.Tarfs.{
  Block, size_field, is_regular, tarfs_otoi, tarfs_fullname, tarfs_validate, tarfs_nextheader,
  DirentOps, Tarfs, skip_slash, add_directories, add_file, tarfs_add_node, tarfs_regularfile,
  scan_header, scan_loop, tarfs_scan,
}

abbrev pub Ends {ℓ} : {A : Type ℓ} → Option A → Type 0
Ends none = false ≡ true
Ends (some a) = Unit

next_block :
    (h : Block) (offset : ℕ)
    → offset < 2 ^ 62
    → (offset + 512 ≤ tarfs_nextheader h offset)
      × (tarfs_nextheader h offset < offset + 1024 + 2 ^ 32)
      × (tarfs_nextheader h offset % 512 ≡ offset % 512)
unfolding tarfs_nextheader
next_block h offset l = by_type (is_regular h)
  where
    size : ℕ
    size = (tarfs_otoi (size_field h) + 511) % 2 ^ 32 / 512 * 512

    by_type :
        (b : Bool)
        → let next = if b then (offset + 512 + size) % 2 ^ 64 else (offset + 512) % 2 ^ 64 in
          (offset + 512 ≤ next) × (next < offset + 1024 + 2 ^ 32) × (next % 512 ≡ offset % 512)
    by_type true = (omega (arith, l), omega (arith, l), omega (arith, l))
    by_type false = (omega (arith, l), omega (arith, l), omega (arith, l))

-- What follows an option that is there.
Ends-bind {ℓ κ} :
    {A : Type ℓ} {B : Type κ} (o : Option A) (f : A → Option B)
    → Ends o
    → ((a : A) → Ends (f a))
    → Ends (o >>= f)
Ends-bind none f h g = h
Ends-bind (some a) f h g = g a

module _ {Dirents Vnodes : Type 0} (dirent_ops : DirentOps Dirents)
    (vnode_ops : MapOps Vnodes) where
  add_node-Ends :
      (fs : Tarfs Dirents Vnodes) (name : List ℕ) (vnode : ℕ)
      → Ends (tarfs_add_node dirent_ops vnode_ops fs name vnode)
  unfolding tarfs_add_node
  add_node-Ends fs name vnode =
      by_words (ssplit (dirname (skip_slash name)) 47)
        (ssplit-Splits (dirname (skip_slash name)) 47)
    where
      by_words :
          (o : Option (List (List ℕ)))
          → Splits 47 (dirname (skip_slash name)) o
          → Ends (
              o >>= (λ dirs.
                some (add_directories dirent_ops vnode_ops 1 dirs fs) >>= (λ (dnode, fs').
                  some
                    (add_file dirent_ops vnode_ops dnode (basename (skip_slash name)) vnode fs'))))
      by_words none h = h
      by_words (some dirs) h = tt

  regularfile-Ends :
      (fs : Tarfs Dirents Vnodes) (h : Block) (offset : ℕ)
      → Ends (tarfs_regularfile dirent_ops vnode_ops fs h offset)
  unfolding tarfs_regularfile
  regularfile-Ends fs h offset =
      let node : ℕ × ℕ = (offset, tarfs_otoi (size_field h)) in
      let fs' : Tarfs Dirents Vnodes = record fs {
        nodes = λ a. if a == fs.next then node else fs.nodes a;
        next = fs.next + 1;
      } in
      add_node-Ends fs' (tarfs_fullname h) fs.next

  scan_header-Ends :
      (fs : Tarfs Dirents Vnodes) (h : Block) (offset : ℕ)
      → Ends (scan_header dirent_ops vnode_ops fs h offset)
  unfolding scan_header
  scan_header-Ends fs h offset = by_type (is_regular h)
    where
      by_type :
          (b : Bool)
          → Ends (if b then tarfs_regularfile dirent_ops vnode_ops fs h offset else some fs)
      by_type true = regularfile-Ends fs h offset
      by_type false = tt

  -- One round of the scan, where the rounds behind it end.
  round-Ends :
      (f : ℕ) (fs : Tarfs Dirents Vnodes) (read : ℕ → Option Block) (offset : ℕ)
      → ((h : Block) (fs' : Tarfs Dirents Vnodes)
          → Ends (scan_loop dirent_ops vnode_ops f read fs' (tarfs_nextheader h offset)))
      → Ends (scan_loop dirent_ops vnode_ops (suc f) read fs offset)
  unfolding scan_loop
  round-Ends f fs read offset next = by_block (read (offset / 512 * 512))
    where
      by_header :
          (h : Block) (b : Bool)
          → Ends (elim b [
            | false ↦ some fs
            | true ↦
                scan_header dirent_ops vnode_ops fs h offset
                >>= (λ fs'. scan_loop dirent_ops vnode_ops f read fs' (tarfs_nextheader h offset))
          ])
      by_header h false = tt
      by_header h true =
          Ends-bind (scan_header dirent_ops vnode_ops fs h offset)
            (λ fs'. scan_loop dirent_ops vnode_ops f read fs' (tarfs_nextheader h offset))
            (scan_header-Ends fs h offset) (next h)

      by_block :
          (o : Option Block)
          → Ends (elim o [
            | none ↦ some fs
            | some h ↦ elim (tarfs_validate h) [
              | false ↦ some fs
              | true ↦
                  scan_header dirent_ops vnode_ops fs h offset
                  >>= (λ fs'. scan_loop dirent_ops vnode_ops f read fs' (tarfs_nextheader h offset))
            ]
          ])
      by_block none = tt
      by_block (some h) = by_header h (tarfs_validate h)

  at_end :
      (f : ℕ) (read : ℕ → Option Block) (fs : Tarfs Dirents Vnodes) (offset : ℕ)
      → read (offset / 512 * 512) ≡ none
      → Ends (scan_loop dirent_ops vnode_ops (suc f) read fs offset)
  unfolding scan_loop
  at_end f read fs offset e = rw (scan_loop, e) tt

  scan_loop-Ends :
      (f : ℕ) (read : ℕ → Option Block) (size : ℕ) (fs : Tarfs Dirents Vnodes) (offset : ℕ)
      → ((at : ℕ) → size ≤ at → read at ≡ none)
      → size < 2 ^ 62
      → offset % 512 ≡ 0
      → size ≤ offset + 512 * f
      → Ends (scan_loop dirent_ops vnode_ops (suc f) read fs offset)
  scan_loop-Ends zero read size fs offset over small whole l =
      at_end 0 read fs offset (over (offset / 512 * 512) (omega (arith, whole, l)))
  scan_loop-Ends (suc f) read size fs offset over small whole l = elim (dec_lt offset size) [
    | no behind ↦
        at_end (suc f) read fs offset (over (offset / 512 * 512) (omega (arith, whole, behind)))
    | yes inside ↦ round-Ends (suc f) fs read offset (λ h fs'.
        let b = next_block h offset (omega (arith, inside, small)) in
        scan_loop-Ends f read size fs' (tarfs_nextheader h offset) over small
          (omega (arith, b.2, whole)) (omega (arith, b.0, l)))
  ]

  -- No device of kernel/dev.c throws for a read behind its end; the lemma is about one that does.
  -- The scan of an archive on a device of fewer than 2 ^ 62 bytes, which throws an exception for each
  -- block that begins behind its end, returns: with fuel for one round more than the device has blocks.
  pub tarfs_scan-Ends :
      (read : ℕ → Option Block) (size : ℕ) (tree : Dirents) (vnodes : Vnodes) (root : ℕ)
      → ((at : ℕ) → size ≤ at → read at ≡ none)
      → size < 2 ^ 62
      → Ends (tarfs_scan dirent_ops vnode_ops (suc ((size + 511) / 512)) read tree vnodes root)
  unfolding tarfs_scan
  tarfs_scan-Ends read size tree vnodes root over small =
      scan_loop-Ends ((size + 511) / 512) read size _ 0 over small refl (omega arith)
