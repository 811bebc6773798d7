-- ===== src/Fs/Tarfs/Tests.antt =====
-- File systems of fs/tarfs/tarfs.c that the theorems of this component are applied to.
use twcos.Common.{
  ℕ, ◌≡◌, refl, Option, some, List, [], ◌∷◌, ◌++◌, arith, if◌then◌else◌, ◌==◌, replicate,
}
use twcos.Common.Int.{is_zero}
use twcos.Libk.Strings.{ssplit, dirname, basename}
use twcos.Libk.Vector.{Vector, vector_new}
use twcos.Libk.Vector.Keys.{vector_ops, IsKey, IsOneTable, vector-IsMapOn, vector_new-IsOneTable}
use twcos.Fs.Tarfs.{
  Block, size_field, DirentOps, Tarfs, tarfs_dirent_cmp, tarfs_otoi, skip_slash, tarfs_add_node,
  tarfs_get_vnode,
}
use twcos.Fs.Tarfs.Octal.{octal}
use twcos.Fs.Tarfs.Nodes.{tarfs_get_vnode-tarfs_add_node}

-- Maps from entries as functions
abbrev dirents : DirentOps (ℕ → List ℕ → ℕ)
dirents = record {
  get_inode = λ m dir name. m dir name;
  put_inode = λ m dir name inode dir' name'.
      if is_zero (tarfs_dirent_cmp (dir', name') (dir, name)) then inode else m dir' name';
}

-- Below the root is a directory with inode 2 for every name.
abbrev one_level : Tarfs (ℕ → List ℕ → ℕ) (Option Vector)
one_level = record {
  tree = λ dir name. if dir == 1 then 2 else 0;
  vnodes = some vector_new;
  inext = 3;
  nodes = λ a. (0, 0);
  next = 900;
}

-- "d/f", and "f"
abbrev deep_name : List ℕ
deep_name = 100 ∷ 47 ∷ 102 ∷ []

abbrev plain_name : List ℕ
plain_name = 102 ∷ []

split_deep : ssplit (dirname (skip_slash deep_name)) 47 ≡ some ((100 ∷ []) ∷ [])
unfolding ssplit dirname
split_deep = refl

split_plain : ssplit (dirname (skip_slash plain_name)) 47 ≡ some ((46 ∷ []) ∷ [])
unfolding ssplit dirname
split_plain = refl

tarfs_get_vnode-tarfs_add_node_example :
    (fs' : Tarfs (ℕ → List ℕ → ℕ) (Option Vector)) × (tarfs_add_node dirents vector_ops one_level
        deep_name 640
      ≡ some fs')
    × (tarfs_get_vnode dirents vector_ops fs' 2 (basename (skip_slash deep_name)) ≡ 640)
tarfs_get_vnode-tarfs_add_node_example =
    tarfs_get_vnode-tarfs_add_node dirents vector_ops IsKey IsOneTable vector-IsMapOn
      (λ m dir dir' inode name name'. refl) one_level deep_name 640 2 ((100 ∷ []) ∷ [])
      vector_new-IsOneTable split_deep (omega arith, refl) (omega arith)

-- The header of a regular file of 1000 bytes, but for its name and sums
abbrev header : Block
header = replicate 124 0 ++ (octal 11 1000 ++ (replicate 21 0 ++ (48 ∷ replicate 355 0)))

size_header : tarfs_otoi (size_field header) ≡ 1000
unfolding tarfs_otoi
size_header = refl
