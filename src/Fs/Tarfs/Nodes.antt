-- ===== src/Fs/Tarfs/Nodes.antt =====
-- What fs/tarfs/tarfs.c finds after it has added a file.
use twcos.Common.{
  ℕ, ◌+◌, ◌≤◌, ◌≡◌, ◌≢◌, refl, ap, ◌∙◌, true, false, some, List, [], ◌∷◌, arith, ◌==◌,
  if◌then◌else◌, Bool-cases, inl, inr, ne→==, ==_refl,
}
use twcos.Common.Int.{is_zero, ◌-ℤ◌}
use twcos.Libk.Strings.{ssplit, dirname, basename}
use twcos.Libk.Strings.Order.{strcmp_same}
use twcos.Libk.Map.{MapOps, map_get}
use twcos.Libk.Map.Contract.{IsMapOn}
use twcos.Fs.Tarfs.{
  DirentOps, Tarfs, tarfs_dirent_cmp, fake_directory, add_directories, add_file, skip_slash,
  tarfs_add_node, tarfs_get_vnode,
}

dirent_same : (d : ℕ) (name : List ℕ) → is_zero (tarfs_dirent_cmp (d, name) (d, name)) ≡ true
unfolding tarfs_dirent_cmp ◌-ℤ◌
dirent_same d name = ground (arith, strcmp_same name)

dirent_other :
    (d d' : ℕ) (name name' : List ℕ)
    → d ≢ d'
    → is_zero (tarfs_dirent_cmp (d, name) (d', name')) ≡ false
unfolding tarfs_dirent_cmp ◌-ℤ◌
dirent_other d d' name name' n = ground (arith, n)

module _ {Dirents Vnodes : Type 0} (dirent_ops : DirentOps Dirents) (vnode_ops : MapOps Vnodes)
    (IsInode : ℕ → Type 0) (Valid : Vnodes → Type 0) (law : IsMapOn vnode_ops ◌==◌ IsInode Valid)
    (get_inode-put_inode : (m : Dirents) (dir dir' inode : ℕ) (name name' : List ℕ)
      → dirent_ops.get_inode (dirent_ops.put_inode m dir name inode) dir' name' ≡ (
          if is_zero (tarfs_dirent_cmp (dir', name') (dir, name))
          then inode
          else dirent_ops.get_inode m dir' name')) where
  open dirent_ops use {get_inode, put_inode}

  -- The names of directories, those that are empty left out, lead from one inode to another.
  abbrev pub Leads : Tarfs Dirents Vnodes → ℕ → List (List ℕ) → ℕ → Type 0
  Leads fs dnode [] d = dnode ≡ d
  Leads fs dnode ([] ∷ dirs) d = Leads fs dnode dirs d
  Leads fs dnode ((c ∷ name) ∷ dirs) d =
      (get_inode fs.tree dnode (c ∷ name) ≢ 0)
      × Leads fs (get_inode fs.tree dnode (c ∷ name)) dirs d

  add_directories-Leads :
      (fs : Tarfs Dirents Vnodes) (dnode : ℕ) (dirs : List (List ℕ)) (d : ℕ)
      → Leads fs dnode dirs d
      → add_directories dirent_ops vnode_ops dnode dirs fs ≡ (d, fs)
  unfolding add_directories
  add_directories-Leads fs dnode [] d h = ap (λ n. (n, fs)) h
  add_directories-Leads fs dnode ([] ∷ dirs) d h = add_directories-Leads fs dnode dirs d h
  add_directories-Leads fs dnode ((c ∷ name) ∷ dirs) d h =
      rw (ne→== _ _ h.0) (add_directories-Leads fs (get_inode fs.tree dnode (c ∷ name)) dirs d h.1)

  -- The inode that a file is added with.
  abbrev pub inode_for : Tarfs Dirents Vnodes → ℕ → List ℕ → ℕ
  inode_for fs d file =
      let inode = get_inode fs.tree d file in if inode == 0 then fs.inext else inode

  get_vnode-add_file :
      (fs : Tarfs Dirents Vnodes) (d : ℕ) (file : List ℕ) (vnode : ℕ)
      → IsInode (inode_for fs d file)
      → Valid fs.vnodes
      → tarfs_get_vnode dirent_ops vnode_ops (add_file dirent_ops vnode_ops d file vnode fs) d file
        ≡ vnode
  unfolding add_file tarfs_get_vnode
  get_vnode-add_file fs d file vnode a v = elim (Bool-cases (get_inode fs.tree d file == 0)) [
    | inl h ↦
        rw
          (
            h,
            tarfs_get_vnode,
            get_inode-put_inode fs.tree d d fs.inext file file,
            dirent_same d file,
          )
          (law.get-put fs.vnodes fs.inext vnode fs.inext (rw h at a) (rw h at a) v
            ∙ ap (λ b. if b then vnode else (map_get vnode_ops fs.vnodes fs.inext).0)
                (==_refl fs.inext))
    | inr h ↦
        rw (h, tarfs_get_vnode)
          (law.get-put fs.vnodes (get_inode fs.tree d file) vnode (get_inode fs.tree d file)
              (rw h at a) (rw h at a) v
            ∙ ap
                (λ b.
                  if b then vnode else (map_get vnode_ops fs.vnodes (get_inode fs.tree d file)).0)
                (==_refl (get_inode fs.tree d file)))
  ]

  -- Where all directories of a name are there, `tarfs_add_node` of a vnode under that name returns a file
  -- system in which `tarfs_get_vnode` of the last part of the name finds the vnode, in the last of those
  -- directories; the inode of the file, an old or the next one, is a key of the map of vnodes.
  pub tarfs_get_vnode-tarfs_add_node :
      (fs : Tarfs Dirents Vnodes) (name : List ℕ) (vnode d : ℕ) (dirs : List (List ℕ))
      → Valid fs.vnodes
      → ssplit (dirname (skip_slash name)) 47 ≡ some dirs
      → Leads fs 1 dirs d
      → IsInode (inode_for fs d (basename (skip_slash name)))
      → (fs' : Tarfs Dirents Vnodes) × (tarfs_add_node dirent_ops vnode_ops fs name vnode
          ≡ some fs')
        × (tarfs_get_vnode dirent_ops vnode_ops fs' d (basename (skip_slash name)) ≡ vnode)
  unfolding tarfs_add_node
  tarfs_get_vnode-tarfs_add_node fs name vnode d dirs v e leads a = (
    add_file dirent_ops vnode_ops d (basename (skip_slash name)) vnode fs,
    rw (e, add_directories-Leads fs 1 dirs d leads) refl,
    get_vnode-add_file fs d (basename (skip_slash name)) vnode a v,
  )

  other_directory :
      (m : Dirents) (d d' inode : ℕ) (name name' : List ℕ)
      → d' ≢ d
      → get_inode (put_inode m d name inode) d' name' ≡ get_inode m d' name'
  other_directory m d d' inode name name' n =
      get_inode-put_inode m d d' inode name name'
      ∙ ap (λ b. if b then inode else get_inode m d' name') (dirent_other d' d name' name n)

  same_entry :
      (m : Dirents) (d inode : ℕ) (name : List ℕ)
      → get_inode (put_inode m d name inode) d name ≡ inode
  same_entry m d inode name =
      get_inode-put_inode m d d inode name name
      ∙ ap (λ b. if b then inode else get_inode m d name) (dirent_same d name)

  tree-add_file :
      (fs : Tarfs Dirents Vnodes) (d vnode : ℕ) (file : List ℕ)
      → get_inode fs.tree d file ≡ 0
      → (add_file dirent_ops vnode_ops d file vnode fs).tree ≡ put_inode fs.tree d file fs.inext
  unfolding add_file
  tree-add_file fs d vnode file h = rw h refl

  -- The first file in a directory that is not there yet is lost: `tarfs_add_node` makes the directory, an
  -- entry with a new inode under the root, but puts the file under inode 0, so that the new directory has
  -- what an earlier entry of its inode had. A name without '/' is in the directory ".".
  pub tarfs_add_node_lost :
      (fs : Tarfs Dirents Vnodes) (name : List ℕ) (vnode c : ℕ) (dir : List ℕ)
      → 2 ≤ fs.inext
      → ssplit (dirname (skip_slash name)) 47 ≡ some ((c ∷ dir) ∷ [])
      → get_inode fs.tree 1 (c ∷ dir) ≡ 0
      → get_inode fs.tree 0 (basename (skip_slash name)) ≡ 0
      → (fs' : Tarfs Dirents Vnodes) × (tarfs_add_node dirent_ops vnode_ops fs name vnode
          ≡ some fs')
        × (get_inode fs'.tree 1 (c ∷ dir) ≡ fs.inext)
        × (get_inode fs'.tree fs.inext (basename (skip_slash name))
            ≡ get_inode fs.tree fs.inext (basename (skip_slash name)))
  unfolding tarfs_add_node add_directories add_file fake_directory
  tarfs_add_node_lost fs name vnode c dir l e missing none_there =
      let file = basename (skip_slash name) in
      let made = put_inode fs.tree 1 (c ∷ dir) fs.inext in
      let other : get_inode made 0 file ≡ 0 =
        other_directory fs.tree 1 0 fs.inext (c ∷ dir) file (omega arith) ∙ none_there in
      let now =
        tree-add_file (fake_directory dirent_ops vnode_ops 1 (c ∷ dir) fs) 0 vnode file other in
      (
        add_file dirent_ops vnode_ops 0 file vnode
            (fake_directory dirent_ops vnode_ops 1 (c ∷ dir) fs),
        rw (e, missing) refl,
        ap (λ t. get_inode t 1 (c ∷ dir)) now
            ∙ other_directory made 0 1 (fs.inext + 1) file (c ∷ dir) (omega arith)
            ∙ same_entry fs.tree 1 fs.inext (c ∷ dir),
        ap (λ t. get_inode t fs.inext file) now
            ∙ other_directory made 0 fs.inext (fs.inext + 1) file file (omega (arith, l))
            ∙ other_directory fs.tree 1 fs.inext fs.inext (c ∷ dir) file (omega (arith, l)),
      )
