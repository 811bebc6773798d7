-- ===== src/Fs/Tarfs.antt =====
-- fs/tarfs/tarfs.c: a file system read from a tar archive. A block is its 512 bytes; a header's field is
-- the bytes at its offset. The tree from directory and name to inode is a map of libk/map.c whose keys
-- stand for the entries that they point to; the map of vnodes, a vector of libk/vector.c in the
-- program, has inodes as keys and is a parameter.
pub mod Octal
pub mod Nodes
pub mod Scan
mod Tests
use twcos.Common.{
  ℕ, zero, suc, ◌+◌, ◌-◌, ◌*◌, ◌/◌, ◌%◌, ◌^◌, Bool, true, false, ◌&&◌, ◌||◌, not, Option, none,
  some, List, [], ◌∷◌, ◌++◌, ltb, leb, ◌==◌, if◌then◌else◌, ◌>>=◌, take, drop, length,
}
use twcos.Common.Int.{ℤ, pos, negsuc, ◌+ℤ◌, ◌-ℤ◌, is_zero}
use twcos.Libk.Strings.{char_int, at, strcmp, ssplit, dirname, basename}
use twcos.Libk.Map.{MapOps, map_put, map_get}

abbrev pub tar_blocksize : ℕ
tar_blocksize = 512

abbrev pub Block : Type 0
Block = List ℕ

-- The fields of `tarfs_header_t` that the code reads
abbrev pub field : (offset size : ℕ) → Block → List ℕ
field offset size h = take size (drop offset h)

abbrev pub size_field : Block → List ℕ
size_field = field 124 12

abbrev pub chksum_field : Block → List ℕ
chksum_field = field 148 8

-- `h->type[0]`
abbrev pub type_of : Block → ℕ
type_of h = at (drop 156 h)

-- `tarfs_otoi`, with the value so far. A byte that is no octal digit is passed by.
unfoldable pub otoi_loop : ℕ → List ℕ → ℕ
otoi_loop v [] = v
otoi_loop v (c ∷ cp) =
    let digit = otoi_loop ((v * 8 % 2 ^ 32 + (c - 48)) % 2 ^ 32) cp in
    let other = otoi_loop v cp in
    if c == 0 then v else if leb 48 c && ltb c 56 then digit else other

unfoldable pub tarfs_otoi : List ℕ → ℕ
unfolding otoi_loop
tarfs_otoi cp = otoi_loop 0 cp

-- `tarfs_validate_field`, with the bytes of `value` up to `size`
unfoldable pub tarfs_validate_field : List ℕ → List ℕ → Bool
tarfs_validate_field header [] = true
tarfs_validate_field [] (v ∷ value) = false
tarfs_validate_field (h ∷ header) (v ∷ value) =
    let rest = tarfs_validate_field header value in if h == v then rest else false

-- The loop of `tarfs_validate` from byte `i` on, with the sum of the bytes as `read` gives them. The
-- checksum field counts as blanks.
unfoldable pub sum_from : (ℕ → ℤ) → ℕ → List ℕ → ℤ
sum_from read i [] = pos 0
sum_from read i (c ∷ h) =
    let rest = sum_from read (i + 1) h in
    (if leb 148 i && ltb i 156 then pos 32 else read c) +ℤ rest

-- An `unsigned` as an `int`
abbrev pub to_int : ℕ → ℤ
to_int v = if ltb v (2 ^ 31) then pos v else negsuc (2 ^ 32 - v - 1)

-- `tarfs_validate`: behind the checksum it returns 1 on every path.
unfoldable pub tarfs_validate : Block → Bool
unfolding sum_from tarfs_otoi tarfs_validate_field
tarfs_validate block =
    let h = take 500 block in
    let sum = to_int (tarfs_otoi (chksum_field h)) in
    let usum = sum_from (λ c. pos c) 0 h in
    let ssum = sum_from (λ c. char_int c) 0 h in
    let ustar = field 257 6 h in
    let version = field 263 2 h in
    if not (is_zero (usum -ℤ sum)) && not (is_zero (ssum -ℤ sum))
    then false
    else if tarfs_validate_field ustar (117 ∷ 115 ∷ 116 ∷ 97 ∷ 114 ∷ 0 ∷ [])
    then (if tarfs_validate_field version (48 ∷ 48 ∷ []) then true else true)
    else if tarfs_validate_field ustar (117 ∷ 115 ∷ 116 ∷ 97 ∷ 114 ∷ 32 ∷ [])
    then (if tarfs_validate_field version (32 ∷ 0 ∷ []) then true else true)
    else true

-- The string at an address
unfoldable pub string_of : List ℕ → List ℕ
string_of [] = []
string_of (c ∷ s) = let rest = string_of s in if c == 0 then [] else c ∷ rest

-- `tarfs_fullname`
unfoldable pub tarfs_fullname : Block → List ℕ
unfolding string_of
tarfs_fullname h =
    if at (drop 345 h) == 0
    then string_of (field 0 100 h)
    else take 254 (string_of (drop 345 h) ++ 47 ∷ string_of h)

-- `REGTYPE == h->type[0] || AREGTYPE == h->type[0]`
abbrev pub is_regular : Block → Bool
is_regular h = type_of h == 48 || type_of h == 0

-- `tarfs_nextheader`: `size` has 32 bits, an offset 64.
unfoldable pub tarfs_nextheader : Block → ℕ → ℕ
unfolding tarfs_otoi
tarfs_nextheader h offset =
    let size =
      (tarfs_otoi (size_field h) + (tar_blocksize - 1)) % 2 ^ 32 / tar_blocksize * tar_blocksize in
    if is_regular h
    then (offset + tar_blocksize + size) % 2 ^ 64
    else (offset + tar_blocksize) % 2 ^ 64

-- `tarfs_dirent_cmp`, where directories are inodes whose difference an `int` holds
unfoldable pub tarfs_dirent_cmp : ℕ × List ℕ → ℕ × List ℕ → ℤ
unfolding strcmp
tarfs_dirent_cmp d1 d2 =
    let dir_diff = pos d1.0 -ℤ pos d2.0 in if is_zero dir_diff then strcmp d1.1 d2.1 else dir_diff

-- The map from `tarfs_dirent_t` to inodes
pub record DirentOps (Dirents : Type 0) : Type 0 where
  pub get_inode : Dirents → (dir : ℕ) → (name : List ℕ) → ℕ
  pub put_inode : Dirents → (dir : ℕ) → (name : List ℕ) → ℕ → Dirents

-- `tarfs_t`, with the nodes by address (the offset and the size of each), and the address that the next
-- node gets.
pub record Tarfs (Dirents Vnodes : Type 0) : Type 0 where
  pub tree : Dirents
  pub vnodes : Vnodes
  pub inext : ℕ
  pub nodes : ℕ → ℕ × ℕ
  pub next : ℕ

-- "Skip over any leading /"
abbrev pub skip_slash : List ℕ → List ℕ
skip_slash [] = []
skip_slash (c ∷ name) = if c == 47 then name else c ∷ name

module _ {Dirents Vnodes : Type 0} (dirent_ops : DirentOps Dirents)
    (vnode_ops : MapOps Vnodes) where
  open dirent_ops use {get_inode, put_inode}

  -- "Fake a directory"
  unfoldable pub fake_directory : ℕ → List ℕ → Tarfs Dirents Vnodes → Tarfs Dirents Vnodes
  unfolding map_put
  fake_directory dnode name fs = record fs {
    tree = put_inode fs.tree dnode name fs.inext;
    vnodes = (map_put vnode_ops fs.vnodes fs.inext fs.next).1;
    inext = fs.inext + 1;
    next = fs.next + 1;
  }

  -- `for( int i=0; dirs[i]; i++ )`: the directory's inode, and the file system. After a directory is
  -- faked, `inode` is still 0.
  unfoldable pub add_directories :
      ℕ → List (List ℕ) → Tarfs Dirents Vnodes → ℕ × Tarfs Dirents Vnodes
  unfolding fake_directory
  add_directories dnode [] fs = (dnode, fs)
  add_directories dnode ([] ∷ dirs) fs = add_directories dnode dirs fs
  add_directories dnode ((c ∷ name) ∷ dirs) fs =
      let inode = get_inode fs.tree dnode (c ∷ name) in
      add_directories inode dirs (if inode == 0 then fake_directory dnode (c ∷ name) fs else fs)

  -- "dnode is the directory, file is the new file name"
  unfoldable pub add_file : ℕ → List ℕ → ℕ → Tarfs Dirents Vnodes → Tarfs Dirents Vnodes
  unfolding map_put
  add_file dnode file vnode fs =
      let inode = get_inode fs.tree dnode file in
      if inode == 0
      then record fs {
        tree = put_inode fs.tree dnode file fs.inext;
        vnodes = (map_put vnode_ops fs.vnodes fs.inext vnode).1;
        inext = fs.inext + 1;
      }
      else record fs { vnodes = (map_put vnode_ops fs.vnodes inode vnode).1 }

  -- `tarfs_add_node`
  unfoldable pub tarfs_add_node : Tarfs Dirents Vnodes → List ℕ → ℕ → Option (Tarfs Dirents Vnodes)
  unfolding add_directories add_file ssplit dirname basename
  tarfs_add_node fs fullname vnode = do
    dirs ← ssplit (dirname (skip_slash fullname)) 47
    (dnode, fs') ← some (add_directories 1 dirs fs)
    some (add_file dnode (basename (skip_slash fullname)) vnode fs')

  -- `tarfs_regularfile`
  unfoldable pub tarfs_regularfile :
      Tarfs Dirents Vnodes → Block → ℕ → Option (Tarfs Dirents Vnodes)
  unfolding tarfs_add_node tarfs_fullname tarfs_otoi
  tarfs_regularfile fs h offset =
      let node : ℕ × ℕ = (offset, tarfs_otoi (size_field h)) in
      let fs' : Tarfs Dirents Vnodes = record fs {
        nodes = λ a. if a == fs.next then node else fs.nodes a;
        next = fs.next + 1;
      } in
      tarfs_add_node fs' (tarfs_fullname h) fs.next

  -- `tarfs_get_vnode` in the directory with an inode: 0 for none.
  unfoldable pub tarfs_get_vnode : Tarfs Dirents Vnodes → (dir : ℕ) → List ℕ → ℕ
  unfolding map_get
  tarfs_get_vnode fs dir name = (map_get vnode_ops fs.vnodes (get_inode fs.tree dir name)).0

  -- The switch of `tarfs_scan`: of the other types it prints the names of directories and links.
  unfoldable pub scan_header : Tarfs Dirents Vnodes → Block → ℕ → Option (Tarfs Dirents Vnodes)
  unfolding tarfs_regularfile
  scan_header fs h offset = if is_regular h then tarfs_regularfile fs h offset else some fs

  -- `while(1)` of `tarfs_scan`, with fuel. `read` is the device, which throws DeviceException as `none`;
  -- `tarfs_readblock` rounds the offset down. A result of `none` is a scan without fuel.
  unfoldable pub scan_loop :
      ℕ → (ℕ → Option Block) → Tarfs Dirents Vnodes → ℕ → Option (Tarfs Dirents Vnodes)
  unfolding scan_header tarfs_validate tarfs_nextheader
  scan_loop zero read fs offset = none
  scan_loop (suc f) read fs offset = elim (read (offset / tar_blocksize * tar_blocksize)) [
    | none ↦ some fs
    | some h ↦ elim (tarfs_validate h) [
      | false ↦ some fs
      | true ↦ scan_header fs h offset >>= (λ fs'. scan_loop f read fs' (tarfs_nextheader h offset))
    ]
  ]

  -- `tarfs_scan`, from empty maps and with the address of the root's node
  unfoldable pub tarfs_scan :
      ℕ → (ℕ → Option Block) → Dirents → Vnodes → ℕ → Option (Tarfs Dirents Vnodes)
  unfolding map_put scan_loop
  tarfs_scan fuel read tree vnodes root =
      let fs : Tarfs Dirents Vnodes = record {
        tree = tree;
        vnodes = (map_put vnode_ops vnodes 1 root).1;
        inext = 2;
        nodes = λ a. (0, 0);
        next = root + 1;
      } in
      scan_loop fuel read fs 0
