-- ===== src/Kernel/Process/Tests.antt =====
-- The theorems on kernel/process.c at concrete inputs: a process with one segment and two open files.
use twcos.Libk.Vector.{Vector, vector_new}
use twcos.Libk.Vector.Keys.{
  vector_ops, IsKey, IsOneTable, vector-IsMapOn, vector_new-IsOneTable, get-vector_new,
}
use twcos.Common.{
  Option, ℕ, ◌+◌, ◌%◌, ◌^◌, ◌≡◌, ◌≢◌, refl, true, none, some, List, [], ◌∷◌, arith, ◌==◌,
  if◌then◌else◌, compare,
}
use twcos.Libk.Tree.{leaf, node}
use twcos.Libk.Tree.Ops.{Fresh, TreeMap, treap, tree_put, tree_walk, put_node, tree_node_new}
use twcos.Libk.Map.{map_get}
use twcos.Libk.Map.Examples.{Any, law, ops, still}
use twcos.Arch.Vmap.Examples.{booted}
use twcos.Kernel.Vm.{VmPage, Vm, M, ok, stop, store_at, anon}
use twcos.Kernel.Vm.Segments.{
  vm_segment_copy, vm_segment_base, copy_dirty, vm_object_anon, vm_object_anon_copy, new_object,
  set_segment,
}
use twcos.Kernel.Process.{
  Container, Process, copy_seg, copy_segs, process_duplicate_as, process_fork, process_nextpid,
}
use twcos.Kernel.Process.Pids.{member, process_of, process_nextpid-Free}
use twcos.Kernel.Process.Fork.{process_fork-child}

abbrev container : Container (List (ℕ × ℕ))
container = record { nextpid = 1; pids = (1, 500) ∷ (2, 600) ∷ [] }

used_in :
    (pid : ℕ) → process_of ops Any law still container pid ≢ 0 → member pid (1 ∷ 2 ∷ []) ≡ true
unfolding process_of member map_get
used_in pid h = ground (arith, h)

process_nextpid-Free_example :
    (pid : ℕ) × (c' : Container (List (ℕ × ℕ))) × (process_nextpid ops 3 700 container
      ≡ some (pid, c'))
    × (process_of ops Any law still container pid ≡ 0)
    × (c'.nextpid ≡ (pid + 1) % 2 ^ 32)
    × ((k : ℕ)
        → process_of ops Any law still c' k
          ≡ (if k == pid then 700 else process_of ops Any law still container k))
process_nextpid-Free_example =
    process_nextpid-Free ops Any law still 700 container (1 ∷ 2 ∷ []) tt (omega arith) (omega arith)
      used_in

-- Descriptors 0 and 1 are open.
abbrev table : ℕ → ℕ
table fd = if fd == 0 then 80 else if fd == 1 then 81 else 0

abbrev files : Option Vector
files = some (record { level = 0; table = table })

files-IsOneTable : IsOneTable files
files-IsOneTable = record { table = table; is = refl }

abbrev current : Process (Option Vector)
current = record { pid = 1; parent = 0; as' = 40; files = files }

abbrev vm : Vm (Option Vector)
vm = record {
  objects = store_at (λ o. none) 3 (some (anon files 0));
  next_object = 4;
  segments =
      store_at (λ s. none) 10
        (some (record {
          base = 0x1_0000;
          size = 0x2000;
          perms = record { w = true; u = true; p = true };
          dirty = 3;
          read_offset = 0;
          clean = 0;
        }));
  next_segment = 11;
  spaces = λ a. record {
    root = node leaf (record { addr = 30; key = 0x1_0000; value = 10 }) 7 1 leaf;
    mode = treap;
    comp = compare;
  };
  kas = 20;
  process_as = 40;
  vmpages = λ p. none;
  level = 2;
  vmap = booted;
}

abbrev read_file : ℕ → ℕ → M (Option Vector) ℕ
read_file file offset s = ok (0, s)

abbrev junk : VmPage
junk = record { flags = 0; age = 0; maps = [] }

abbrev fresh : TreeMap → Fresh
fresh t = record { addr = 31; priority = 9 }

abbrev after : Vm (Option Vector)
after = elim (process_duplicate_as vector_ops (some vector_new) junk read_file fresh 40 41 vm) [
  | ok r ↦ r.1
  | stop e ↦ vm
]

copied :
    process_duplicate_as vector_ops (some vector_new) junk read_file fresh 40 41 vm ≡ ok (tt, after)
unfolding process_duplicate_as copy_segs copy_seg vm_segment_copy vm_segment_base copy_dirty
    vm_object_anon vm_object_anon_copy new_object set_segment tree_walk tree_put put_node
    tree_node_new
copied = refl

none_open : (fd : ℕ) → IsKey fd → (map_get vector_ops (some vector_new) fd).0 ≡ 0
none_open fd h = get-vector_new fd h

process_fork-child_example :
    (child : Process (Option Vector)) × (c' : Container (List (ℕ × ℕ))) × (process_fork vector_ops
        (some vector_new)
        junk
        read_file
        fresh
        vector_ops
        (some vector_new)
        ops
        3
        500
        700
        41
        current
        container
        vm
      ≡ ok ((child, c'), after))
    × (child.parent ≡ 500)
    × (child.as' ≡ 41)
    × ((fd : ℕ)
        → IsKey fd
        → (map_get vector_ops child.files fd).0 ≡ (map_get vector_ops current.files fd).0)
    × (process_of ops Any law still container child.pid ≡ 0)
    × ((k : ℕ)
        → process_of ops Any law still c' k
          ≡ (if k == child.pid then 700 else process_of ops Any law still container k))
process_fork-child_example =
    process_fork-child vector_ops ops IsOneTable Any IsKey vector-IsMapOn law still vector_ops
      (some vector_new) junk read_file fresh (some vector_new) 500 700 41 current container
      (1 ∷ 2 ∷ []) vm after copied tt files-IsOneTable vector_new-IsOneTable none_open (omega arith)
      (omega arith) used_in
