-- ===== src/Kernel/Process.antt =====
-- kernel/process.c: process identifiers, and the copy of a process. Address spaces and segments are
-- those of Kernel/Vm; the open files, a vector of libk/vector.c in the program, and the
-- identifiers of a container, a tree, are kinds of map (libk/map.c). `thread_fork`, which returns in the parent and in the child, is left out: the model
-- gives the new process and what the parent is told. The spin lock makes process_nextpid one step.
pub mod Pids
pub mod Fork
mod Tests
use twcos.Common.{
  ℕ, zero, suc, ◌+◌, ◌-◌, ◌*◌, ◌%◌, ◌^◌, Bool, true, false, Option, none, some, List, [], ◌∷◌, ◌==◌,
  if◌then◌else◌, compare,
}
use twcos.Libk.Tree.{Entry, leaf}
use twcos.Libk.Tree.Ops.{Fresh, TreeMap, treap, tree_put, tree_walk}
use twcos.Libk.Map.{MapOps, map_get, map_put, map_put_all}
use twcos.Kernel.Vm.{
  Vm, VmPage, Segment, Stop, stop, ok, null_pointer, endless, M, ◌>>=◌, ◌>>◌, pure, store_at,
}
use twcos.Kernel.Vm.Segments.{vm_segment_copy}

-- `container_t`, without its root.
pub record Container (Pids : Type 0) : Type 0 where
  pub nextpid : ℕ
  pub pids : Pids

-- `process_t`
pub record Process (Files : Type 0) : Type 0 where
  pub pid : ℕ
  pub parent : ℕ
  pub as' : ℕ
  pub files : Files

module _ {Pids : Type 0} (pid_ops : MapOps Pids) where
  -- The loop of `process_nextpid`, with fuel: the first identifier from `nextpid` on that no process
  -- has. A `pid_t` has 32 bits.
  unfoldable pub free_pid : (fuel : ℕ) → Container Pids → Option (ℕ × Container Pids)
  free_pid zero c = none
  free_pid (suc fuel) c =
      let (process, pids) = map_get pid_ops c.pids c.nextpid in
      let c' : Container Pids = record { nextpid = (c.nextpid + 1) % 2 ^ 32; pids = pids } in
      let rest = free_pid fuel c' in if process == 0 then some (c.nextpid, c') else rest

  -- `process_nextpid` for the process at an address.
  unfoldable pub process_nextpid : (fuel process : ℕ) → Container Pids → Option (ℕ × Container Pids)
  process_nextpid fuel process c = elim (free_pid fuel c) [
    | none ↦ none
    | some (pid, c') ↦ some (pid, record c' { pids = (map_put pid_ops c'.pids pid process).1 })
  ]

-- `node` gives the memory of a new tree node.
module _ {Pages : Type 0} (page_ops : MapOps Pages) (new_pages : Pages) (junk : VmPage)
    (vnode_get_page : ℕ → ℕ → M Pages ℕ) (node : TreeMap → Fresh) where
  -- `process_duplicate_as_copy_seg`
  unfoldable pub copy_seg : (to key seg : ℕ) → M Pages (Unit {0})
  copy_seg to key seg s = elim (s.segments seg) [
    | none ↦ stop null_pointer
    | some from ↦
        (do
          new ← vm_segment_copy page_ops new_pages junk vnode_get_page from true
          λ s'. ok (
            tt,
            record s' {
              spaces =
                  store_at s'.spaces to (tree_put (node (s'.spaces to)) (s'.spaces to) key new).1;
            },
          ))
          s
  ]

  -- The calls that the walk makes.
  unfoldable pub copy_segs : (to : ℕ) → List Entry → M Pages (Unit {0})
  copy_segs to [] = pure tt
  copy_segs to (e ∷ entries) = do copy_seg to e.key e.value; copy_segs to entries

  -- `process_duplicate_as`: the new address space is a treap at the address `to`.
  unfoldable pub process_duplicate_as : (from to : ℕ) → M Pages (Unit {0})
  process_duplicate_as from to s = elim (tree_walk (s.spaces from)) [
    | none ↦ stop endless
    | some entries ↦ copy_segs to entries (record s {
      spaces = store_at s.spaces to (record { root = leaf; mode = treap; comp = compare });
    })
  ]

  -- `process_fork` up to its call of `thread_fork`, for a process `current` at `address`: the new
  -- process, at the address `new` and with its address space at `to`.
  unfoldable pub process_fork :
      {Files Pids : Type 0} (file_ops : MapOps Files) (new_files : Files) (pid_ops : MapOps Pids)
      (fuel address new to : ℕ)
      → Process Files
      → Container Pids
      → M Pages (Process Files × Container Pids)
  process_fork file_ops new_files pid_ops fuel address new to current c = do
    process_duplicate_as current.as' to
    λ s. elim (process_nextpid pid_ops fuel new c) [
      | none ↦ stop endless
      | some (pid, c') ↦ ok (
        (
          record {
            pid = pid;
            parent = address;
            as' = to;
            files = map_put_all file_ops file_ops new_files current.files;
          },
          c',
        ),
        s,
      )
    ]
