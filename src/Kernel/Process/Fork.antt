-- ===== src/Kernel/Process/Fork.antt =====
-- The process that process_fork of kernel/process.c makes.
use twcos.Common.{ℕ, ◌+◌, ◌^◌, ◌<◌, ◌≡◌, ◌≢◌, refl, true, List, ◌==◌, if◌then◌else◌, length}
use twcos.Libk.Tree.Ops.{Fresh, TreeMap}
use twcos.Libk.Map.{MapOps, map_get, map_put_all}
use twcos.Libk.Map.Contract.{IsMap, IsMapOn, map_put_all-copies}
use twcos.Kernel.Vm.{Vm, VmPage, M, ok, ◌>>=◌}
use twcos.Kernel.Process.{Container, Process, process_duplicate_as, process_fork}
use twcos.Kernel.Process.Pids.{member, process_of, process_nextpid-Free}

module _ {Files Pids : Type 0} (file_ops : MapOps Files) (pid_ops : MapOps Pids)
    (FileValid : Files → Type 0) (PidValid : Pids → Type 0) (IsDescriptor : ℕ → Type 0)
    (file_law : IsMapOn file_ops ◌==◌ IsDescriptor FileValid)
    (pid_law : IsMap pid_ops ◌==◌ PidValid)
    (still : (m : Pids) (k : ℕ) → PidValid m → (map_get pid_ops m k).1 ≡ m) where
  -- Where the address space can be copied, process_fork makes a process that is a child of the
  -- current one, has the copied address space, has every file descriptor of its parent that is
  -- a key of the map of files open on the same file and no other such, and has an identifier that no process had, by which it is now found.
  pub process_fork-child :
      {Pages : Type 0} (page_ops : MapOps Pages) (new_pages : Pages) (junk : VmPage)
      (vnode_get_page : ℕ → ℕ → M Pages ℕ) (node : TreeMap → Fresh) (new_files : Files)
      (address new to : ℕ) (current : Process Files) (c : Container Pids) (used : List ℕ)
      (s s1 : Vm Pages)
      → process_duplicate_as page_ops new_pages junk vnode_get_page node current.as' to s
        ≡ ok (tt, s1)
      → PidValid c.pids
      → FileValid current.files
      → FileValid new_files
      → ((fd : ℕ) → IsDescriptor fd → (map_get file_ops new_files fd).0 ≡ 0)
      → c.nextpid < 2 ^ 32
      → length used < 2 ^ 32
      → ((pid : ℕ) → process_of pid_ops PidValid pid_law still c pid ≢ 0 → member pid used ≡ true)
      → (child : Process Files) × (c' : Container Pids) × (process_fork page_ops new_pages junk
            vnode_get_page node file_ops new_files pid_ops
            (length used + 1)
            address
            new
            to
            current
            c
            s
          ≡ ok ((child, c'), s1))
        × (child.parent ≡ address)
        × (child.as' ≡ to)
        × ((fd : ℕ)
            → IsDescriptor fd
            → (map_get file_ops child.files fd).0 ≡ (map_get file_ops current.files fd).0)
        × (process_of pid_ops PidValid pid_law still c child.pid ≡ 0)
        × ((k : ℕ)
            → process_of pid_ops PidValid pid_law still c' k
              ≡ (if k == child.pid then new else process_of pid_ops PidValid pid_law still c k))
  unfolding process_fork
  process_fork-child page_ops new_pages junk vnode_get_page node new_files address new to current c
        used s s1 copied v w w' empty small short covers =
      let (pid, c', run, unused, next, names) =
        process_nextpid-Free pid_ops PidValid pid_law still new c used v small short covers in
      (
        record {
          pid = pid;
          parent = address;
          as' = to;
          files = map_put_all file_ops file_ops new_files current.files;
        },
        c',
        rw (process_fork, ◌>>=◌, copied, run),
        refl,
        refl,
        λ fd a.
            map_put_all-copies file_ops file_ops ◌==◌ IsDescriptor FileValid FileValid file_law
              file_law new_files current.files fd a w' w (empty fd a),
        unused,
        names,
      )
