-- ===== src/Lib.antt =====
-- A model of parts of the TWCOS kernel: its library (libk/), the kernel proper (kernel/), the tar
-- file system (fs/), and the i386 console and page tables (arch/i386/).
--
-- How the parts interact. Maps are the kernel's data structure for everything that has a key: a
-- client calls through `map_ops`, and libk/tree.c, libk/arraymap.c and libk/vector.c are
-- implementations, the first two with a comparison function as their parameter. kernel/timer.c
-- keeps a queue of events over a hardware timer that it knows as two functions. kernel/core.c
-- gives out physical pages, libk/slab.c cuts pages into slots and collects those that no pointer
-- leads to, libk/exception.c throws along a chain of frames and releases what libk/destructor.c
-- has noted, and fs/tarfs/tarfs.c is a client of maps. arch/i386/console.c shows text and takes
-- keys from an interrupt handler. kernel/vm.c resolves page faults through the page tables of
-- arch/i386/vmap.c with pages of kernel/core.c; kernel/process.c copies an address space and the
-- table of open files, and kernel/vfs.c gives kernel/vm.c the pages of files.
--
-- Where what is modelled:
--   Common            tests, lists with native indices, integers
--   Libk/Tree         libk/tree.c. A `node_t *` is a subtree and the path of its ancestors
--                     (`Place`), which stands for all parent, left and right links. Balance has
--                     node_splay, node_prioritize, node_count_balance and node_simple_balance;
--                     Neighbours node_next, node_prev and the walks; Ops tree_put, tree_get,
--                     tree_remove and what they call. Sorted is the view of a client: a list of
--                     entries in the order of their keys. The other files prove that the
--                     operations implement it.
--   Libk/ArrayMap     libk/arraymap.c: the slots in use as a list
--   Libk/Strings      libk/string.c: strings as lists of bytes without the final 0
--   Kernel/Timer      kernel/timer.c: the queue as a list, the timer hardware as `TimerOps`
--   Kernel/Pages      kernel/core.c: page ranges with bit maps of 32-bit words
--   Arch/Console      arch/i386/console.c: the 80 by 25 screen as a list of 2000 cells
--   Arch/Keyboard     arch/i386/console.c: the ring of 256 key codes
--   Libk/Stream       libk/stream.c: what a format prints, as a list of characters
--   Kernel/Threads    libk/list.c, the scheduler of kernel/thread.c, and in Locks kernel/sync.c. A step
--                     is what a thread does up to its return or its call of thread_schedule.
--   Libk/Destructor   libk/destructor.c: a thread's stack of destructors
--   Libk/Exception    libk/exception.c: the chain of frames, and the loop of KTRY, KCATCH and KFINALLY.
--                     Blocks runs nested blocks over the chain; Meaning gives them a meaning without it.
--   Libk/Vector       libk/vector.c: tables of 64 entries by level. Keys shows that a vector of one
--                     table keeps the laws of maps on the keys below 64. A put at 64 or a get from 64
--                     on leaves that table, so that what is shown of the clients of vectors is about
--                     keys on which their map keeps the laws.
--   Libk/Slab         libk/slab.c: slabs, their bit maps, and the mark and sweep. Marks says what one bit
--                     changes, Collect and Reached what marking from pointers does, Collected what a
--                     collection keeps; Sweep what it finalizes.
--   Libk/Map          libk/map.c: the calls through `MapOps`. Contract states what a client relies on,
--                     Trees shows it of libk/tree.c; Arrays and Compound are about the keys.
--   Fs/Tarfs          fs/tarfs/tarfs.c over two maps: Octal is about the numbers in headers, Nodes about the
--                     tree of names, Scan about the loop over the headers
--   Libk/Arena        libk/arena.c: the blocks of an arena, and the arenas of threads
--   Arch/Vmap         arch/i386/vmap.c: physical memory as words of pages, and `pgtbls` as the processor
--                     resolves it. Asids is about the slots, Entries about one access, Tables about
--                     reading, Missing and Directories about a new page table, Mapping and Spaces about
--                     the operations, Init about vmap_init. Pages come from Kernel/Pages.
--   Kernel/Vm         kernel/vm.c over a store of objects and segments. Rmap is the set of mappings noted
--                     for a page and Mappings its proofs, Noting what the calls of the
--                     vector `vmpages` do, Segments the segments and the page fault,
--                     Objects about anonymous objects, Faults about the fault and the page tables
--                     of Arch/Vmap, Traps about taking a page out of them, Kas about addresses
--   Kernel/Vfs        kernel/vfs.c: the page cache over a file system that is a parameter
--   Kernel/Process    kernel/process.c over Kernel/Vm, with `container_t` of kernel/container.c: Pids is
--                     about process_nextpid, Fork about process_fork
--   Kernel/Dev        kernel/dev.c: operations on a device that is a list of bytes
--
-- In the other parts memory from `slab_alloc` and the like is a parameter: `Fresh` is the address
-- that a new node gets and the priority that its memory holds. Integers are natural numbers with
-- the wrap-around written out where the code relies on it, and `ℤ` of Common/Int where they may
-- be negative.
--
-- Loops with fuel: the loop of node_simple_balance has two rounds for each ancestor, enough since
-- a round after a turn only moves up; tree_walk has one round more than there are nodes; a search
-- in an array map needs at most as many rounds as there are slots, and ssplit one more than the
-- bytes of its string; printing a number takes one round for each digit, with fuel for 64. The
-- theorems show that this is enough. A vector below index 2 ^ 30 grows at most four times, with
-- fuel 5 less its level; a block of KTRY asks exception_finished at most four times, with fuel 5.
-- The depth of
-- slab_gc_mark is at most the number of bits set, with one more for fuel.
--
-- vmap_set_pte and vmap_map call each other to depth 2, which is enough since the tables' own page
-- tables are never missing. A page is asked of at most as many objects as there are, since an
-- object is newer than its clean object. process_nextpid has one round more than there are
-- identifiers in use.
--
-- Not modelled: assembly and port accesses, output, open files, waiting for a device, thread_fork,
-- and the optimising and verifying walks of libk/tree.c.
pub mod Common
pub mod Libk
pub mod Kernel
pub mod Arch
pub mod Fs
