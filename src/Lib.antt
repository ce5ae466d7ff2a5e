-- ===== src/Lib.antt =====
-- Verification of the C code of two teaching kernels: Pintos, in
-- Berkeley-CS162-Operating-System/Lab/proj-pregame/src (below: Pintos), and uCore, in
-- Mooc_OS_Lab/lab1 (below: uCore), whose later labs hold copies of the same files.
--
-- Parts and files.
--   Prelude, Prelude/* : shared names, Boolean tests, lists, panics as options, bits of words.
--   Bitmap : Pintos lib/kernel/bitmap.c. A bitmap is its size and its 32-bit elements; Bitmap/View
--     reads it as a function from indices to bits, Bitmap/Range and Bitmap/Scan treat ranges and
--     searches through that view.
--   FreeMap : Pintos filesys/free-map.c, the sectors of a device, over Bitmap. The file layer is a
--     parameter: a function that writes elements and tells whether all of them were written.
--   Palloc : Pintos threads/palloc.c, two pools of pages, each over a Bitmap, and the memory that
--     PAL_ZERO and a release fill.
--   Hash : Pintos lib/kernel/hash.c, a chained hash table with resizing, generic in the elements; the
--     client's hash and comparison are a record, their laws a hypothesis (HashLaws).
--   Dll : Pintos lib/kernel/list.c, doubly linked lists with a head and a tail entry: a list is the two
--     addresses, over the links of Links in which 0 is the null pointer. Dll/Chained says when the links
--     hold a sequence, Dll/Insert, Dll/Remove, Dll/Splice and Dll/Ends treat the operations at a place,
--     Dll/Ascending, Dll/Runs, Dll/Merge, Dll/Pass and Dll/Sort the merge sort, Dll/Ordered,
--     Dll/Query, Dll/Reverse and Dll/Unify insertion in order, the extrema, reversal and the removal of
--     duplicates. The client's `less`, with its `aux`, is a parameter.
--   Synch : Pintos threads/synch.c, semaphores and locks, as a relation of steps that any number of
--     threads take in any order; RwLock, the readers-writers lock of the same file, as steps under
--     its guard lock.
--   Intq : Pintos devices/intq.c, the circular buffer between threads and interrupt handlers, by the
--     rounds of its loops.
--   Sched : uCore kern/schedule/default_sched.c and sched.c, round-robin scheduling, `schedule` and
--     `wakeup_proc`; Sched/Timer, the list of timers of sched.c and the tick that wakes processes.
--   Proc : uCore kern/process/proc.c, the table of processes. Proc/Scan and Proc/Pid treat `get_pid`,
--     Proc/Table says that the hash lists and the list of processes agree, Proc/Change how a process
--     enters and leaves them, Proc/Family and Proc/Unlink read the links of the tree as lists of children.
--   Wait : uCore kern/sync/wait.c, one wait queue over Sched; Wait/Sem, the semaphores of sem.c over it,
--     where `__down` is two functions, up to its call of `schedule` and from where the process runs again.
--   Links : uCore libs/list.h, doubly linked lists in memory: two functions from entries to entries.
--     Links/Insert and Links/Delete relate the operations to sequences, Links/RunList relates them to
--     the run list of Sched, so that the sequences that the other parts use stand for such lists.
--   Pmm : uCore kern/mm/default_pmm.c, the first-fit page allocator: a list of free pages and the pages'
--     fields. Pmm/Blocks reads the list as blocks, Pmm/Alloc, Pmm/Free and Pmm/Init treat the operations.
--   Swap : uCore kern/mm/swap_fifo.c, FIFO page replacement, on the links of Links.
--   Vmm : uCore kern/mm/vmm.c, the areas of an address space with the cache of `find_vma`;
--     kmalloc and the copying of a range are parameters.
--   Str : uCore libs/string.c, strings and blocks in a memory of bytes;
--     Str/Number, its `strtol`, with Str/Number/Syntax for the texts that it reads.
--   Each part's Tests hold the theorems at concrete inputs.
--
-- Conventions. A machine word is a natural number with its wrap-around written out; pointers of Str
-- do not wrap. `none` is a failed ASSERT, or a loop of Str that ran out of fuel: such a loop is given
-- one round for each byte of the string, and the theorems ask for no more than that. The other loops
-- are structural, in the count that the source lowers or in the list that it walks. The loop of
-- `rehash` that lowers a number to a power of two has as much fuel as the number, which each round
-- lowers, and the theorem on it is that the result is a power of two. malloc is a Boolean or an option that
-- the operation takes. The loop of `user_mem_check` has fuel for each byte of the range, as each round
-- passes one at least; those of `wakeup_queue` take a round for each wait and one more, those of Dll a round for each element and
-- one more: a round moves one element on, and each pass of `list_sort` but the last leaves fewer runs. `get_pid` has fuel for
-- every pid, as each `goto repeat` comes nearer to the next free one.
--
-- Not modelled: output, freeing of memory, the pools' locks and the interleaving of calls of Palloc
-- (each is one step), the asserts that a pointer is not null or that no interrupt is handled,
-- context switches besides the change of `current`, the memory and trap frames of `do_fork`, a list
-- of duplicates in the theorem on `list_unique`, counts of the scheduler, of semaphores and of the
-- readers-writers lock beyond a machine word, and the other subsystems of both kernels.
pub mod Prelude
pub mod Bitmap
pub mod Dll
pub mod FreeMap
pub mod Hash
pub mod Intq
pub mod Links
pub mod Palloc
pub mod Pmm
pub mod Proc
pub mod RwLock
pub mod Sched
pub mod Str
pub mod Swap
pub mod Synch
pub mod Vmm
pub mod Wait
