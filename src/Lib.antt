-- ===== src/Lib.antt =====
-- NNXOS64, a 64-bit kernel in C: its interrupt levels, spin locks, lists, page and pool allocators,
-- handle tables, dispatcher objects, ready queues, strings, clocks, FAT file system and graphics regions.
--
-- The parts and the files that model them:
--   * Ke/BugCheck (NNXOSKRN/include/bugcheck.h): a call either returns (`ok`) or ends in `KeBugCheckEx`.
--   * Ke/Irql (NNXOSKRN/irql.c): the level of a processor and its task priority; one function for each
--     routine of the file, with its name.
--   * Ke/SpinLock (NNXOSKRN/spinlock.c, HALX64/spinlock.c): the routines on one processor, whose levels
--     they raise and lower through Ke/Irql; Ke/SpinLock/Machine interleaves the atomic steps of any
--     number of processors.
--   * Ke/Time (NNXOSKRN/time.c): the clock tick, which walks two rings of timeouts built on Ntlist. The
--     callback of a timeout is what PspOnThreadTimeout does to the rings. The real time clock's time is
--     an argument.
--   * Ke/Dispatcher (NNXOSKRN/dispatcher): objects that threads wait for. Ke/Dispatcher has what ends a wait
--     and what a signal does, Ke/Dispatcher/Wait has the waits, and Ke/Dispatcher/Objects has semaphores,
--     mutexes and queues. Woken threads go to the shared ready queue of Ps/Ready, and timeouts are those
--     of Ke/Time. A lock is the word of Ke/SpinLock, which no other processor writes here. The
--     levels of processors are left out.
--   * Ps/Ready (NNXOSKRN/scheduler.c): the ready queues, shared and for each processor, and the choice of the
--     next thread. Ps/Ready/Machine lets any number of processors take threads in any order.
--   * Ntlist (NNXOSKRN/include/ntlist.h, NNXOSKRN/ntlist.c): circular lists in an explicit memory of
--     links. Ntlist/Interlocked has the operations under a spin lock. The allocators and the handle
--     chains are built on these lists.
--   * Mm/PhysicalAllocator (NNXOSKRN/HAL/X64/physical_allocator.c): the page frames in two lists, under
--     `PfnEntriesLock`; Mm/PhysicalAllocator/Region allocates runs of pages.
--   * Pool (NNXOSKRN/pool.c): the blocks of a pool, as headers in memory: Pool/Setup makes and expands
--     pools, Pool/Alloc allocates, Pool/Free frees and merges. Pool/Layout says what a well-formed pool
--     is.
--   * Ob/Handle (NNXOSKRN/ob/handle.c): the chain of handle databases and its search. Ob/Handle/Counted has
--     the whole routines, with the counts of the objects (NNXOSKRN/ob/objects.c), each as one step.
--   * Rtl/String (NNXOSKRN/rtl/rtlstring.c): comparison and concatenation of counted strings.
--   * Hal/Rtc (HALX64/rtc.c, HALX64/cmos.c): reading the clock's registers and converting the time.
--   * Fat (NNXOSKRN/drivers/builtin/fs/fat.c, NNXOSKRN/include/fat.h): a volume as its BIOS parameter block
--     and a disk of sectors, which can each be readable and writable or not. Fat/Geometry says where the
--     parts of a volume lie. Fat/Table reads and writes the entries of the allocation table through a
--     buffer of one sector; Fat/Chain follows, searches and extends the chains of clusters; Fat/File
--     reads and writes files through them; Fat/Name has the names in directory entries,
--     Fat/Path those in paths (NNXOSKRN/drivers/builtin/fs/vfs.c, NNXOSKRN/text.c). A buffer that a
--     routine allocates holds arbitrary bytes, the argument `fresh`.
--   * Gdi (NNXOSKRN/gdi): Gdi/Object has the table of handles of graphics objects, Gdi/Region rectangular
--     regions and their intersection, which is put under a handle of that table. Each routine is one step
--     of its processor.
--   * Prelude: the names, tests and list functions that all parts share.
-- A part's Tests module applies its theorems at concrete states.
--
-- Numbers are natural numbers. Counters, sizes and times that can wrap in the source keep their
-- `% 2 ^ w`; addresses and block sizes of a pool that has been set up stay below the width, since they
-- lie in the pool's memory. A function that may be given out-of-range input by the source says in its
-- comment what happens there. Where a result is an `Option` under an `Outcome`, `none` is a call that
-- never returns: a spin on a lock that nobody releases, or a loop that runs out of its fuel.
--
-- Fuel: the walks over a pool's list run on one more than the number of blocks, those over the free
-- pages on one more than the number of entries, and the search for a position in a block on one more
-- than its size: a round for each block, entry or byte, and one for the end. The enumeration of a pool's
-- blocks has the fuel of the walk. The lookup and creation
-- of handles need more fuel than the chain has databases. The waits on the clock's update flag
-- run on a fuel of their own, since the device is not known. The search for the end of a chain of clusters
-- needs more fuel than the chain has clusters, and a clock tick more than the longer ring of timeouts;
-- a table may hold chains that never end. The loop of `KiSignal`
-- needs more fuel than the object has waiters, and `signal` gives it one more.
--
-- Not modelled: the debug variants of the spin lock and the self checks of a pool; printing; single lists; the
-- locks of handles and objects, and what deletes an object; the switch of threads, their creation
-- and end; waits for all of several objects have definitions and no theorem; page tables; the
-- change of directories and the walk over the directories of a path; of graphics, regions with a
-- bitmap, the other ways to combine regions, and drawing; drivers and the boot loader. The real
-- time clock's device is a parameter.
pub mod Fat
pub mod Gdi
pub mod Hal
pub mod Ke
pub mod Mm
pub mod Ntlist
pub mod Ob
pub mod Pool
pub mod Prelude
pub mod Ps
pub mod Rtl
