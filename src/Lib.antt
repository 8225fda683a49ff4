-- ===== src/Lib.antt =====
-- dzOS is a small x86-64 kernel with a file system of its own and a few drivers. These files model
-- parts of it that keep state in memory and prove what their operations do to that state.
--
-- Mem models kernel/src/mem/mem.c. `Mem.State.Mem` is its static data: the list of freed pages, with
-- each link in the first word of a page, and the regions of physical memory that are not carved yet.
-- kalloc, kcalloc, kalloc_for_page_cache and kfree handle one page, kalloc_pages and kfree_pages a
-- block, and init_mem reads the memory map of the boot loader. A call that panics is `none`.
--
-- Sched models kernel/src/userspace/scheduler.c and scheduler.h. A process goes by the address of
-- its structure, NULL being 0, and `Sched.State.Sched` holds the run queue, the statistics, and the
-- entities and states of the processes by address. The clock is an argument. scheduler_start is
-- split at its context switch: `dispatch` runs from the pick to the switch, `switched_back` from the
-- return to the end of the round. What becomes of an exited process beyond its state, the release of
-- its memory, is not modelled; the compaction of the process table stands with the processes.
--
-- Device models kernel/src/drivers/device_manager.c with driver.h and hw_detect.h: the arrays of
-- devices and drivers, registration, search, binding, probing and initialisation. The operations of
-- a driver are functions in its record that may change the device they are given.
--
-- Input models kernel/src/drivers/drv_ps2.c: the keyboard handler with its two tables, the UTF-8
-- encoder that prints a character, and the mouse handler. The bytes on the ports are arguments, and
-- a read or write beyond an array is `none`.
--
-- Serial models the receive buffer of kernel/src/drivers/drv_serial.c, which the interrupt handler
-- fills and serial_read_op empties. A reader that has to wait is `none`.
--
-- Lock models kernel/src/common/spinlock.c as one CPU sees it: its interrupt flag, the depth of its
-- saved sections, and the lock of the call. A call panics, spins or returns. The two stores of a
-- lock that is taken or released are a step each, one behind the other: the kernel starts one CPU,
-- and its interrupts are off between them.
--
-- Fs models the inode table of kernel/src/fs/fs.c and the open files of kernel/src/fs/file.c, with
-- proc_allocate_fd of kernel/src/userspace/proc.c. dzFS itself (kernel/src/fs/dzfs.h) is the
-- interface `Fs.Inode.Dzfs`, a record of its operations on a disk of any type. `Fs.Devices` is
-- kernel/src/fs/device.c: the table of the devices, the search in it and device_open.
--
-- Dzfs models kernel/src/fs/dzfs.c with dzfs.h and fills that interface (`Dzfs.Interface`). A block
-- is its 4096 bytes, with the members of the source's union as views; the callbacks of struct dzFS
-- are the record `Dzfs.Block.BlockDevice` on a disk of any type, and the theorems assume of them
-- what `IsBlockDevice` says: a block written is read back, and a write leaves the other blocks. The
-- result codes are data, and a call that writes returns the disk as it leaves it, on its errors too.
-- `Dzfs.Readdir` and `Dzfs.Boot` are fs_readdir, fs_mkdir and fs_init of kernel/src/fs/fs.c, over
-- it.
--
-- Clock models the date in kernel/src/drivers/drv_rtc.c: read_rtc_time with the loop that reads
-- until two readings agree, given the readings as a list, and the conversion to seconds since 1970.
--
-- Heap models kernel/src/mem/kmalloc.c over memory as its bytes by address: the mixed pages that
-- serve small sizes, the large blocks, and kmfree with its cases. The calls of the page allocator
-- are the interface `Heap.Mixed.PageAllocator`.
--
-- Vmm models kernel/src/mem/vmm.c with vmm.h over memory as its bytes by address, so that the tables
-- of a page table are pages of that memory. The calls of the page allocator are the interface
-- `Vmm.Table.FrameAllocator`; the theorems on mappings assume of it what
-- `Vmm.Entries.IsFrameAllocator` says of an allocator that is in order: a page handed out is
-- aligned, was free and is free no longer, the call writes nothing outside it, and writes to pages
-- that are not free do no harm. `Vmm.Supply` fills the interface with the calls of Mem for single
-- pages, whose links stand in the bytes of memory, and proves these laws of them from the invariant
-- of Mem. A call that panics is `none`. `Vmm.Walk` is walk, walk_kernel and vmm_walkaddr, `Vmm.Map`
-- what maps pages, `Vmm.User` copies, sbrk and the checks of what a program hands over, and
-- `Vmm.Space` whole address spaces and `Vmm.Stack` the kernel stacks. The theorems see the page
-- table as a tree of tables by paths (`Vmm.Tree`). The invalidation of the TLB is left out: a change
-- of the memory is seen at once.
--
-- Proc models kernel/src/userspace/proc.c, kernel/src/common/condvar.c and the compaction of the
-- process table in kernel/src/userspace/scheduler.c. The processes stand in slots, 0 being an empty
-- one. `Proc.Wake` keeps the locks that are held beside the state of Sched: a call that would spin
-- or panic is `none`. condvar_wait and proc_exit are split at the switch to the scheduler, and
-- proc_wait is modelled up to the process it waits for.
--
-- Prelude holds what the parts share: Boolean tests, machine words, lists and signed integers over
-- the native numbers. A word of w bits is a number kept below 2 ^ w by a remainder.
--
-- Bounds. The loops over a linked list run on fuel: sched_pick_next on the length of the longest
-- bucket and one more, and kalloc_pages on a fuel of its own. In dzFS, the traversal of a path runs
-- on the length of the path, and the loops of dzfs_write and dzfs_read on the number of bytes; more
-- fuel changes nothing there. fs_readdir runs on 958 rounds, one more than a folder has slots. The
-- walk of kmalloc over pages has no bound in the source and runs on a fuel of its own, `none` being
-- a walk longer than that. In vmm.c, vmm_memcpy runs on the number of bytes, of which a round copies
-- one at least, and vmm_zero, sbrk and the check of pointers on the number of pages, of which a
-- round passes one. popcount runs on 33 rounds, one more than a word has bits. All other loops count
-- down a number or follow a list. Spinlocks around a whole call are left out where a part is
-- modelled as one CPU runs it. Where the source reads beyond an array that no invariant here
-- reaches, the weight of a priority above 7 and a name without a terminator in fs_readdir, the model
-- ends at the array.
--
-- Not modelled: the callbacks of dzFS, fs_rename (it panics), the allocation from arenas and slabs,
-- vmm_init_kernel and the TLB (registers), program loading, sys_sleep, userspace_init and the stack
-- canary, system calls, the time-stamp counter, the drivers of NVMe, PCI and the framebuffer, the
-- set-up of the CPU, the C library and the user programs.
pub mod Prelude
pub mod Clock
pub mod Device
pub mod Dzfs
pub mod Fs
pub mod Heap
pub mod Input
pub mod Lock
pub mod Mem
pub mod Proc
pub mod Sched
pub mod Serial
pub mod Vmm
