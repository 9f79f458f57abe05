-- ===== src/Lib.antt =====
-- The kernel of a small RISC-V operating system: scheduling, locks, mailboxes, pages, programs, files,
-- the screen and strings, and the tool that makes the image of its card.
--
-- The program. Two cores run processes; a process gives its core up in `do_scheduler`
-- (kernel/sched/sched.c), which first wakes sleepers (kernel/sched/time.c), puts the running process
-- back into the ready queue and takes the first one that its mask allows on this core. Every
-- synchronisation object of kernel/locking/lock.c is built on two calls of the scheduler: `do_block`
-- links the running process into a queue and gives the core up, `do_unblock` moves the first process
-- of a queue to the ready queue. The queues are doubly linked rings (include/os/list.h).
--
-- The file system (kernel/fs/fs.c) keeps maps of inodes and blocks, inodes of 128 bytes and blocks of
-- 4096 bytes on the SD card, moves one sector or block at a time through a buffer, and follows paths
-- by cutting them at each '/'. The driver of the network card (drivers/e1000.c) shares two rings of
-- descriptors with it.
--
-- A new process (`do_exec`) takes a free slot, a page table and two stacks, has its program read from
-- the card by the loader (kernel/loader/loader.c), gets its arguments on its stack and contexts from
-- which `switch_to` and the return from an exception (arch/riscv/kernel/entry.S) start it, and goes to
-- the ready queue. The image on the card is made by tools/createimage.c, which leaves the place of each
-- program in the table that the loader searches: `IsImage` is what the two agree on. Processes write to
-- a text of 50 rows (drivers/screen.c), of which the changes are sent to the terminal.
--
-- The files:
--   Prelude            shared names, Boolean tests, lists, arrays as functions, counted loops, ints
--   Kernel             the state: processes, queues, running processes, satp, the lock tables
--   Kernel/Queue       add_queue, del_queue, get_head; Linked: a process is in at most one queue
--   Kernel/Sched       check_sleeping, do_scheduler, do_sleep, do_block, do_unblock; Placed:
--                      no process is in two places; Held: none is lost; Turns: each gets its turn
--   Kernel/Process     do_exit, do_kill, do_waitpid, do_getpid, do_taskset_chg
--   Kernel/Mutexes     spin locks and mutexes; Refine: what a lock promises its users
--   Kernel/Barriers, Kernel/Conditions, Kernel/Mailboxes
--                      the other objects of kernel/locking/lock.c
--   Memory             page tables (include/os/mm.h, arch/riscv/include/pgtable.h): words and entries
--   Memory/Pages       pages and swapping (kernel/mm/mm.c); Memory/Tables: the three-level walks, and
--                      what they write;
--                      Memory/Shared: shared pages and snapshots; Memory/Faults: page faults
--                      (kernel/irq/irq.c); Memory/Bytes: bytes in the memory of words
--   Loader             load_task_img; Loader/Page, Pages: each page when it is loaded; Final: the
--                      pages in the end; Image: the task and its image
--   Creation           the contexts and arguments of a new process; Creation/Calls: do_exec,
--                      do_thread_create, init_pcb; Creation/Frame: what entry.S loads;
--                      Creation/Passing: the arguments; Creation/Ready, Exec, Placed: the new process
--   ImageTool          create_image of tools/createimage.c; ImageTool/Tasks, Placing, Whole: where the
--                      programs are
--   Screen             drivers/screen.c; Screen/Refresh: the terminal; Screen/Scroll, Printing: the text
--   FileSystem         the state of kernel/fs/fs.c and the constants of include/os/fs.h;
--                      FileSystem/Inode, Dentry, Superblock: the fields of its structures
--   FileSystem/Sectors the maps, inodes and blocks on the card; FileSystem/Locate: byte_locate
--   FileSystem/Names   getDir, getSubdir, is_name_illegal; FileSystem/Dentries: directory entries
--   FileSystem/Walk    how a path is followed; FileSystem/Calls: do_mkdir, do_rmdir, do_touch,
--                      do_cat, do_ln, do_rm; FileSystem/Listing: do_ls, do_cd
--   FileSystem/Files   do_fopen, do_fread, do_fwrite, do_fclose, do_lseek
--   FileSystem/Format  do_mkfs, do_statfs
--   Network            the rings of descriptors of the network card (drivers/e1000.c); Network/Ring: the
--                      packets that wait to be sent
--   Links              the pointers of include/os/list.h; Links/Ring: the lists they stand for
--   Strings            libs/string.c, on a memory of bytes
--   Kernel/Tests, Kernel/Mailboxes/Tests, Memory/Tests, Strings/Tests, Links/Tests,
--   FileSystem/Tests, Network/Tests, Loader/Tests, Creation/Tests, ImageTool/Tests, Screen/Tests
--                      the theorems at concrete states
-- A function of the C code has its name here. The state is passed explicitly; the core's number and
-- the value of `get_timer()` are arguments. A process is named by a handle, its index in `pcb`, with
-- 16 and 17 for the idle processes of the two cores. Where the C code follows a wrong pointer, fails
-- an assertion or loops for ever, the result is `none`. A call that gives the core up and goes on
-- after it runs again (`do_mbox_send`, `do_mbox_recv`) is cut at those points: `Wait` says where it
-- goes on. Kernel calls are atomic, as the kernel lock and disabled interrupts make them.
--
-- Bounds and fuel: the loops that empty a queue run on fuel, one more than the queue's length, as
-- each round takes one process out. Arrays have the sizes of the headers. The ints of the locks and
-- mailboxes are unbounded numbers: in C they would wrap after 2 ^ 31 steps.
--
-- The SD card's `sd_read` and `sd_write` are BIOS calls: the record `SdCard` is a parameter of the
-- operations that swap pages. A search for an unused page needs at most one round more than the table
-- has pages; the search of `do_snapshot` runs on the caller's fuel, as the address space bounds it.
--
-- The file system takes the same BIOS calls as the parameter `Card`; `IsCard` says what is relied on: a
-- card is an array of bytes in sectors, a read gives what the last write left. The loops of do_fread
-- and do_fwrite have one round of fuel for each byte, more than they need, as each round moves one
-- byte at least; those that follow a path or compare names run on the caller's fuel, more than the
-- characters of the path. Messages are left out.
--
-- The tables of locks, barriers, conditions and mailboxes are functions of the index. The C code tests no
-- index that a program passes to it against the tables' 16 entries, and neither do the definitions: what
-- is stated of an index of 16 or more is not what the C code does there.
--
-- A process may be in no queue and on no core, when it has exited or never started. That a call puts no
-- process in two places is `IsPlaced`, that it loses none is `KeepsAll` (Kernel/Sched/Held).
--
-- The network card is what answers to the registers: `e1000_transmit-stuck` holds for every card that
-- sends nothing where its head is at its tail. Memory barriers and the flushing of caches are left out.
--
-- Memory is words of 64 bits; the loader and the copies of arguments work on their bytes. The loader's
-- loop over pages has one round for each page of the program's size, the copies of arguments run on the
-- caller's fuel for their lengths. What a kernel function reads from the memory of its caller is an
-- array of bytes of its own. The terminal is the parameter `Terminal`: what is relied on is that a
-- printable character appears where the cursor was moved to; nothing is assumed of CR and ESC, which
-- the kernel also writes into the text. The image tool's input files are given by their
-- program headers and bytes.
--
-- Not modelled: do_taskset_exec and do_process_show, other traps and the table of system calls, the
-- start of the machine, init_task_info, the set-up of the network card and the network calls around its
-- driver, other drivers, and the user library. The formatted output and the driver of the interrupt
-- controller are other projects' code.

pub mod Creation
pub mod FileSystem
pub mod ImageTool
pub mod Kernel
pub mod Links
pub mod Loader
pub mod Memory
pub mod Network
pub mod Prelude
pub mod Screen
pub mod Strings
