-- ===== src/Lib.antt =====
-- A verification library for the operating system under operating_system_engineering/labs: the
-- xv6 kernel for RISC-V (kernel/) and its user programs (user/).
--
-- The parts, each in a file with the program's definitions and child modules with the proofs:
--   * Str: kernel/string.c, over the byte memory of Memory. Kalloc fills its pages with its
--     `memset`; the other routines serve paths, directory entries and process names.
--   * Disk: what kernel/log.c sees of the buffer cache (kernel/bio.c) and of the disk driver: for
--     each block number the contents on the disk and in the cache, the pins, and a number `power`
--     of disk writes that the machine still makes. A write beyond it is lost, so a crash may stand
--     before any disk write; `reboot` keeps the disk and drops the cache. A disk write is atomic.
--   * Bio: kernel/bio.c itself: the list of buffers in the order of their last use, with reference
--     counts and sleep locks. Bio/Held has the kernel's use of it as steps.
--   * Spinlock: kernel/spinlock.c. Spinlock/Exclude interleaves any number of processors at their
--     accesses to one lock.
--   * Sleeplock: kernel/sleeplock.c. Sleeplock/Guard has the processes that use one lock, with those that
--     sleep on it. Bio and Fs/Table have the fields of their locks in their own models.
--   * Log: kernel/log.c, on Disk. `read_head`, `write_head`, `install_trans`, `write_log`,
--     `recover_from_log`, `initlog`, `commit`, `begin_op`, `end_op` and `log_write` keep their
--     names; `end_op` is two functions, since its lock is given up before `commit`. `Log` is
--     `struct log` with the header's `n` and `block` as one list. Log/Commit and Log/Crash are about
--     crashes, Log/Reserve is about the log space that operations reserve, as a step relation in
--     which operations begin, write, end and commit in any order.
--   * Pipe: kernel/pipe.c. Readers and writers interleave where the pipe's lock is given up;
--     Pipe/Fifo has the runs between these points in any order.
--   * Kalloc: kernel/kalloc.c, with the free list in the bytes of the free pages.
--   * Vm: kernel/vm.c, on the memory of Kalloc. `walk`, `mappages`, `uvmunmap` and the others keep their
--     names; Vm/User has the memory of a process (`uvmalloc`, `uvmcopy`, `uvmfree`) and Vm/Copy the
--     copying to and from it. Vm/Tree has the tables that a root leads to.
--   * FileTable: the reference counts of kernel/file.c, which a process's descriptors share.
--   * Descriptor: the descriptors of a process in kernel/sysfile.c (`argfd`, `fdalloc`, `sys_dup`,
--     `sys_close`, `sys_pipe`) with `pipealloc` of kernel/pipe.c, over FileTable. Descriptor/Counts has the
--     descriptors as the references that the table counts.
--   * PathName: `skipelem` of kernel/fs.c, with `memmove` from Str.
--   * Fs: the lowest layer of kernel/fs.c, on Disk and Log: the bitmap of used blocks (`balloc`,
--     `bfree`), the blocks of an inode (`bmap`, `itrunc`) and its record on the disk (`iupdate`).
--     Fs/Table is the table of inodes in memory (`iget`, `idup`, `ilock`, `iunlock`, `iput`) with
--     `ialloc`, and Fs/Table/Keep has the kernel's use of it as steps.
--   * Console: kernel/console.c: the input buffer, where interrupts edit the line that is being
--     typed and readers take the lines that are complete.
--   * Uart: kernel/uart.c: the buffer of bytes that wait for the device, which writers fill and interrupts
--     empty. Its interrupt handler hands what was typed to Console.
--   * Print: how kernel/printf.c and user/printf.c print a number (`printint`, `printptr`), and their
--     loops over the format (`printf`, `vprintf`) as the calls that these make.
--   * Ulib: the routines of user/ulib.c, with the copying loops of Str.
--   * Proc: kernel/proc.c: the process table and the calls that create, reparent, wake, kill and
--     reap processes.
--   * Grep: the matcher of user/grep.c, which Grep/Language compares with a grammar of the matches.
--   * WordCount: the counting of user/wc.c.
--   * Card: hardware_software_interface/Practicals/encoding/card_encoding.c, an exercise of the course
--     beside it.
--   * Base: the names from the libraries that all the parts use, Boolean tests on numbers, lists
--     over the native numbers, and the type of results that may stop the machine.
--
-- Conventions. A number is a natural number, and a w-bit integer's wrap-around is written out, but for
-- `nextpid` of kernel/proc.c, which grows without bound. A
-- `panic` is a result. A lock's critical section is one function. What sleeps returns, in a
-- state that says so, and is called again. Vm models `copyin` and `copyout`; pipes, the console and
-- `sys_pipe`, which only pass on what they get, have their results as arguments. Loops run on the rounds that are left to go, or on the list they
-- walk. The pointer loops of `strlen`, `skipelem` and user/ulib.c and the loops over a format,
-- which nothing counts, have fuel, more of it than the text has bytes. The loop over a number's
-- digits has fuel for as many as the number's type holds, and `atoi` one more than the digits it
-- reads. `freerange` gets its number of rounds from its bounds, and
-- `copyin` and `copyout` have one more than there are bytes, since each round copies at least one.
-- `uartstart` has more than its buffer holds bytes.
--
-- Not modelled: assembly, devices and traps; the rest of kernel/fs.c, `readi` and
-- `writei`, directories and path names beyond one element, and what stands on it (reading and
-- writing of kernel/file.c, the rest of kernel/sysfile.c, kernel/exec.c); the setting up of
-- the kernel's page table in kernel/vm.c; `uartputc_sync`; the user programs but grep's matcher and
-- wc's counting; mkfs; and outside of operating_system_engineering/labs the other exercises, the notes'
-- site and its theme.
pub mod Base
pub mod Memory
pub mod Str
pub mod Disk
pub mod Log
pub mod Pipe
pub mod Kalloc
pub mod Proc
pub mod Grep
pub mod Bio
pub mod Spinlock
pub mod Card
pub mod PathName
pub mod FileTable
pub mod Fs
pub mod Console
pub mod Print
pub mod Ulib
pub mod WordCount
pub mod Vm
pub mod Descriptor
pub mod Uart
pub mod Sleeplock
