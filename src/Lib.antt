-- ===== src/Lib.antt =====
-- The xv6 kernel of this repository (xv6-public), with its users and file permissions: what its parts
-- do, as functions on the state that they keep, and what holds of them.
--
-- The parts, and how they meet:
--   * Kernel: how a routine ends: it returns with a new state, it goes to sleep, or it panics. A lock
--     that is held makes a stretch of code one step; a routine that sleeps is one round of its loop.
--   * CString: xv6-public/string.c, with memory as a function of the address. The user table copies
--     and compares its names with it.
--   * SleepLock, SpinLock: xv6-public/sleeplock.c and spinlock.c. `SpinLock.Cpu` has the interrupt flag
--     and the count of `pushcli`.
--   * Users: xv6-public/usermanage.c. `Users.Users` is the table, `next_uid`, the lock and the file
--     /passwd; Users.Ops has its routines under their names in C. The inode and log routines that they
--     call are the interface `FileOps`, with its laws in `Users.Store.FileLaws`; Users.Volume and
--     Users.Volume.Laws fill it with Fs.File, Log.Ops and SleepLock, for a /passwd with contents.
--   * Proc: xv6-public/proc.c and proc.h. The table is a function of the index; Proc.Ops and Proc.Exit
--     have the routines, and Proc.Reach the steps of a system of processes, with `fork` and `exit` in
--     the parts that hold ptable.lock or do not. `nextpid` is its 32 bits. The allocators, page
--     tables and files that `fork`, `exit` and `wait` call are the interface `ProcOps`.
--   * Log: xv6-public/log.c. A machine that stops is a number of block writes, `power`, after which
--     writes no longer reach the disk; `boot` starts from the disk that is left. Log.Ops has
--     `begin_op`, `log_write` and `end_op`.
--   * Pipe: xv6-public/pipe.c, with counters modulo 2^32. FileTable: the reference counts of
--     xv6-public/file.c, which decide when a pipe or inode is let go.
--   * Kalloc: xv6-public/kalloc.c. SysArg: the readers of arguments in xv6-public/syscall.c.
--     SysProc: xv6-public/sysproc.c.
--   * Permission: the checks of xv6-public/fs.c, and `sys_chmod` and `sys_open` of
--     xv6-public/sysfile.c behind the path lookup. PathName: `skipelem` of xv6-public/fs.c.
--   * Bcache: `bget` and `brelse` of xv6-public/bio.c, over the list of buffers.
--   * Fs: xv6-public/fs.c, over a disk that is what `bread` gives for each block. Fs.Alloc has the
--     bitmap, Fs.File the contents of an inode (`bmap`, `readi`, `writei`, `itrunc`), Fs.Inode the
--     cache of inodes, Fs.Dir the directories, Fs.Path `ialloc` and `namex`. A file is sound if its
--     blocks are in use, each of them once. The blocks that the routines write are taken by the cache
--     at once: when `log_write` panics instead is in Log.Ops, and the theorems on `writei` are for the
--     bytes that `filewrite` of xv6-public/file.c gives it in one transaction (1536).
--   * Matcher: xv6-public/grep.c. UserLib: xv6-public/ulib.c.
--   * Tests: the theorems at concrete inputs.
--
-- Bounds and fuel: `strlen` and its like stop after a bound that stands for the size of the buffer, and
-- return none if it has no NUL; a theorem says when the bound is enough. Loops over tables run as many
-- rounds as the table has entries (NPROC 64, NUSER 10, NFILE 100). `freerange` has a round for each
-- page below the end of the memory. `readi` and `writei` have a round for each byte and one more,
-- `balloc` for each block of the bitmap, `dirlookup` for each byte of the directory, `namex` for each
-- character of the path. Other loops recur on their list or count.
--
-- Not modelled: the panic of `log_write` as a part of the routines of fs.c that call it (Log.Ops has it
-- by itself); the file system calls of xv6-public/sysfile.c but for their checks of permissions; the
-- disk driver; page tables and program loading; traps; devices and start-up; the shell and the test
-- programs.
pub mod Base
pub mod Kernel
pub mod Bcache
pub mod CString
pub mod SleepLock
pub mod SpinLock
pub mod Users
pub mod Proc
pub mod Log
pub mod Pipe
pub mod FileTable
pub mod SysArg
pub mod Kalloc
pub mod Permission
pub mod Matcher
pub mod UserLib
pub mod PathName
pub mod SysProc
pub mod Fs
pub mod Tests
