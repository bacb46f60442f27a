-- ===== src/Lib.antt =====
-- The operating system projects of HYU-2020-Operating-System: an xv6 kernel with a three-level file
-- block map and a group-commit log (project3/xv6-public) and with a multilevel feedback queue under a
-- stride scheduler (project1/xv6-public).
--
-- The parts and how they meet. A file system call runs between begin_op and end_op of log.c; it reads
-- blocks through the buffer cache, changes them and hands them to log_write; the last end_op commits
-- them to disk. Over that interface fs.c allocates blocks in a bitmap, maps file blocks to disk blocks,
-- keeps inodes on disk and in memory, reads and writes files, and keeps directories in files. Open files
-- and inodes in memory are shared and counted; the last reference to an unlinked file frees its blocks.
-- Pipes are bytes in a ring buffer between any number of processes. The scheduler picks the next process, from
-- timer interrupts, yields, exits and set_cpu_share; fork, exit and wait keep the tree of processes.
--
-- Files and the code they model:
--   Base, Base/Tests, Base/Arrays, Base/Counts
--                                   C tests on integers, arrays, maps with one changed entry, and how
--                                   often a key occurs
--   Block                           struct buf's data as bytes, and the 32-bit words read in it
--   Log                             project3/xv6-public/log.c: write_log, install_trans, write_head,
--                                   read_head, commit, recover_from_log; bwrite of bio.c
--   Log/Represents, Loops, Install, Commit, Atomic, Power, Recovery, Durable
--                                   the abstract disk, and what crashes and commits do to it
--   Log/Header                      the header block, its inverse functions and its 512 bytes
--   Log/Group                       begin_op, end_op, log_write
--   Log/Group/System, Steps, Reach  the system calls of all processes as a step relation
--   Cache, Cache/Lookup, Unique      the buffers of project3/xv6-public/bio.c: bget, brelse
--   Files, Files/Calls, Counted     filealloc, filedup, fileclose of project3/xv6-public/file.c
--   Pipe                            project3/xv6-public/pipe.c
--   Pipe/Fifo, Write, Read          the pipe as a queue, and what one run of a call does to it
--   Pipe/Runs, Stream, Wakeups      runs of all calls in any order, the stream that arrives, and who
--                                   sleeps on the two channels
--   Fs, Fs/Bits                     transactions with panics, and the bits of a bitmap block
--   Fs/Bitmap                       balloc, bzero, bfree of project3/xv6-public/fs.c
--   Fs/Bmap                         bmap of project3/xv6-public/fs.c
--   Fs/Dinode                       ialloc, iupdate and ilock of project3/xv6-public/fs.c, with Halves,
--                                   Coding for the layout on disk, Update and Alloc for the calls
--   Fs/Data                         readi, writei and stati of project3/xv6-public/fs.c, with Slices,
--                                   Extent and Overwrite for their loops, Calls for the calls, and
--                                   Single for files of one block
--   Fs/Truncate                     itrunc and iput of project3/xv6-public/fs.c: Blocks is the list
--                                   of a file's blocks, FreeAll frees a list, Walk and Roots are the
--                                   loops, Calls is itrunc and Put is iput
--   Fs/Dir                          dirlookup and dirlink of project3/xv6-public/fs.c: Names for the
--                                   strings, Lookup and Search for the searches, Link for the calls
--   Fs/Icache                       iget, idup and the count of iput in project3/xv6-public/fs.c: Slots
--                                   for the search, Held and Kept for the references, Reach for all
--                                   calls in any order
--   Fs/Path                         skipelem of project3/xv6-public/fs.c
--   Kalloc, Kalloc/Owned            kfree, kalloc and freerange of project3/xv6-public/kalloc.c
--   Process                         fork, exit, wait, sleep, wakeup and kill of
--                                   project1/xv6-public/proc.c, on the process table
--   Process/Relate, Passed, Exit, Replace, Wait, Reach
--                                   who is whose parent, call by call and for all calls in any order
--   Sched, Sched/Choose             project1/xv6-public/proc.c and the timer part of trap.c
--   Sched/Shares                    the stride table: Change, Grant, Exit and Round for its operations,
--                                   Frame for what leaves it alone, Reach for all calls in any order
--
-- State and operations. The cache is a function from block numbers to data, and the platter another
-- one; a disk write is atomic, and a power budget says how many complete before the power fails, so
-- that a run ends as `running` or as `crashed` with the platter that is left. A panic is `none`. The
-- kernel's `int` and `uint` are natural numbers below 2 ^ 32, with the wrap-around written out, and
-- signed comparisons are on bit patterns. A function models a call's run under its lock; a call that
-- sleeps returns what it has still to do, and its next run is another application. Interleavings are
-- sequences of steps of an indexed data type.
--
-- Bounds and fuel. Loops over a list or a count are structural. balloc's outer loop has fuel for one
-- round more than there are full bitmap blocks below sb.size, which is enough since each round moves
-- b by 4096. readi and writei have fuel for each byte, the searches of directories for each entry, and
-- freerange for each page. MAXOPBLOCKS is 40 and LOGSIZE 120, as in param.h. MAXFILE is
-- 10 + 128 + 16384 + 2097152.
--
-- The scheduler's model has one CPU, and so one virtual process in the stride table; its queues and that
-- table are lists, which the 64 entries of the arrays do not bound. The test of set_cpu_share is a step
-- of its own, since the code makes it before it takes the lock. A block of the model is a function from
-- byte offsets; the code's block is its first 512 bytes, and the header's 120 entries lie in them.
--
-- Not modelled: lock words, interrupts and sleep locks, path walks, page tables, devices, user programs,
-- and the threads of project2. The log reads the buffer cache as a map from block numbers to data; Cache
-- models apart which buffer holds which block. Of a free page only the pointer in it is kept. fork and
-- exit are on the process table only, without memory and files. A power failure tears no disk write.
pub mod Base
pub mod Block
pub mod Log
pub mod Cache
pub mod Files
pub mod Pipe
pub mod Kalloc
pub mod Process
pub mod Fs
pub mod Sched
