-- ===== src/Lib.antt =====
-- NorthOS is a teaching kernel for x86, an xv6 with a window manager. This library models the parts
-- of the kernel that keep state behind locks, as definitions that can be run, with the theorems that
-- make them correct.
--
-- Prelude holds what the parts share: Boolean tests on numbers, lists as C arrays, signed integers.
--
-- Log (kernel/log.c): the redo log of the file system, which groups the block writes of its system
-- calls so that a power failure keeps all or none of them. Log.antt has the state, with the disk and
-- the buffer cache (kernel/bio.c) as functions from block numbers, and the copying to and from the
-- log; each block write costs one unit of power, and a write without power does not reach the disk, so
-- that a failure may fall between any two writes. Log/Ops is the sharing of the log's space by
-- begin_op, log_write and end_op, which are steps of the operations under way. Log/Header, WriteLog,
-- Install and Recovery prove what each phase does to the disk; Log/Crash joins them.
--
-- Fs (kernel/fs.c): the file system above the log. Fs/Bitmap is the allocation of blocks, with the free
-- map as its bits; Fs/File is bmap, readi and writei on a locked inode; Fs/Inodes the inode cache, with
-- iget, iput and what they call; Fs/Dir the entries of directories, with strncmp and strncpy of
-- kernel/string.c; Fs/Path the names of namex. A block is seen as its bytes and as its words, the buffers
-- at the level of contents, as in Log; the functions of devices (devsw) are a parameter. A panic is none
-- of an Option. The theorems on the content of a file stop before the double-indirect blocks, whose
-- address lies behind the end of struct inode. The loops over a file's blocks take one round for each
-- byte as fuel, those over a directory one for each byte of it, and namex one for each character of the
-- path and one more, which is enough since each round moves on.
--
-- Files (kernel/file.c): the table of open files, with fileread and filewrite on pipes (Pipe) and on inodes
-- (Fs). The rounds of filewrite take the bytes left as fuel, since each writes one at least.
--
-- User: the matcher of kernel/grep.c, and of the user library (user/ulib.c, user/printf.c) strings,
-- numbers and printf. User/Sh is the parser of the shell (user/sh.c), User/Sh/Grammar a grammar of command
-- lines apart from it. The parser's calls take four units of fuel for each character, since four calls at
-- most are made before one is taken. User/InputField is the
-- input field of the widgets (user/user_handler.c). A C string is the list of its characters.
--
-- Pipe (kernel/pipe.c): the ring of bytes, with counters that wrap at 2 ^ 32 as in the code. Pipe.antt
-- has the operations, Pipe/Window the bytes that are in the pipe, Pipe/Transfer one call of pipewrite
-- or piperead, Pipe/Stream a writer and a reader that call, sleep and are woken (kernel/proc.c,
-- wakeup1) in any order.
--
-- Bio (kernel/bio.c): the buffers of the disk cache on a circular list, with binit, bget and brelse.
-- Bio/Ring has the links, Bio/Cache compares bget and brelse with the list of buffers in the order of the
-- ring, Bio/Cache/Start has the ring that binit leaves and Bio/Cache/Gets the buffer bget returns. A walk
-- takes one round more than there are buffers as fuel.
--
-- Console (kernel/console.c): the ring of input characters, with counters that wrap at 2 ^ 32.
-- Console.antt has consoleintr and consoleread, Console/Editor a line editor on lists without a ring,
-- which Console/Refine and Console/Reading compare with it. Erasing a line takes 128 rounds as fuel, the
-- size of the ring.
--
-- Mouse (kernel/mouse.c): the bytes of mouseintr as packets, and the packets as messages, which
-- wmHandleMessage takes.
--
-- Wm (kernel/window_manager.c): Wm/WindowList is the doubly linked list of windows, Wm/MessageQueue
-- the ring of messages of each window, Wm/State and Wm/Handler the function wmHandleMessage with all
-- its cases. Wm/Screen draws what updateScreen shows, with the routines of Gui.
--
-- Gui (kernel/gui.c): the pixels of all buffers are one memory, and a routine is a function on it. Gui.antt
-- has points, rectangles and the pointer, Gui/Pictures characters, icons, images and borders. Gui/Loops and
-- Gui/Grid say which pixels loops over rows and columns change, Gui/Within and the files after it that a
-- routine stays in its buffer. The font and the icons are arguments.
--
-- Proc (kernel/proc.c): the table of processes, with fork, exit, wait, sleep, wakeup1, kill and the
-- scheduler's changes as functions on it, each what happens under ptable.lock. Proc/Loops and
-- Proc/Waits say what the loops do, Proc/Invariant/Reach lets the operations follow one another in any
-- order. Address spaces, registers and open files are left out of a process.
--
-- Memory (kernel/string.c): memmove, memcmp and safestrcpy on a memory that is a function from
-- addresses to bytes; addresses do not wrap.
--
-- PageAllocator (kernel/kalloc.c): kfree and kalloc on the list that links the free pages.
--
-- Loops over arrays recurse on the rounds left. The walks of the window list take rounds as fuel: the
-- handler and updateScreen give one more than there are window slots, which a linked list of windows does
-- not use up; where updateScreen runs out of them its result is never_ends. The parser's fuel grows with
-- the line, and a run without fuel is stuck. The log may be of any size; the one that mkfs.c makes has
-- LOGSIZE blocks, its header among them.
-- Locks are left out: each function runs from acquire to release, or to sleep, as one step. Signed
-- integers do not wrap; the counters of the pipe and of the console, the ticks of the mouse and the
-- numbers of printf and atoi are 32-bit words.
--
-- Not modelled: device drivers, start-up and assembly, and most user programs, whose results
-- are pixels and I/O; the font and icon data, and the tool that builds the disk image.
pub mod Prelude
pub mod Log
pub mod Pipe
pub mod Wm
pub mod Proc
pub mod Memory
pub mod PageAllocator
pub mod Fs
pub mod User
pub mod Files
pub mod Console
pub mod Mouse
pub mod Gui
pub mod Bio
