-- ===== src/Lib.antt =====
-- The xv6 kernel of xv6-public/, as definitions translated from its C and theorems about them.
-- Functions have the names of the C functions and numbers are the native ℕ, with the wrap of a
-- uint or an int written out where the code can reach it; reference counts and the addresses in
-- string.c stay below it. A critical section is one step of a component, and a caller that sleeps
-- is a result of its call.
--
-- Prelude: names, tests on numbers, lists and updates of functions that the modules share.
-- Disk: a block of BSIZE bytes and the words in it.
-- Log: xv6-public/log.c, the write-ahead log (begin_op, end_op, log_write, commit,
--   recover_from_log), over a disk that loses power after any number of writes. Log/Rules has the
--   rules for its run monad, Head the header on the disk, Recover and Reboot the recovery, Commit
--   and Crash the commit, Absorb log_write, Effects and Reserve the calls that share a log. The
--   disk is read and written without the cache of bio.c.
-- Pipe: xv6-public/pipe.c, the byte ring between a writer and readers. Pipe/Ring reads it as a
--   queue, Transfer has the runs of pipewrite and piperead, History their interleavings.
-- Spinlock: xv6-public/spinlock.c, a lock between processors that each take one read, write or
--   xchg at a time (Agreement, Steps, Exclusion), and the nesting of pushcli and popcli (Nesting).
--   The other parts take what stands between acquire and release as one step.
-- Fs: xv6-public/fs.c, the file system over the blocks that a transaction sees, where a log_write
--   is a change of one block: what Log shows of a log_write in a transaction with room. Its panics
--   outside a transaction and for a full log are not in Fs, so that writei is bounded by the bytes
--   that filewrite passes. Fs/Bitmap has balloc and bfree (Map, Alloc, Taking, Free), Dinode iupdate and
--   the reading half of ilock, Content bmap, itrunc, readi and writei (Data, Laid and Growth say how
--   a file lies on the disk, Mapping, Reading, Writing, Rounds and Storing what the calls do to it),
--   Icache iget, idup, ilock, iunlock, iput and ialloc (Lookup, Sharing), Directory dirlookup and
--   dirlink, Path skipelem and namex. Rules has the rule for its run monad: a run ends with a
--   result, or because balloc panicked for lack of blocks; other panics, a sleep in ilock and a lack
--   of fuel are ends of their own. balloc has a round for each block of the map and one more, readi
--   and writei have one for each byte, a directory's loops one for each byte of it, namex one for
--   each character of the path, and each loop gets at least that far in a round. The device
--   functions of devsw are a parameter.
-- File: xv6-public/file.c, the file table (filealloc, filedup, fileclose). File/Counts has the
--   references that the kernel holds, Sharing what happens to them; File/Transfer has filestat,
--   fileread and filewrite on top of Pipe and Fs, with one round of filewrite's loop for each byte
--   as fuel.
-- Strings: xv6-public/string.c, memmove, memcmp, strncmp, strncpy and safestrcpy (Moves, Compares,
--   Copies).
-- Kalloc: xv6-public/kalloc.c, the page allocator, over byte memory that holds the free list.
--   Kalloc/Chain reads the list, Owners has the parts of the kernel that use pages, Range is
--   freerange. The loop of freerange has as fuel one more round than there are pages between its
--   ends.
-- Bio: xv6-public/bio.c, the cache of disk blocks, over the disk of xv6-public/memide.c. Bio/Chain
--   has doubly linked lists, Ring the list of bufs in the order of their use, Scans the loops of
--   bget, Getting bget, Reading bread, bwrite and brelse, and ReadBack the three together. The scans
--   have as fuel one more round than there are bufs.
-- Vm: xv6-public/vm.c and mmu.h, page directories and tables in the memory of Kalloc. Vm/Words has
--   the words of memory, Tables how a directory lies in it, Walks walkpgdir, Mappings mappages and
--   Spaces the rest, from setupkvm to copyout. The loops have as fuel the pages of the range, and
--   one round more, and copyout one for each byte.
-- Console: xv6-public/console.c, the keyboard's buffer and printint. Console/Ring reads the buffer
--   as the characters that are ready and the line that is edited, Erasing, Storing and Editing have
--   consoleintr, Lines consoleread and Numbers printint. kill_line has as fuel the length of the
--   line, printint 32 digits.
-- Proc: xv6-public/proc.c, the process table, with a fixed array of NPROC slots. Proc/Services
--   lists what its functions call in kalloc.c, vm.c, file.c and fs.c, as a parameter; Proc/Loops
--   has the loops over the table; Proc/Life has allocproc, fork, exit and wait, with one module
--   for each and, in Steps, Family, Keeps and NoLost, their interleavings. allocproc is two
--   steps, since it gets the stack behind the lock, and fork is one more: other processes run in
--   between. exit's release of files and
--   of the directory comes before its step on the table.
-- Syscall: xv6-public/syscall.c, the fetching of arguments (Arguments) and the dispatch, whose
--   handlers are a parameter.
-- Shell: the parser of xv6-public/sh.c. Shell/Tokens has the tokens, Grammar the trees of command
--   lines with their text and their commands, Parsing redirections and arguments, Trees the parse of
--   a text, and Endings the end of the parser on every line. A line has as fuel one round more than
--   it has characters.
-- Grep: xv6-public/grep.c, the matcher of regular expressions, and in Grep/Language the language
--   of an expression.
--
-- Not modelled: iinit of fs.c, which prints; loaduvm, and the loading of segments and page tables
-- into registers; the handlers of system calls; runcmd of the shell, and the other user programs;
-- the drivers and the boot code, which work on device registers, and with them the screen behind
-- consputc; the context switch; the interleavings inside a critical section.
pub mod Prelude
pub mod Disk
pub mod Log
pub mod Pipe
pub mod Spinlock
pub mod Fs
pub mod File
pub mod Strings
pub mod Kalloc
pub mod Bio
pub mod Vm
pub mod Console
pub mod Proc
pub mod Syscall
pub mod Grep
pub mod Shell
