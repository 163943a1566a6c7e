-- ===== src/Lib.antt =====
-- The xv6 kernel of this repository: what its core promises, and that its code keeps it.
--
-- Disk        what bio.c is to callers to whom it returns: the data of a block's buffer, the disk, B_DIRTY. Its panic where no
--             buffer can be recycled is in `Buffers` alone. The store lists every disk that it has held, so a crash is any element of that history.
-- Buffers     bio.c: `bcache` with the links of its list as functions on indices, and every function under its own name. A turn of `bget` or
--             `bread` ends where it sleeps. `Buffers.View` says for which `Store` of `Disk` a cache stands.
-- Log         log.c: `struct log` is `Log`, every function has its own name there, `end_op` is `leave_op`
--             and `finish_commit`. A header with more than LOGSIZE sectors, with which
--             `read_head` leaves its array, is an error value. `Log.Operations` is the step relation of operations that run
--             beside one another between `begin_op` and `end_op`.
-- Fs          fs.c, over the log: `Fs` holds the log, the buffers and `icache.inode`, and every function has its own name.
--             `Fs.Inodes` is the cache of inodes with `Trunc` for their blocks, `Fs.Content` reads and writes
--             them, `Fs.Directories` and `Fs.Paths` look names up. Loops on fuel: the contents move a byte at least in a round, a
--             directory has fewer entries than bytes, and a path loses a byte with each element.
-- Pipe        pipe.c: a turn of `pipewrite` or `piperead` runs from `acquire` or from a return of `sleep` to
--             the next `sleep` or to the last `release`. `Pipe.Stream` interleaves the turns of a writer and a
--             reader; `Chan` stands for the two addresses that they sleep on.
-- Proc        proc.c: the table, with indices for the pointers into it; every function has its own name, and the parts
--             that `ptable.lock` makes atomic are functions of their own (`leave_table` of `exit`, whose calls before it are
--             the list `exit_calls`, `fork_into` of
--             `fork`, `wait` a turn). What proc.c calls elsewhere is the record `Services`. `Proc.Reach` is the
--             step relation of the table with all processors.
-- Pages       kalloc.c: `kmem`, and the pages by words, since the links of the free list stand in the pages.
--             `Pages.Owners` is the step relation of memory given to the allocator and of pages handed out, written and given back;
--             `end` of the linker script is the parameter `kernel_end`.
-- Vm          vm.c over the pages of `Pages`: every function on page tables has its own name, those of the user's part in `Vm.User`. `Vm.Space` says
--             what a directory with its tables is, `Vm.Map` and `Vm.Setup` what is mapped. `Vm.Alloc` gives a process pages,
--             `Vm.Dealloc` takes them back, `Vm.Release` frees all, `Vm.Child` copies them, and `Vm.Sbrk` puts these together. `Vm.Process` is `growproc`, `Vm.Exec` is exec.c, and `Vm.Launch` is `sys_exec`.
--             The address `data` of the linker script is the parameter `kernel_data`.
-- Memory      string.c over the bytes of memory. Addresses are numbers, and no range wraps around.
-- Calls       syscall.c and `sys_trace` of sysproc.c: the arguments fetched from the memory of a process, and the
--             dispatch, whose handlers are a parameter.
-- Traps       trap.c: `trap` over the state of the kernel, with what it calls as a record.
-- Files       file.c: the table of open files, with indices for the pointers into it; `fileclose` is the part under the
--             lock, and `give_up` what follows it. `Files.Counts` is the step relation of references.
--             `Files.Io` reads and writes files over the inodes, `Files.Pipes` is `pipealloc`, and
--             `Files.Descriptors` has the descriptors of sysfile.c, `Files.Links` and `Files.Create` its calls on paths, and `Files.Handlers` others of its calls.
-- Spin        spinlock.c: what a processor does at once is a step, so the `xchg` of `acquire` and the writes before and after it are
--             functions of their own. `Spin.Steps` interleaves the steps of all processors at one lock with their calls of `pushcli` for others.
-- Console     console.c: `input` with `consoleintr` and the loop of `consoleread`, a turn of which ends where it sleeps. `Console.Lines` reads the
--             buffer as ready bytes and a line, `Console.Editor` and `Console.Reader` are the two sides, and
--             `Console.Calls` puts calls of both in any order. The loop for `C('U')` has fuel for a full buffer, which its theorem shows to be enough.
-- Grep        the matcher of grep.c, over strings as lists of bytes. `Grep.Language` says what a pattern means.
-- User        printf.c and ulib.c, with output and input as lists of bytes, and the counting of wc.c.
-- Prelude     numbers, lists, arrays as functions, counted loops, panics as values.
--
-- A spinlock is not a field of a model: what runs between `acquire` and `release` is one step. A panic is
-- a value, `panic` with its message. A word is a natural number, and the wrap of an unsigned counter is
-- written out. Loops are structural or counted; the loop of `printint` runs over the 16 bytes of its buffer,
-- which its theorem shows to be enough.
--
-- Not modelled: the boot code, device drivers, and most user programs.
pub mod Buffers
pub mod Calls
pub mod Console
pub mod Disk
pub mod Files
pub mod Fs
pub mod Grep
pub mod Log
pub mod Memory
pub mod Pages
pub mod Pipe
pub mod Prelude
pub mod Proc
pub mod Spin
pub mod Traps
pub mod User
pub mod Vm
