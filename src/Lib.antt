-- ===== src/Lib.antt =====
-- Operating-System-Basics: small C programs of an operating systems course, each in a folder of its
-- own. This development models their own logic and proves what they compute.
--
-- "Disk Scheduling" (Disk.antt, Disk/): disksim.c reads a trace of cylinders (`read_config`,
-- Disk/Trace), and serves it by six policies one after the other (`fcfs_tick`, `sstf_tick`,
-- `scan_tick`, `cscan_tick`, `look_tick`, `clook_tick`, Disk.antt), each of which builds a queue,
-- sorts it with a comparator, adds up the distances and prints a line. An `int` is an integer;
-- Disk/Bounds shows that the sums fit. What `rand()` returns is an argument of each policy. Not
-- modelled: the command line of `main`, and opening the files.
--
-- "Cpu Scheduling" (Cpu.antt, Cpu/): schedsim.c reads a workload (`read_config`, Cpu/Workload),
-- lets a policy (`fcfs_tick`, `sjf_tick`, `stcf_tick`, Cpu.antt) move processes from the source
-- queue into the run queue, and prints a time line and a table of waiting and turnaround times
-- (`run_simulator`, Cpu/Report). The rows of the table go through the block `output`, for which
-- `read_config` asks; an access outside of it has the result `none`. The outer loop of a policy
-- recurs on the rounds that are left, which `span` gives. A store through a pointer into a list is
-- a store at the position of the entry. Not modelled: the command line of `main`, `setup_options`
-- (empty) and the unused `print_rq`.
--
-- MCGrep (Grep.antt, Grep/): mcgrep.c cuts a file into a chunk for each thread (`parse`,
-- Grep/Chunks), each thread searches its chunk line by line (`grep`, Grep/Lines, Grep/Search), and
-- `main` joins the threads and puts their outputs one after the other (`wrap_to_stdout`,
-- `wrap_to_file`, Grep/Joined). A file is a sequence of bytes, found by its number. Grep/Threads
-- interleaves the rounds of the threads by a schedule. `parse` has fuel, of which one more than the
-- bytes of the file is enough; `running` is that it has not ended, and `undefined` that an `int`
-- overflows. What `fprintf` writes for a format is a parameter. Not modelled: system calls that
-- fail, and the names of files, which `snprintf` cuts from number 100000 on.
--
-- "Efficient Mallocs" (Malloc.antt, Malloc/, Driver.antt, Driver/): memlib.c is the heap that can
-- only grow (Malloc.antt, Malloc/Brk); mm-original.c only moves the break (Malloc/Original);
-- mm_freeList.c allocates from a doubly linked list of free blocks in it (Malloc/FreeList:
-- `mm_init`, `mm_malloc`, `mm_free`, `mm_realloc`, `mm_check` and what they call). A heap has a
-- word for each address, since the code reads and writes aligned words only; sizes and the break
-- wrap at 2^32, and `mem_sbrk` takes the pattern of an `int`. A sound heap (FreeList/Whole) ends
-- 2^27 bytes below the last address, and requests are smaller, so that the break does not wrap. The
-- search of the free list has fuel, of which one more than the blocks is enough. mdriver.c checks
-- an allocator on a trace (Driver.antt: `add_range`, `remove_range`, `eval_mm_valid`) and counts
-- its payloads (Driver/Util: `eval_mm_util`, up to its last division; Driver/Peak). It reads a
-- trace from the bytes of a file (Driver/Trace: `read_trace`; the loop has fuel, of which one more
-- than the lines is enough), and runs it without checks (`eval_mm_speed`, `eval_libc_valid`,
-- `eval_libc_speed`), where the allocator and its bytes are the fields of a record. Driver/Session
-- fills it with mm_freeList.c, whose searches have the bytes below the break as their fuel; what
-- `memset` does to the words of the heap is a parameter with the law that it writes none outside of
-- its range. Driver/Pairs and Driver/Run follow a trace. mm_seggregatedLists.c has a list of free
-- blocks for each power of two (Malloc/Segregated). Its functions may load and store at any
-- address, so they are commands that can end in a fault (Malloc/Run); which addresses can be
-- accessed, and what the two variables of its `coalesce` hold that are never set, are parameters.
-- Its walks along a list have fuel. Malloc/FreeList also has the blocks of the heap as a list of
-- tiles, from the prologue to the epilogue, and what each operation does with them (FreeList/Tiles
-- to FreeList/Live). Not modelled: `main` of mdriver.c with its options and its printing, the
-- timing helpers, and test.c.
--
-- "Simple XSSHell" (Shell.antt, Shell/): xssh.c reads lines, splits them into words (`token_loop`),
-- replaces each word by a variable (`get_val`) and runs a command of its own or another program
-- (`run_internal`, `run_external`, Shell/Commands); xssh.h keeps the variables (Shell/Table) in a
-- hash table, whose library is a parameter. `Shell.Reference` fills it by a list. What the system
-- calls return is a record of parameters, and the state lists what the shell did to the world. What
-- the array of arguments held before is a parameter, `stale`. The length of a line is enough fuel
-- for its words (Shell/Words). `main` up to its loop is in Shell/Options; what `getopt` returns is
-- a parameter, and so is what lies in memory past the end of `argv`. Not modelled: the prompt,
-- words that are too long for their buffers, the signal handler, and the child after a failed
-- `execvp`.
--
-- Both simulators keep their queues in list.h, the Linux list library, a copy of which lies in each
-- folder. It is a parameter (LinkedList.antt): its calls are fields of a record whose laws state
-- what the library documents, on the sequence of entries that a list head stands for.
-- `LinkedList.Reference` fills it by lists with an insertion sort. Memory that `malloc` returns
-- holds an arbitrary value, `fresh`, in the fields that the code does not set.
pub mod Base
pub mod LinkedList
pub mod Disk
pub mod Cpu
pub mod Grep
pub mod Malloc
pub mod Driver
pub mod Shell
