-- ===== src/Lib.antt =====
-- Verification library of MyOS, an x86-64 kernel written in C.
--
-- The kernel is a set of components around a table of processes. A process changes its own signal
-- state and its memory by system calls, other processes and the terminal send it signals, and on the
-- way out of the kernel the waiting signals are delivered. Files are reached through the operations
-- of their kind: the model has the pipe and the terminal. Processes refer to open files by
-- descriptors, and several descriptors share one file. Each program has an address space, a list of
-- regions that `mmap`, `munmap` and `sbrk` change. Physical memory is first an array of regions, which
-- the start of the kernel hands over to the page allocator. The addresses of a program are translated by
-- tables in pages of the allocator, which the faults of the program fill.
--
-- Which file models which part:
--
-- Abi: include/myos/abi.h, the numbers of errors and signals.
-- Proc: kernel/proc/process.h and the helpers of kernel/proc/process.c that wake and find
-- processes. A process is a record; its array `sig_actions` is a function of the index.
-- Uaccess: kernel/sys/uaccess.c. The memory of a program is a function from addresses to 64-bit
-- words, and whether a range may be touched (`mm_prefault`) is a function of the memory's record.
-- Structures are copied at addresses that are 8 apart; overlapping copies at addresses that are
-- not a multiple of 8 apart are not described by it.
-- Signal: kernel/proc/signal.c. Masks are 32-bit words; `a & ~b` is `clear`, and Signal/Masks reads
-- them bit by bit. Signal/Frame has the delivery (`setup_frame`, `signal_deliver`) and
-- Signal/Frame/Return the way back (`sys_sigreturn`). The loop of `signal_deliver` has fuel 33:
-- each round takes one of 32 signals from the queue and no round adds one. A stopped
-- process leaves the loop by `stop_by`, and enters it anew when it is continued. Signal/Calls has
-- the system calls, and Signal/Calls/Reach the steps by which they follow one another.
-- Console: kernel/drivers/console.c, the queue of input characters.
-- Tty: kernel/drivers/tty.c. Tty holds the editing of a line (`canon_input`), Tty/Keys the signal
-- keys and the job control of readers, Tty/Read the two modes of `tty_read`, Tty/Settings what
-- `tty_ioctl` sets. Sleeping for a character is an outcome of a read, which starts over when it is
-- woken up. The loop that collects a line takes a queued character each round, and has as fuel
-- their number and one more; the kill loop erases one typed character each round, and has their
-- number.
-- Pipe: kernel/fs/pipe.c. Pipe/Fifo reads the ring as a queue, Pipe/Outcomes has what a write adds
-- and when calls sleep or fail, Pipe/Runs any sequence of calls. Sleeping is an outcome, after
-- which the caller goes on with the pipe it finds. The loop of `pipe_write` has fuel 2, since it
-- copies once and then finds nothing left or the buffer full.
-- Vma: kernel/mm/mm.c. Vma/Find looks up and inserts in the ordered list, Vma/Area is `mm_map`,
-- Vma/Passes the search for a place, Vma/Unmap is `mm_unmap`, Vma/Heap is `mm_sbrk`, Vma/Stack is
-- `grow_stack`. Addresses are 64-bit numbers whose sums and differences wrap around. Whether there
-- is memory for a region is an argument. The search makes another pass only when a region has moved
-- the candidate below itself, and has as fuel the number of regions and one more.
-- Memblock: kernel/mm/memblock.c. Memblock/Reserve follows the free addresses through `reserve`,
-- Memblock/Alloc is `memblock_alloc`. The loop of `reserve` passes each region once, and each part
-- that it appends once, so its fuel is twice the number of regions.
-- Sched: kernel/proc/process.c. Sched/Fair is the choice of the next process, Sched/Family the
-- parents of processes, Sched/Scan and Sched/Wait are `proc_wait`, Sched/ExitWait puts exit and wait
-- together, and Sched/Slots and Sched/Life have the steps on the table. A process is known by its
-- slot.
-- Pmm: kernel/mm/pmm.c. Pmm/Calls holds the calls of the allocator, Pmm/Blocks counts how often the
-- lists cover a page, Pmm/Xor is about the number of a buddy, Pmm/Buddy about one allocation or
-- return in a zone, Pmm/Range about the pages that it touches, Pmm/Pool about both zones,
-- Pmm/Handing is `alloc_pages`, Pmm/Returns is `free_pages`, Pmm/Held the blocks in use, and
-- Pmm/Pages any sequence of calls. The locks of the zones make each call one step. A panic ends the
-- run. `buddy_free` climbs at most ten orders.
-- Vmm: kernel/mm/vmm.c. Vmm/Tree reads the tables that hang together below a root as a tree, in
-- which each page of tables has its place; Vmm/Writes and Vmm/Linking say what an entry that is
-- written does to it, Vmm/Space, Vmm/Tables and Vmm/Links tie it to the page allocator, Vmm/Walk and
-- Vmm/Finding are `vmm_get_pte`, Vmm/Mapping and Vmm/Pages `vmm_map_page`, Vmm/Changes the calls
-- that change an entry, Vmm/Creating a new address space, Vmm/Ranges the test of a range of a
-- program. Memory is read by 64-bit words at physical addresses, which the direct map makes the same
-- as pointers. The walk goes down by recursion on the level. The caches of translations are not
-- described; the model keeps the list of the addresses that are taken out of them.
-- Fault: the page faults of kernel/mm/mm.c, on top of the page tables and the regions. Fault/Taking
-- is the page that the allocator gives, Fault/Entry the entry that is written over, Fault/Outcome
-- what a fault comes to, Fault/Touch the first access to a page, Fault/Copy and Fault/Shared the
-- write to a shared page, Fault/Handling `fault_page`, Fault/Rights `mm_handle_fault`, Fault/Prefault
-- `mm_prefault`. A panic, of `put_page`, is `none`. The loop of `mm_prefault` has as fuel the number
-- of pages that the range can touch.
-- Path: `path_normalize` of kernel/fs/vfs.c. Path/Names describes the components of a path,
-- Path/Stacked and Path/Normal compare the bytes that are written with them, Path/Room is about the
-- size of the buffer. A string is the list of its bytes, and the buffer `out` is kept with its last
-- byte first. Each round of the loop takes a byte of the path at least, and it has as fuel one round
-- more than those.
-- Files: kernel/sys/sys_fs.c and the open files of kernel/fs/vfs.c. Files/Counts counts the
-- descriptors that refer to a file, Files/Valid compares them with its reference count,
-- Files/PipeEnds, Files/Exit and Files/Fork are the longer calls, and Files/Opened has any sequence
-- of calls. An open file is known by its number in a store; `file_alloc` takes a free number as an
-- argument.
-- Libc: user/libc/string.c. Libc/Blocks is about `memcpy` and `memmove`, Libc/Ends about strings
-- that end and the spans of them, Libc/Split about `strtok_r`. A loop that only the end of a string
-- stops has fuel, and returns when there is fuel for each byte; addresses do not wrap around here.
-- Tests: the models on concrete inputs.
--
-- Locks are not modelled: each operation is one step, as the spinlock that it holds makes it. Output
-- to the console and kernel messages are left out, and so are the fields of structures that the
-- modelled code neither reads nor writes. A fixed-width integer is a natural number with its
-- wrap-around written out where the code can reach it.
pub mod Base
pub mod Abi
pub mod Uaccess
pub mod Proc
pub mod Signal
pub mod Console
pub mod Tty
pub mod Pipe
pub mod Vma
pub mod Memblock
pub mod Sched
pub mod Pmm
pub mod Vmm
pub mod Fault
pub mod Path
pub mod Files
pub mod Libc
mod Tests
