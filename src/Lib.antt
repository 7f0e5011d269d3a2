-- ===== src/Lib.antt =====
-- karg, a small RISC-V kernel, as far as its own logic goes: processes and their scheduler,
-- semaphores, timers, memory, terminals, the log, the system calls, and the loader of the first
-- program. Paths are from the repository's root.
--
-- Base holds what all share: Boolean tests on the native numbers, lists measured by them, signed
-- results, flag bits. A pointer is its address, and 0 is the null pointer. A machine word keeps its
-- wrap-around where the code relies on it. `Option` is undefined behaviour when it is `none`.
--
-- Links is include/list.h, on a memory of `prev` and `next` pointers. Its theorems say which
-- sequence of nodes a list head stands for after each operation, and the other modules work on such
-- sequences: the ready queue, wait queues, free pages, heap blocks and the process tree.
--
-- Kernel is the state that the process code shares: the processes, their table, the ready queue, the
-- current process, the timers, and the memory with its page table entries. Sched is src/sched.c;
-- there `sched_update_state` and `sched_resched` call each other, and Sched.Knot shows that the two
-- functions of the model satisfy both of the source's equations. Proc is src/proc.c with
-- src/arch/riscv/proc.c, where Proc.Create.Args is what a new process finds on its stack, byte by
-- byte, Sem is src/sync/sem.c, and Timer is src/timer.c. Syscalls is src/syscalls/: each call is a
-- function of the kernel, up to the point at which it gives up the processor, and a call that goes
-- on when its process runs again has a second function for that.
--
-- System puts these together: its state is the kernel with its semaphores, a step is one of the
-- system calls by the running process, a timer interrupt or a signal, and a run is any sequence of
-- steps. System.Inv is the invariant between two steps, the modules beside it are each about some of
-- the kinds of step, and System.Booting and System.Boot start with src/sched.c's initialiser and
-- `kmain`. A new process gets memory that holds no live process, and the idle process makes no call
-- in which it would wait or exit. Reads and writes of terminals are not steps.
--
-- System.Family is the tree of processes: the two lists of each process against the parent pointers
-- and the states. IsMoved, in System.Family.Moved, is one process changing its place, and each call
-- that touches the tree is such a move, or several of them. System.World has the runs in which a
-- process makes one system call after the other: it keeps, beside the kernel, who is inside a
-- `sys_wait`, which the kernel's own data does not tell. There the init process does not exit, since
-- it would adopt its own children, and memory is reused only for processes that were waited for.
--
-- PageAlloc is src/mm/page_alloc.c, Kalloc is src/mm/kalloc.c, Vm is src/arch/riscv/vm.c, with the
-- way of an address through the tables in Vm.Walk and the translation of Sv39 hardware in
-- Vm.Hardware, Utils is src/utils/, and Elf is src/elf.c, with what one segment maps in Elf.Mapping
-- and the loop over the program headers in Elf.Program, and the whole in Elf.Load. Tty is
-- src/drivers/tty.c, src/drivers/ldisc.c and the parts of src/drivers/uart.c and src/dev.c through
-- which bytes are read and written; Tty.Spec is the line that a user types, which the control block
-- stands for. Log is src/module/log.c, Circular the round buffers of both, Intr is src/intr.c, and
-- Errno is include/errno.h with src/errno.c. Startup is src/module/init.c, src/dev.c and
-- src/kmain.c, Trap is src/arch/riscv/trap.c with the table of src/syscalls/syscall.c and the errors
-- of src/arch/riscv/sbi.c, and Trap.Served composes it with the system calls and the interrupts, and
-- Uart is the setup and the interrupt of src/drivers/uart.c with src/drivers/plic.c. Elf.Image is
-- the start of src/init.c. Machine is include/arch/riscv/sbi.h, src/arch/riscv/pm.c,
-- src/arch/riscv/timer.c and src/pm.c, with the firmware as an argument. Tests holds the theorems at
-- concrete inputs.
--
-- Fuel: the initial loop of the page allocator has a round for each page of the heap and one for the
-- last test; `adopt_all` has one for each child and one for the last test; `deinit_loop` has as many
-- as the value is below zero and one more; `load_segment` one for each page; a loop over a list one
-- for each node and one for the last test. Reads and writes of a device that is itself a terminal
-- take a depth, and run out of it only if terminals feed one another in a circle.
--
-- Not modelled: assembly, what the firmware does and what the registers of devices hold, which are
-- arguments; the concurrency of interrupts with kernel code, since traps enter the kernel one at a
-- time; the bytes of the first program (src/init.c) behind its headers, which are generated. The
-- value of a semaphore, an `i32`, is a number without a bound. In src/mm/kalloc.c a block of less
-- than 32 bytes, which is made only when adding the header to the size wraps, has its header
-- overwritten by that of the rest; the model has the two headers apart. A user process is made with
-- a null page table, where `proc_init` then writes entries, and the model lets it do so. The `kfree`
-- of a process's memory in src/syscalls/wait.c is left out, since the memory of processes is not in
-- the heap of the model. Hardware translation is that of hardware which sets the accessed and dirty
-- bits itself, for addresses below 2^38. What `kmalloc` returns to a client is a parameter of the
-- client, and so are the clock, and the memory of a process where a call reads it.
pub mod Base
pub mod Links
pub mod Timer
pub mod Errno
pub mod PageAlloc
pub mod Vm
pub mod Kernel
pub mod Sched
pub mod Proc
pub mod Sem
pub mod Circular
pub mod Tty
pub mod Syscalls
pub mod Kalloc
pub mod Log
pub mod Utils
pub mod Elf
pub mod Intr
pub mod Machine
pub mod Startup
pub mod Trap
pub mod Uart
pub mod System
pub mod Tests
