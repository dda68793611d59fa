-- ===== src/Lib.antt =====
-- A model of three process schedulers for the xv6 kernel on RISC-V: adaptive (shortest job first
-- with aging), lpt (longest processing time first, in batches) and work stealing (a run queue for
-- each CPU). Each directory holds its own proc.c and proc.h; syscall.c, sysproc.c and trap.c are
-- shared. A kernel is built from one directory and the shared files.
--
-- Base            lists with an index, C's machine integers, first-match searches.
-- Kernel          proc.h and the globals of proc.c. Pointers into proc[] are indices. The record
--                 Kernel is over the scheduler's own fields of struct proc (F), its run queue in
--                 struct cpu (Q), and the state of the code that is not in the repository (W).
-- Kernel.Services the functions that the repository calls and does not hold (page allocator, page
--                 tables, files, copyin and copyout), as a record that every client takes. Nothing
--                 is assumed of them, but of the sizes of page tables in Syscall.Resize.
-- Process         what the three proc.c share: allocproc and freeproc (Alloc), kfork and userinit
--                 (Fork), reparent and kexit (Exit), kwait and waitx (Wait), kkill (Kill), sleep and
--                 sched (Sleep), growproc (Memory), procinit, proc_mapstacks, either_copyout and
--                 either_copyin (Boot), procdump (Dump). What differs is an argument. Lpt.Shared and
--                 WorkStealing.Shared are those of these functions that no difference reaches.
-- Adaptive        adaptive/proc.c: the scan of scheduler() with its calls of acquire and release
--                 (Scan), dispatch, yield, wakeup; Calls fills in the arguments of Process. Starvation
--                 follows the choices of a CPU over many rounds.
-- Lpt             lpt/proc.c: batch, sort and tuples (Batch), the run of a list, yield, wakeup, Calls.
-- WorkStealing    work stealing/proc.c: the ring (Deque) and the queue that it stands for (Queue), the
--                 loops that take from it, the victims, the return of a process, yield, wakeup,
--                 Calls. Kept, Round, Waiting and Pushing follow the RUNNABLE processes through
--                 the rings.
-- Syscall         syscall.c, syscall.h and sysproc.c: arguments, dispatch, process calls (Calls,
--                 Handlers).
-- Trap            trap.c: traps from user space and from the kernel, interrupts, the clock; forkret of
--                 proc.c (Forkret). Timer, Ecall and ForkCall follow a trap to its end.
--                 Registers are arguments; devices, syscall(), yield() and kexit() are parameters.
-- System          the machine: Step is a step relation over any number of CPUs on one process table,
--                 over a scheduler that is an instance of the interface Policy. AdaptiveRun, LptRun
--                 and StealingRun are the three instances; Exclusion and Pids hold the invariants of
--                 every run and Life the edges of a slot's life, through what a step does to the
--                 slots' states and pids (Views, Wakes, Effects, Calls, Forks, Exits, Boot, Switch,
--                 Change). Start joins them from procinit() on. Parked and Handshake follow a
--                 process that exits, and its parent, under adaptive's scheduler.
-- Workload        test_workload.c: the loops of do_work (Workload), spin_delay and main (Phases). Its
--                 system calls are a record; Delay, Totals and Whole follow them.
-- Samples         concrete kernels for the tests, which stand in the modules named Tests.
--
-- How the code is followed. A function on the kernel's state is a function from state to state. A
-- call of swtch() ends a definition, and what the caller does when it is resumed is another:
-- sched, sleep and wake_from_sleep; dispatch and resume; a pass of kwait and the loop over passes,
-- which takes what the others do during each sleep as an argument. A call of panic() is an
-- outcome. An `int` or `uint` is its pattern below 2 ^ 32, with the wrap-around written out. A
-- round of a scheduler to its switch is one definition, and one step of the machine; so is a function
-- that holds a lock from its start to its end, a loop that takes the lock of one slot after the
-- other, and kexit() to its switch. kfork() is three steps, at the releases of its locks, and kfork
-- composes them for one CPU alone.
--
-- Bounds. MAX_TASKS is 64 and the ring holds 63 entries. NCPU and NPROC are free: NCPU is an
-- argument, NPROC the length of the table. The loops over the table are by recursion on it; the
-- loops on a ring have MAX_TASKS rounds, as in the code, which is one more than a ring has entries.
-- The do loop of select_victim has fuel: for an even NCPU two rounds are enough.
-- The sort has as many rounds as the batch has entries, as in the code. The loops of do_work have
-- fuel for limit rounds, which is enough; that of spin_delay has fuel that is enough if the clock goes
-- on.
--
-- Not modelled: the interleaving of CPUs inside a step and lock contention; trapinit and
-- trapinithart (hardware set-up); what test_workload.c prints on its way; the prototypes in defs.h and
-- user.h, usys.pl and the Makefile.
pub mod Base
pub mod Kernel
pub mod Process
pub mod Adaptive
pub mod Lpt
pub mod WorkStealing
pub mod Syscall
pub mod Trap
pub mod System
pub mod Workload
pub mod Samples
