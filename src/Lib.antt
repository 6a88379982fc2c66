-- ===== src/Lib.antt =====
-- The Kaya kernel, an operating system in three phases for the uMPS2 machine.
--
-- The program. kaya/phase1/pcb.c keeps the table of process control blocks: circular process
-- queues with a tail pointer, the tree of processes, and the free list. kaya/phase1/asl.c keeps
-- the active semaphore list: for each semaphore at which processes wait a descriptor with their
-- queue, sorted by the semaphore's address between two dummy nodes, and a stack of free
-- descriptors. The nucleus, kaya/phase2, is built on both: scheduler.c picks the next process off
-- the ready queue, exceptions.c handles system calls and traps, interrupts.c the timers and the
-- devices, and initial.c boots. The first process is `test` of kaya/phase3/initProc.c, which sets
-- up the page tables, the swap pool and the semaphores of the user level and creates the user
-- process; this specifies its own handlers by SYS5 and copies its program from tape to disk.
-- pager.c serves its page faults and sysSupport.c its system calls. Phase 3 uses the nucleus only
-- by system calls.
--
-- The files.
--   Base: the libraries' names, Boolean tests, list lemmas (Base/Lists) and 32-bit words
--     (Base/Word).
--   Machine: pointers, `state_t`, and the commands in which the C functions are written.
--   Pcb/Queue: the queues of pcb.c (`insertProcQ` is insert_proc_q, and so on). Shape says which
--     list a queue holds; Insert, Remove and Out are about the operations.
--   Pcb/Tree: the process tree of pcb.c, likewise, with Shape, Children and Out.
--   Pcb/Table: `allocPcb`, `freePcb` (Free) and `initPcbs` (Init) of pcb.c.
--   Asl: asl.c. Shape is the map from semaphores to waiting blocks that a list stands for; Search
--     is about `searchASL` and `headBlocked`, Block about `insertBlocked`, Unblock about
--     `removeBlocked` and `outBlocked`, Init about `initASL`. Order, Frame and Waiting have the
--     lemmas on the order of the list, on what a change spares, and on who waits where.
--   Kernel: the globals of initial.c with the memory and the devices. Scheduler is scheduler.c
--     and `IncrementProcessTime`; Process has SYS1 and SYS2, Semaphores SYS3, SYS4, SYS7 and SYS8,
--     Exceptions the other calls and the traps, all of exceptions.c; Interrupts is interrupts.c and
--     Initial is initial.c. State is the ready queue beside the semaphore list, which the theorems
--     on the handlers assume and keep; Copy is about `CopyState`. Below each of the others stand
--     the theorems on it; in Semaphores, Balance is about the values of semaphores against who
--     waits, and in Process these are Kill and KillBlocked for a process without children, and
--     Family, Deaths, Doomed, Descent and Terminate for one with descendants.
--   Support: the globals of phase 3, the machine as it sees it, the address functions of
--     initProc.c and the transfers between disk and memory. Start is initProc.c (`test`,
--     `uProcInit`, `readTape`), Pager is pager.c (`UserTLBHandler`), Calls is sysSupport.c.
--     Places is about the address functions; Transfer and Paging about a transfer and a change
--     of a page table entry; Residence about the swap pool against the page tables, with Entries
--     for what a change does to the entries; Eviction, Arrival, Fault, Service and Reach about
--     page faults, from the parts to any number of them, Misplaced about an evicted page of the
--     shared segment, and Refuse about the faults that bring no page in; SetUp and Begin about
--     `test`, Tape about `readTape`, Terminal and Print about SYS10, Process about `uProcInit`
--     and the user's calls.
--   Pcb/Tests, Asl/Tests, Kernel/Tests, Support/Tests: the theorems at concrete states.
--
-- The model. A C function is a command: it takes a state and returns, leaves the kernel (`LDST`,
-- `HALT`, `PANIC` and `WAIT`, which do not come back), faults, or runs out of fuel. A struct's
-- field is a function from addresses to values, so two pointers to one block share it. Reading or
-- writing through `NULL`, which is 0xFFFFFFFF (kaya/h/const.h), is a fault, and so is the use of
-- a variable that was never assigned or an array index that is out of bounds where the array is a
-- field; an index into `semaphoreArray` is address arithmetic, as in C. A pointer to a queue's
-- tail pointer is passed by its value, and the new value is returned. Numbers are words below
-- 2^32, and `int`s are read as two's complement. The blocks, the descriptors, the `int`s in
-- memory and the processor states are separate regions: a user's pointer is never taken to alias
-- a kernel structure.
--
-- In phase 3 a system call is an event: the log keeps its number and arguments, its result is the
-- next of a given sequence, and the devices then change as another given sequence says. Writes of
-- device registers, TLBCLR and the setting of the interrupt bit are events too. SYS2 and SYS18
-- end the process. The source is built for one user process, `PROCCNT` = 1, so while the handlers
-- of one level of a process run no other code of phase 3 changes their data, except `test`, which
-- only waits. What the processes do to the state while `test` waits for the master semaphore is a
-- function that its model takes. An index past a page table, `userProcArray`,
-- `segTable->entries` or the swap pool is a fault.
--
-- Fuel. `outProcQ` and `outChild` walk at most `MAXPROC` = 20 blocks and have fuel 21;
-- `searchASL` has fuel 21 for at most 20 descriptors and the end node; the loop of
-- `ITInterruptHandler` has fuel 21 for 20 waiting processes. The recursion of
-- `HoneyIKilledTheKids` has fuel 21: each call works on fewer of at most 20 blocks than the one
-- that it comes from. The loop of `readTape` has fuel 2^31, as many blocks as an `int` counts,
-- and the loop of `WriteToTerminal` 2^32, the number of addresses.
--
-- Left out. The test programs are not modelled. `dummy` of exceptions.c and the `debug`s of phase
-- 3 are empty breakpoints. What the frames, the tapes and the disk hold is not modelled; the
-- commands to the devices are. The processor is not modelled: what runs after a state is loaded
-- is outside the kernel, and the clock's readings are a given sequence.
pub mod Base
pub mod Machine
pub mod Pcb
pub mod Asl
pub mod Kernel
pub mod Support
