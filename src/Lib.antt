-- ===== src/Lib.antt =====
-- LinuxThreads 2.0.1: POSIX threads as Linux processes that share their memory.
--
-- The program. A thread is a process made by clone; its descriptor (internals.h) stands at the top of
-- its stack. Threads wait by `suspend` and are woken by `restart`, a signal (restart.h). Short critical
-- sections are guarded by spinlocks (spinlock.h). A waiting thread is linked through p_nextwaiting into
-- the queue of a mutex or a condition (queue.h), or into the list that the status of a semaphore names.
-- join.c and cancel.c work on the descriptors, and send requests over a pipe to the manager thread
-- (manager.c), which makes the processes, waits for them and frees their stacks.
--
-- The files.
--   Memory: the descriptor (struct _pthread), requests, and the process: descriptors by address, the
--     signals sent and the requests written, in order. Chain, Woken: lists linked through
--     p_nextwaiting, and a row of threads that are woken.
--   Run: what a call does until its thread waits: it returns, spins at a taken spinlock, sleeps in
--     suspend, or exits. A call that sleeps is continued by another definition (block and the next round
--     of mutex_lock, cond_wait and wait_woken, join and join_woken).
--   Queue: queue.h, and remove_from_queue of condvar.c; Laws and Removal refine them to lists.
--   Mutex: mutex.c; Fast, Recursive, Kinds for the calls, System for any number of threads that call
--     lock, trylock and unlock of one fast mutex in any order.
--   Cond: condvar.c; Waiters for signal and broadcast, Wait, Timeout and Time for the waits, System for
--     any number of threads over one fast mutex and one condition.
--   Semaphore: semaphore.c; Counting for the count, Waiters for the list of threads,
--     System for threads that wait and post in any interleaving.
--   Specific: specific.c. Attr: attr.c. Cancel: cancel.c, and the handler of the CANCEL signal of
--     pthread.c. Join: join.c. Atfork: ptfork.c.
--   Ring, Stacks, Manager: manager.c. Ring is the doubly linked ring of active threads, Stacks the
--     segments of memory for their stacks, Manager the requests and the ends of processes; Creation,
--     Threads and Exit hold what is proved of a thread's beginning and end and of the process's exit.
--   Startup: pthread.c, with thread_self of internals.h; Requests for pthread_create against the
--     manager, Reset for the state after fork, Exec for the end of all other threads before exec.
--   Signals: signals.c, with the mask of a thread and the table of handlers, and the arrival of a signal.
--     Masks for pthread_sigmask, Handlers and Waiting for sigwait.
--   Suspend: the two waits of restart.h, for the signals that reach the thread: Waking, Cancelled.
--   Initialize: the constructor of pthread.c, and the start routine of a thread of manager.c.
--   Syscalls: wrapsyscall.c. Locks: lockfile.c, sysdeps/pthread/libc-lock.h and errno.c.
--   Buffer: Examples/ex5.c, the circular buffer over two semaphores; Contents for what stands in it,
--     System for a producer and a consumer in any interleaving.
--   Prelude, Examples: shared names and lemmas, and the process of the tests. The Tests of a component
--     run its theorems on concrete threads.
--
-- Choices. Addresses are numbers, NULL is 0. The calling thread is an argument where the code calls
-- thread_self. What stands between acquire and release of one spinlock is one atomic step, since all
-- accesses to what it guards are inside; a call on a taken spinlock spins. The restarts that mutex_unlock,
-- cond_signal and cond_broadcast send behind their release belong to the same step; for cond_broadcast
-- that is the walk over its own copy of the queue, whose threads still sleep. sem_post has no spinlock:
-- its compare-and-swap and each round of its walk are steps of their own, and Semaphore.System.Whole
-- relates them to the whole call. In the systems of threads only a thread that has a mutex unlocks it,
-- which the code of a fast mutex does not test. Counts of mutexes are 32-bit patterns, and the status
-- of a semaphore is the pattern of a 32-bit long.
--
-- Fuel. The walks along a list take fuel, one unit for each link and one for the end; the theorems ask
-- for as much as the list is long, so they are about the walk that the code does.
--
-- Signals. Which signals reach a sleeping thread, in which order, and what other threads do to the
-- memory before each of them, is a list that the theorems take as it comes; a blocked one stays pending.
--
-- Parameters. Destructors, cleanup handlers and the handlers of fork are functions of the state, with
-- what a theorem relies on as its hypothesis; so are the block that malloc returns, the clock, and the
-- kernel's answers about priorities, users, memory, processes and ended children.
--
-- Not modelled: the scheduling of a process when it is made, the weak aliases, the example programs but
-- ex5.c, and the assembly of the machines, whose testandset and compare-and-swap are taken as atomic.
pub mod Prelude
pub mod Buffer
pub mod Memory
pub mod Chain
pub mod Woken
pub mod Examples
pub mod Queue
pub mod Run
pub mod Mutex
pub mod Cond
pub mod Semaphore
pub mod Specific
pub mod Attr
pub mod Cancel
pub mod Join
pub mod Atfork
pub mod Ring
pub mod Stacks
pub mod Manager
pub mod Signals
pub mod Suspend
pub mod Initialize
pub mod Syscalls
pub mod Locks
pub mod Startup
