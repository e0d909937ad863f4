-- ===== src/Lib.antt =====
-- SyncPerf: a library that takes the place of the pthread mutex calls, counts for each mutex and
-- each thread the acquisitions, the conflicts and the waiting times, and reports at the end which
-- mutexes cost performance.
--
-- The parts, and how they interact. A program calls `pthread_mutex_lock` and its relatives. The
-- first word of each mutex of the program becomes a pointer to an entry, which holds the real
-- mutex, the call sites, and the index of its counters. A call finds or makes the entry, counts the
-- access, records the call site, and then works on the real mutex by code that comes from glibc.
-- The real mutex is taken by the low-level lock, by the kernel's futex operations, or with the
-- priority ceilings of the thread. Threads get indices and live in levels, the serial and parallel
-- phases of the run. The report adds up the counters of all threads for each entry.
--
-- The files:
-- - Base: shared names; Boolean tests, lists over native numbers, families of threads, words.
-- - Clock: source/finetime.c.
-- - Futex: source/lowlevellock.h and source/lowlevellock.S, by any number of threads on one word, a
--   shared access at a time (Protocol), with its invariant and its theorems (Invariant, Safety,
--   Linear).
-- - Manager: source/mutex_manager.cpp and source/recordentries.hh. Counters has the per-thread
--   counters, Contexts `add_new_context`, Backtrace `do_backtrace` and `back_trace`, Entries the
--   pool, Install the race of several threads for the entry of one mutex, and Cells a proof.
-- - Mutex: source/mutex_init.c, source/mutex_destroy.c, source/mutex_lock.c (also as
--   source/pthread_mutex_cond_lock.c builds it), source/mutex_trylock.c, source/mutex_unlock.c,
--   source/tpp.c and source/pthreadP.h, on the mutex of an entry. Kinds, State and LowLevel are
--   the vocabulary; Priority, Init, Lock, Trylock and Unlock the code; Waits, Acquire, Pairing,
--   Statistics, Nesting, Refusal, Ceilings, Restore, Protected, Failures, Ensures, Accesses and
--   Gaps the proofs.
-- - Intercept: the calls from the program's mutex on. World has the shared state and the five calls,
--   Waiting the two halves of a wait on a condition variable; Linking, Steps, Counting, Accesses,
--   Effects, Sleeps, Ledger and Initialisers the proofs.
-- - Threads: source/xthread.h, with the table (Table), the end of a thread's stack (Stack), the offset
--   that a lock computes from it (Offset) and the intercepted calls of source/libdefault.cpp (Calls);
--   Phases, Creation, Ranges and Times the proofs.
-- - Condvar: source/cond_wait.c, the wait on a condition variable and the handler of a cancelled
--   waiter (Wait); Order, Returns, Relock and Departure the proofs.
-- - Report: source/report.h. Totals has the totals and the lists of the quadrants, Contexts the
--   text of a call stack and the map of call stacks with the asymmetric locks, Stacks the map that
--   the report fills, Format and Output the text of
--   syncperf.report, Whole all of `print`, Reader and RoundTrip a reader of the file that is no part
--   of the code; Quadrants, Sums, Texts, Asymmetry and Updates the proofs.
-- - Tracer: diagnosis_tool/src/sync_track.cpp, a separate Pin tool. Callbacks has its callbacks over
--   its global variables, Access the map of the accessed addresses, Image the choice of the
--   instructions; Sharing, Totals, Runs, Missed and Isolation the proofs.
-- - Program: source/libdefault.cpp, source/xrun.h and source/mm.hh. Memory has `mmap` and its
--   flags, Start `initializer`, Finish `finalizer` with the file's name and the texts that `print`
--   asks for; Texts and Whole the proofs, on a run from its start to its end.
-- - Examples: concrete states at which the hypotheses of the theorems hold.
--
-- How the code corresponds. Each function of the code is a function of the model with the code's
-- name in lower case, and each case of its `switch` and each early return is a branch. An `int` or
-- `unsigned int` that wraps is a number with `% 2 ^ 32` written out; masks and shifts are written
-- with `/` and `%`. A lock call runs as one step except where it waits or tries again: `others` of
-- its `Call` says what the other threads do to the mutex at each of these points, and the call is
-- `blocked` when the list ends while it still waits. The interleavings inside the low-level lock
-- and inside the installation of an entry are modelled access by access, in Futex and in
-- Manager.Install. The kernel (futex operations on priority inheritance, scheduling, memory for the
-- priority table) is the record `Kernel`, of which only the order of its priorities is assumed, as
-- Linux and POSIX have it. Times are cycles: a value in milliseconds is a number of cycles divided
-- by the clock rate, a time that is added up is exact where the code's sum of type double rounds, and
-- the comparisons of the report's quadrants are exact; the rates that the
-- search for asymmetric locks compares are values of a record `Reals`, of which an order is
-- assumed. A string is the list of its codes, and how a number of type `double` prints is a
-- parameter. `mmap`, `sigaction`, `readlink` and the output of `addr2line` are parameters of Program,
-- and the records `MapsZeros` and `Answering` say what is assumed of them. A priority of -1 is
-- `none`. The build is the one of source/Makefile, with WITH_TRYLOCK, REPORT_LINE_INFO and
-- GET_STATISTICS.
--
-- Bounds. The loops run on the rest of a list of interferences or on a count that the code itself
-- has (the spinning of an adaptive mutex, the walk over the stack); only `read_stack` has fuel of
-- its own, and one more than the array's size is enough.
--
-- Not modelled: the requeueing of condition variables, which is compiled out; the state of
-- cancellation (source/cancellation.c), of which source/cond_wait.c has the calls commented out,
-- and the chain of handlers (source/cleanup_compat.c), of which the handler itself is in Condvar;
-- the links of the robust list (source/list.h), of which the calls here keep a count; of the
-- tracer, what Pin does, the reading of the input file and the race of two callbacks inside a
-- `std::map`; the output to the terminal, the file thread_waits.csv, and the handler of SIGINT, which
-- calls `exit`; the search for the system's functions (source/libfuncs.cpp); and the copies of
-- glibc headers for atomics, system calls and thread descriptors.
pub mod Base
pub mod Clock
pub mod Futex
pub mod Manager
pub mod Mutex
pub mod Intercept
pub mod Threads
pub mod Report
pub mod Condvar
pub mod Tracer
pub mod Program
pub mod Examples
