-- ===== src/Lib.antt =====
-- Verification of the autolock library: user-space locks whose waiting threads tell the kernel, in a
-- page that they share with it, which word they wait for, so that the scheduler can pass them over.
--
-- The program's parts and the files that model them
--   Kernel.antt: the shared page of user-dev/src/autolock-impls/sys/autolock-kernel-abi.h, its
--     operations in autolock-kernel-api.h (autolock_init_kernel_state, autolock_set_kernel_watch_mem,
--     _for and _neq), and the test of the scheduler in linux-dev/patches/v1-0002-Implement-autolock.patch
--     (auto_lock_dont_sched, auto_lock_sched). The page of a thread is an Option, none being NULL.
--   Spin.antt: the configurable lock of user-dev/src/autolock-impls/locks/internal/lock-base.h. The
--     configuration is the four I_WITH_ flags and the one for interposed libraries. `dispatch` has a
--     clause for each place in trylock, lock, unlock and trylock_maybe_sched; a step is one atomic
--     access to the lock, or one update of the page. `Reach` is what n threads reach in any order,
--     the kernel disarming threads at any time. Spin/Invariant holds its invariant.
--   Spin/Comparisons.antt: locks/spin-comparisons.h, the sixteen instances of that lock.
--   Spin/Custom.antt: locks/custom-spin-autolock.h and custom-backoff-autolock.h on
--     locks/internal/autolock-common-user-api.h, in the same way; Spin/Custom/Refines.antt maps them to
--     Spin.antt.
--   Ticket.antt: locks/internal/simple-ticket-lock-base.h, with the wrap-around of its two counters.
--     There the set-up of the page is three steps, because the code arms it first. Ticket/Progress.antt
--     has a thread that goes on alone.
--   Clh.antt: locks/internal/clh-lock-base.h, the queue lock, with the memory of its nodes and the
--     waiting loops of lock-wait-common.h. Clh/Invariant.antt describes the queue, Clh/Others.antt what
--     a change leaves of it, with Clh/Leaving.antt, and the files Clh/Steps, Entering and Moves the steps.
--   Mcs.antt: locks/internal/mcs-lock-base.h, the other queue lock, as it stands; Mcs/Waiting.antt has
--     its runs with many threads.
--   Cptltkt.antt: locks/internal/cptltkt-lock-base.h, the compact ticket lock. Cptltkt/System.antt has
--     the runs of threads, Cptltkt/Slots.antt the words of the lock between the sockets, and
--     Cptltkt/Invariant.antt what the two kinds of locks keep; Cptltkt/Moves, Line and Entering are the
--     steps.
--   Aepfl.antt: locks/internal/aepfl-lock-base.h, the array lock, with its invariant in
--     Aepfl/Invariant.antt and its steps in Aepfl/Steps.antt.
--   Ops.antt: the class lock_ops of user-dev/src/locks/lock-base.h, on which lock-decls.c builds locks of
--     the driver, with the calls of the futex. Ops/Invariant.antt has what the threads add up
--     to; Ops/Settle.antt, Locking.antt and Unlocking.antt show that the steps keep it.
--   Driver.antt: the checks of user-dev/src/driver.c on its options and what it then runs, with
--     run_params_init of locks/lock-run-params.h.
--   Timing.antt: the timing of user-dev/src/interpose/interpose-timing.h. A thread's position in the list
--     is its own number. The nodes that the destructor has gone through, with their statistics, are kept
--     beside what is printed; Timing/Nodes.antt counts both, Timing/Visits.antt has the steps, and
--     Timing/Printed.antt the destructor.
--   Bench.antt: the loops of user-dev/src/locks/lock-bench.h, which test the locks, and
--     get_expected_count of lock-runner.c. The lock is abstract: taken in one step when nobody has it.
--   Arg.antt: the option parser of user-dev/src/util/arg.h and arg.c. Arg/Number.antt is strtoull and
--     strtoll, Arg/Assign.antt assignArg, Arg/Check.antt checkArgDef and checkArgParser, Arg/Parse.antt
--     parseArguments, and Arg/Help.antt the command line and the shorthand of an option, with Arg/Help/Parts.antt the
--     text of that shorthand put together on its own; where the C program ends, hangs or leaves an array, the model says which.
--   Decls.antt: the choice of tests and benchmarks by name, user-dev/src/util/func-decl-utils.c; whether
--     regcomp takes an expression, and the matching of it, are parameters.
--   File.antt: user-dev/src/util/file-util.c, the calls that end the program on an error and the
--     loops that repeat them. The operating system is a parameter: what a call returns, the errno it
--     leaves, and the world after it. File/Ending.antt is how a call ends, with I_errdie of
--     error-util.c; File/Cases.antt serves proofs by what the system answers.
--   Stats.antt: user-dev/src/lib/stats/stats.h and stats.c. Stats/Floats.antt has the operations on
--     doubles, a parameter; Stats/Convert.antt is cvt_to_dbl, which reads a
--     memory that may end, Stats/Elements.antt the elements it converts, Stats/Calc.antt the computations and
--     I_gen_stats, Stats/Print.antt and Stats/Stream.antt the printers, with the formatting of snprintf a parameter;
--     Stats/Appending.antt and Stats/Overflow.antt have texts that fit into the buffer and that do not.
--   Cpu.antt: user-dev/src/thread/cpuset.h as it is compiled, and util/cpu-info.h; Cpu/Machines.antt
--     has the tables of util/topology/8-conf.h and 96-conf.h. Cpu/Parsing.antt is cpu_list_to_cpuset
--     of user-dev/src/locks/lock-runner.c, Cpu/Choice.antt set_allowable_cset, Cpu/Rotation.antt the
--     part of I_run that pins the threads, and Cpu/Printing.antt cset_to_str of thread/cpuset.c.
--   Kstats.antt: user-dev/src/autolock-impls/stats/autolock-stats.c, the parsing of the statistics that
--     the kernel has collected; Kstats/Entries.antt has how entries lie in a buffer.
--   Base.antt: shared names, Boolean tests, lists, families indexed by thread.
-- The locks interact with the kernel only through the page and the word that it names; the benchmarks
-- use a lock through lock and unlock; the drivers read their parameters with the option parser.
--
-- Bounds
--   Words are natural numbers with their wrap-around written out. Theorems on many threads take fewer
--   than 2^32 of them, which is what the counters of the locks can hold, and at most 128 for the array
--   lock, which has as many flags; those on the compact ticket lock take at most 2^32 / 3 sockets. The loops
--   of the locks are steps of a relation, and those of the parser recur on their arguments. Fuel is
--   taken by the loops of file-util.c, which may block, where the theorems say how much is enough; by
--   the passes of the choice of cpus, of which two are enough; by cpu_list_to_cpuset, one more than the
--   list has characters, each turn but the last taking one off; by cset_to_str, one more than a set
--   has places; and by the parsing of statistics, one more than the buffer has bytes.
--
-- Not modelled
--   Pauses, yields and the time that passes, as far as no variable shows them; memory orders, the
--   accesses being sequentially consistent; the statistics calls and the rest of the kernel patch; what
--   the driver and the usage message print, and the doneParsing hooks; the printing of
--   the statistics of autolock, memory helpers, the wrappers of the operating system, and the tables
--   of sockets.
pub mod Aepfl
pub mod Arg
pub mod Base
pub mod Bench
pub mod Clh
pub mod Cptltkt
pub mod Cpu
pub mod Decls
pub mod Driver
pub mod File
pub mod Kernel
pub mod Kstats
pub mod Mcs
pub mod Ops
pub mod Spin
pub mod Stats
pub mod Ticket
pub mod Timing
