-- ===== src/Lib.antt =====
-- Verification library of the ChronOS scheduling test application.
--
-- The program has two parts. libchronos wraps the real-time system calls of the ChronOS kernel;
-- sched_test_app reads a set of periodic tasks, runs each task's jobs under a scheduler, with
-- locks and an artificial workload, and reports how many jobs met their deadlines.
--
-- Base passes on the shared names: tests on numbers, lists, signed integers (Base/Int), binary
-- digits (Base/Bits). Types holds the structs of sched_test_app/src/tester_types.h. Clock models
-- the arithmetic on instants of libchronos/chronos_utils.c and sched_test_app/src/utils.h. Job
-- models one task's jobs, from sched_test_app/src/task.c: the number of releases, deadlines, the
-- two locking patterns and the statistics. Group models the thread groups, from task_init.c,
-- task.c and tester.c: who leads a group and which threads are started. Hyperperiod models gcd and
-- taskset_lcm of tester.h. Sched models the table of scheduling algorithms, from
-- sched_algorithms.h, libchronos/chronos.h and tester.c; Totals the statistics of a whole run,
-- from tester.c; Options the command line of main.c and the batch loop. Atomic models
-- libchronos/atomic_int.h, with threads whose accesses interleave. Random models the generators of
-- random.h, Arrays and NodeList the workloads of workloads/array_*.h and workloads/linked_list.h,
-- SearchTree that of workloads/bst.h, and Work the driver of a workload, workload.c:
-- do_work_slope, and in Work/Timer the other timing methods. Workloads models the table of
-- workloads (workload.h, workload_type.h), Aborts the abort device of libchronos/chronos_aborts.c,
-- and Segments the system calls of libchronos/chronos.c. TaskSet models the lists of processors
-- and locks in a task's line, from task_init.c; Scan what fscanf and getc do with a file, and
-- TaskFile the reading of the whole taskset file, init_tasks of tester.c with init_task and
-- init_group of task_init.c. TestRun models parts of a run, from tester.c and task.c: the domains
-- that get a scheduler, the times of a task, the start time that the threads of a group agree on,
-- and the processes of the thread groups (tgroup.c). Salloc models the shared memory allocator
-- salloc.c on a store of headers. Slope models the slope files of sched_test_app/src/slope.c, and
-- Slope/Measure the program that makes them, slope/slope.c. Each of these files holds the
-- definitions; its children hold the proofs, and its child Tests holds runs and the theorems at
-- concrete inputs.
--
-- Machine integers are natural numbers with their wrap-around written out, or integers where a
-- value can be negative. What the kernel, the clock and the workloads answer are arguments. gcd
-- takes fuel; 2^31 is enough, since its second argument falls and starts below 2^31. The batch
-- loop takes one unit for each run and one more, and do_work_slope one more than the iterations,
-- or one more than the reads of the abort pointer before an abort, as do_work_timer does. The
-- lists of a task's line are read with as much fuel as they have characters, the taskset file with
-- one unit more. The searches of salloc and sfree take a unit for each block on their way.
--
-- Not modelled: system calls and library calls themselves, printing, and the values of floating
-- point, whose operations are a parameter.
pub mod Base
pub mod Clock
pub mod Types
pub mod Job
pub mod Group
pub mod Hyperperiod
pub mod Salloc
pub mod Sched
pub mod Totals
pub mod Options
pub mod Atomic
pub mod Random
pub mod Arrays
pub mod Work
pub mod NodeList
pub mod Aborts
pub mod Workloads
pub mod Slope
pub mod Segments
pub mod SearchTree
pub mod TaskSet
pub mod Scan
pub mod TaskFile
pub mod TestRun
