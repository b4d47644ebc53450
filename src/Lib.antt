-- ===== src/Lib.antt =====
-- dnssimple, and multi-lookup (turnin/multi-lookup.c, and dnsthreaded.c, the same text): programs
-- that read host names from files, one to a line, look each of them up, and write each host and its
-- address, or NOT_RESOLVED, to a log.
--
-- dnssimple does this in one thread. multi-lookup has main, some requesters, some resolvers and two
-- loggers. main puts the file names that open into filename_queue. A requester takes a file name,
-- puts each non-empty line of the file into requester_logfile_queue and into hostname_queue. A
-- resolver takes a host, looks it up, and puts the message into resolver_logfile_queue. A logger
-- takes the lines of one of the log queues and writes them to its file. The last requester to end
-- frees hostname_queue and requester_logfile_queue, main the others after the joins. All four
-- queues are the circular queue of turnin/array.c.
--
-- Which file models what, with the functions of the source:
--
-- - Base: Booleans, lists over the native numbers, bags as weights (a list is a permutation of
--   another one if every weighing of the items gives both the same total), the integers.
-- - Strings: C strings as lists of bytes; the cut of a line at its newline and at a NUL byte
--   (turnin/multi-lookup.c:84-94).
-- - Lines: the loops over getline, in both programs.
-- - Resolve: dns_resolve and the message of resolve_then_log. getaddrinfo and inet_ntop are fields
--   of `Net`; of inet_ntop it is assumed that its text fits in INET6_ADDRSTRLEN bytes.
-- - Simple: dnssimple.c, process_file and main. The files are a field of `Files`. Simple/Correct
--   and Simple/Answers relate it to the hosts of the files.
-- - Fifo: what array.h promises, a bounded first-in first-out queue that can be closed.
-- - Array: turnin/array.c and array.c, array_init, array_put, array_get and array_free, one
--   function per stretch under the lock. Array/Refine relates a stretch to the operations of Fifo,
--   and Array/System has any number of threads that call the three functions in any interleaving,
--   Array/System/Operations the operations of Fifo that a run comes to, Array/System/Closing the
--   turns that bring array_free to its end, and Array/System/Waiting those of an array that stays
--   open.
-- - Array/Locked: array.c statement by statement, with its lock. Array/Locked/Links says where the
--   stretches of Array/System take effect, Array/Locked/Atomic relates the runs of both, and
--   Array/Locked/Release counts the statements under the lock. Array/Locked/Interrupted has a
--   thread that is interrupted there by a signal whose handler frees the array.
-- - Timeout: get_timeout, of turnin/array.c and of array.c, which differ.
-- - Lookup: multi-lookup over four queues of Fifo. Lookup/Arguments has the checks of main,
--   Lookup/Startup the start of its threads with the failures there, Lookup/Threads the steps of
--   the requesters (process_files_from_queue), the resolvers (resolver_thread, resolve_then_log)
--   and the loggers, Lookup/Program the steps of main and `step`, where a choice says which thread
--   runs and how its allocations come out. `run` follows a list of choices, so that all
--   interleavings are lists. Lookup/Phases and Lookup/Weights hold the invariants, Lookup/Work a
--   measure of what is left to do, Lookup/Counts the counters, Lookup/Agreement the comparison with
--   dnssimple, Lookup/Ready, Lookup/Rest and Lookup/Fair what keeps the threads going, Lookup/Stuck
--   the state in which no thread can go on, Lookup/Stuck/Reached a run to it,
--   Lookup/Startup/Abandoned a start without requesters. Lookup/Signal has the handler of SIGINT
--   and SIGTERM (handle_signal), in one of the threads, Lookup/Signal/Drained what it has done when
--   it exits, and Lookup/Signal/Hangs and Lookup/Signal/Exits whether it does.
-- - Programs: multi-lookup and dnsthreaded from the command line to the end of main, with the
--   opening of the logs. Programs/Logs has the data files that differ from the logs.
-- - Schedules: runs by choices, and rounds in which every thread has its turn.
-- - Stress: test.c. Stress/Names has the names that are printed and scanned, Stress the threads and
--   main over one queue of Fifo, Stress/Account the invariants, Stress/Passes the verdict,
--   Stress/Work, Stress/Ends and Stress/Fair what brings it to its end.
--
-- Bounds and fuel. The queue is modelled for any ARRAY_SIZE (8 in array.h, 256 in turnin/array.h);
-- it has room for ARRAY_SIZE - 1 items, the `cap` of Fifo. Its indices stay below ARRAY_SIZE, so
-- the int arithmetic does not overflow and is that of the natural numbers; get_timeout is modelled
-- over the exact integers, next to the ranges of int, long and a 64-bit time_t. The loop over
-- getline runs on fuel: each turn takes a byte at least, so one more than the bytes of the file is
-- enough. The threads need no fuel: a run is as long as its list.
--
-- What is assumed. A statement of array.c is one step in Array/Locked; elsewhere a stretch under
-- the lock is. When a timed wait ends, and with which result, is the choice of the environment; a
-- thread that is told to wait may try again at any time. In Array/System, use of a destroyed lock
-- is a fault that stops the system, in Array/Locked also the destruction of a lock that is taken.
-- Lookup and Stress take a call after the destruction for a call on a closed queue, let array_free
-- wait until the queue is empty, not less, and do not let it wait for the getters, which only
-- allows more runs. A join of a thread that was not created is left out. In Lookup/Signal the
-- thread that takes a signal holds no lock then, no second signal comes, and the handler does not
-- run before the threads are started. No thread puts NULL. The files do not change while the
-- programs run, but for the logs, which Programs has emptied by their opening: where a property is
-- about the logs, the logs are different files and none of the data files, and different names are
-- different files. The numbers of test.c stay below 2 ^ 31, so that its int arithmetic does not
-- overflow.
--
-- Not modelled: the handler of SIGALRM, that of dnssimple, which only exits, the timing and
-- progress output, the resource limits and the failures of pthread_create in test.c, and the
-- Makefiles, which hold no logic of the programs.
pub mod Base
pub mod Strings
pub mod Lines
pub mod Resolve
pub mod Simple
pub mod Lookup
pub mod Samples
pub mod Fifo
pub mod Array
pub mod Timeout
pub mod Programs
pub mod Schedules
pub mod Stress
