-- ===== src/Lib.antt =====
-- REEact: a library that is preloaded into a program, replaces its pthread functions (and answers a
-- changed libgomp) and hands every call to a management policy; with it come fast synchronization
-- primitives, built from atomic operations and the futex system call, for policies to use.
--
-- The parts, and how they interact. `reeact_init` (src/reeact.c) runs as a constructor: it allocates
-- the process data, detects the topology of the machine (src/utils/reeact_topology.c), looks the
-- original pthread functions up (src/pthread_hooks/pthread_hooks.c), and initializes the libgomp
-- hooks (src/hooks/gomp_hooks) and the policy (src/policies/reeact_policy.c). From then on the
-- program's pthread calls reach the replacements in src/pthread_hooks, each of which calls one
-- function of the policy, which calls the original through a function pointer. The primitives of
-- src/fastsync are independent of all this.
--
-- Which file models what:
--   Prelude.antt          Boolean tests on native numbers, lists, and sums of a function over the
--                         threads 0 .. n - 1, which the invariants count threads with
--   Fastsync/Atomic.antt  the atomic macros of src/fastsync/fastsync.h, on a word with its wrap-around
--   Fastsync/Futex.antt   futex(2), a parameter: a record of relations with the documented laws
--   Fastsync/Mutex.antt   src/fastsync/fastsync_mutex.c: `fastsync_mutex_init`, `fastsync_mutex_lock`,
--                         `fastsync_mutex_trylock` and `fastsync_mutex_unlock` are the entries of the
--                         calls; `access` gives, for each place in their bodies, what the one shared
--                         access there does to the word and where the call goes on
--   Fastsync/Mutex/System.antt
--                         n threads that make these calls in any order, one access to a step, over any
--                         kernel; a condition variable may use the mutex as well, so that a thread may
--                         also wait there, be moved to the mutex by FUTEX_REQUEUE, and take it back
--                         by the loop of `fastsync_cond_wait`
--   Fastsync/Barrier.antt src/fastsync/fastsync_barrier.c in the same way: `fastsync_barrier_init`,
--                         `fastsync_barrier_destroy`, and `access` for `fastsync_barrier_wait` and
--                         `fastsynt_barrier_wait_interproc`, the call of the parent included
--   Fastsync/Barrier/System.antt
--                         n callers at one barrier, threads that block or groups with their counts, and a
--                         parent that may take any time, with ghost counts of the rounds
--   Fastsync/Barrier/Tree.antt
--                         a tree of two levels: groups of threads, each at its barrier, below one parent
--   Fastsync/Cond.antt    src/fastsync/fastsync_cond.c in the same way: the calls on a condition variable,
--                         the wait at a parent and the calls of the mutex included
--   Fastsync/Cond/System.antt
--                         n threads that use any number of condition variables, each with a parent or
--                         without, and one mutex; a wait at a parent is part of the wait at its child,
--                         and returns to it
--   Fastsync/Cond/Signals.antt
--                         the number that `fastsync_cond_signal_count` stores
--   Fastsync/Cond/Counts.antt
--                         the numbers that the waiters note and how often seq has been raised, as ghosts;
--                         the wait that comes back from a parent raises it by a read and a write
--   Fastsync/Cond/Leaders.antt
--                         the waits that have gone on to a parent, and use_child
--   Fastsync/Cond/Orphans.antt
--                         the sleepers, and the waits that will release them, parent by parent
--   Fastsync/Cond/Alone.antt
--                         one call of `fastsync_cond_wait` by itself, with its calls at the ancestors of
--                         the condition variable and the calls of the kernel that it makes
--   Fastsync/Cond/Sight.antt, Moves.antt, Refines.antt
--                         these threads as threads of Fastsync/Mutex/System.antt
--   Pthread/Linker.antt   dlsym(3), dlerror(3) and the original functions, a parameter
--   Pthread/Policy.antt   the pthread functions of src/policies/reeact_policy.c, on a process state with
--                         the seventeen function pointers
--   Pthread/Hooks.antt    src/pthread_hooks: the seventeen replacements and `reeact_pthread_hooks_init`
--   Gomp.antt             src/hooks/gomp_hooks and the libgomp functions of src/policies/reeact_policy.c
--   Topology/Machine.antt what src/utils/reeact_topology.c reads, and `parse_value_list_expand`, a
--                         parameter
--   Topology/Outcome.antt arrays with checked accesses, and the `for` loops
--   Topology/Sysfs.antt   `reeact_get_topo_sysfs`, one function to a loop
--   Topology/Marking.antt, Cores.antt, Sockets.antt, Seats.antt, Detection.antt
--                         its loops one by one, and the whole on a homogeneous machine
--   Topology/Conf.antt    `reeact_get_topo_conf` and `reeact_get_topology`
--   Topology/File.antt    the lines of a configuration file, by key, text and values
--   Logging.antt          src/utils/reeact_log.c and the macros of src/utils/reeact_utils.h, on the bytes
--                         that are written to stderr
--   Process.antt          src/reeact.c: `reeact_per_proc_init`, `reeact_init` and `reeact_cleanup`
--   Process/Report.antt   `reeact_log_topology`, which a debug build calls in the constructor
-- In a component's directory, Invariant holds the invariant of its system with the proof that every
-- step keeps it, Safety and the like what follows, and Examples runs on concrete systems.
--
-- Bounds and fuel. The digits of a number that is printed run on fuel, ten for 32 bits, and so does a
-- call that is followed by itself; the theorems on such a call state fuel with which it ends. A call of
-- a primitive is a sequence of accesses, and a loop in it is a place that the call comes back to; the
-- loops of the topology detection are recursions on their counts and lists. A word has 32 bits, and its
-- wrap-around is written out. The spinning loops of the mutex are FASTSYNC_MUTEX_SPIN_LOCK_LOOPS = 1
-- rounds long, the value in the source. The theorems on the barrier take counts up to INT_MAX in
-- all, since FUTEX_WAKE is called for INT_MAX sleepers.
--
-- The memory model is sequential consistency: the steps of the threads interleave in some order, and an
-- access is a plain read, a plain write or one atomic operation. FUTEX_WAIT may return at any time
-- without reason, as it may in the kernel.
--
-- Not modelled: the logging calls within the other components, which only write output (the functions
-- that they call are modelled, and the constructor is that of a release build); the padding of the
-- structures; the release of memory but for that of the process data; condition variables that are used
-- with several mutexes as systems of threads (their accesses are, and one call by itself), trees of
-- barriers with more than two levels as systems of threads (each of their barriers is), and what
-- libgomp does with the answers of the policy, since it is not part of the repository.
pub mod Prelude
pub mod Fastsync
pub mod Pthread
pub mod Gomp
pub mod Topology
pub mod Logging
pub mod Process
