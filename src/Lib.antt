-- ===== src/Lib.antt =====
-- Dasynq is an event loop library for C++, in headers. A program registers watchers (of file descriptors,
-- signals, child processes and timers) with an event_loop. A backend (epoll, kqueue, select) finds out which
-- events occurred and queues their watchers by priority; the loop takes the watchers out of the queue one by
-- one and runs their callbacks, and what a callback returns says whether its watcher is armed again, disarmed,
-- queued again or removed. Several threads may poll one loop and remove watchers from it.
--
-- The parts of the program and the files about them:
-- * include/dasynq/svec.h, a vector that can give memory back: Vector.antt. The allocator is a parameter, which
--   may refuse; `Throws` is the result of a function that may throw bad_alloc.
-- * include/dasynq/daryheap.h, the priority queue over that vector: Heap.antt, a 4-ary heap whose handles know
--   their index. Heap/Index and Heap/Order say what a valid heap is, Heap/Insert, Heap/Remove, Heap/Reserve
--   and Heap/Reprioritize are about the operations. A handle is a number, the address of `handle_t`.
-- * include/dasynq/stableheap.h, first in first out among equal priorities: StableHeap/Defs.antt; the sequence
--   number is a 64-bit integer, `% 2 ^ 64`, and the theorems ask for a counter that has not wrapped.
-- * include/dasynq/timerbase.h, the times: Time/Defs.antt (time_val and divide_timespec). A time is an integer
--   number of seconds and a natural number of nanoseconds.
-- * include/dasynq/timerbase.h, timer_base: Timer/Defs.antt, process_timer_queue over the heap of
--   Heap.antt with times as priorities, and Timer/Calls.antt, the functions that a mechanism calls. The base class is a
--   parameter, a function that receives a report. Timer/Next is about the next timeout of a periodic timer,
--   Timer/Pull, Timer/Requeue, Timer/Step, Timer/Chain and Timer/Loop about one round and the whole loop, Timer/Wait and
--   Timer/Enable about the calls.
-- * include/dasynq/flags.h and include/dasynq/basewatchers.h: Flags.antt, the event masks bit by bit, and
--   Watcher.antt, the fields of a watcher. A watcher is a number, its address.
-- * include/dasynq.h, waitqueue: WaitQueue.antt. The functions of event_loop around the attention lock, over
--   two wait queues: AttnLock.antt, where each function up to a wait is one step, and AttnLock/System.antt, the
--   interleavings of any number of threads.
-- * include/dasynq.h, event_dispatch: Dispatch/Defs.antt, the queue of pending events, the receive functions
--   that a backend calls, and issue_delete.
-- * include/dasynq.h, event_loop and the watcher classes: EventLoop/Defs.antt, the state of a loop and the
--   functions it uses of its mechanism; EventLoop/Rearm.antt, process_fd_rearm and its kind;
--   EventLoop/Register.antt, the registration of watchers, where a function that may throw also says whether it
--   did; EventLoop/Callbacks.antt, the dispatch functions; EventLoop/Process.antt, process_events. EventLoop/Armed
--   relates the watch flags to what the mechanism watches, EventLoop/Runs, EventLoop/Ends and EventLoop/Removal are about
--   the processing of events, EventLoop/Guarantee about registrations that throw.
-- * include/dasynq/epoll.h, the backend epoll_loop: Epoll/Defs.antt, the state of an epoll_loop and its functions on watches, which make
--   a mechanism of it, and Epoll/Events.antt, process_events; the kernel is a record of functions.
--   include/dasynq/select.h: Select/Defs.antt and Select/Events.antt. Epoll/Refine and Select/Refine are about
--   the promises of a mechanism, Epoll/Rearms about an event of a bidi watcher.
-- * include/dasynq/signal.h, signal_events: Signals/Defs.antt, over the functions that install the handlers.
--   Signals/Masks compares the two forms of the signal mask.
-- Prelude.antt passes on the library's names and holds the shared lemmas: numbers, memory as a function of the
-- address, integers, orders and lists.
--
-- A callback is a parameter: any function of the state of the loop, so that it also stands for what other
-- threads do while the lock is free; so is `on_removed`, for the time when the lock is free while a watcher is
-- removed. The mechanism of a loop is a parameter with the laws
-- IsMechanism, of which Epoll and Select are instances.
--
-- Fuel: bubble_down gets as many rounds as its position, which each round lowers, and bubble_up as many as the
-- vector has elements, since each round moves to a child. The first loop of divide_timespec gets the
-- nanoseconds of the rest, which each doubling of the denominator approaches, and the second the factor that
-- it halves. The loop of process_timer_queue gets the sum of the nanoseconds by which the due timers are late,
-- which each round lowers. process_events needs no fuel, since the limit counts down.
--
-- Integers: the sequence number has 64 bits and wraps. The ints of divide_timespec and the counts of expiries are
-- patterns of 32 bits that wrap where the code's overflow is undefined; the theorems about them have hypotheses
-- that exclude it. The index of set_priority goes through an int. Other integers are taken not to overflow.
--
-- Not modelled: how the backends wait (pull_events), the backends other than epoll and select, the handlers of
-- signals, child processes, the timer backends, the B-tree, and deregistration and the timer setters of the
-- loop; condition variables and mutexes are those of the C++ library, and a wait may return at any time. The
-- vtables are the parameter `class`, and the kernel's calls are parameters.
pub mod Prelude
pub mod Vector
pub mod Heap
pub mod StableHeap
pub mod Time
pub mod Timer
pub mod Flags
pub mod Watcher
pub mod WaitQueue
pub mod AttnLock
pub mod Dispatch
pub mod EventLoop
pub mod Epoll
pub mod Select
pub mod Signals
