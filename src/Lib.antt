-- ===== src/Lib.antt =====
-- A verification library for gaio, a proactor for Go: callers submit asynchronous reads and writes
-- on network connections, and one loop goroutine performs them on duplicated, non-blocking
-- descriptors and queues their results.
--
-- How the parts interact. A call of the API (watcher.go) fills a request record and appends it to
-- pendingCreate. The loop takes such a batch (handlePending), registers a connection on its first
-- request, and tries each request at once; a request that would block waits in a queue of its
-- descriptor and, if it has a deadline, in a heap (time.go). Readiness from a poller
-- (aio_linux.go, aio_bsd.go, aio_windows.go) retries the queues, the timer expires requests, and
-- a finalizer or Free releases a connection. What is complete goes to chResults, from where WaitIO takes
-- it; its record returns to a pool at the next WaitIO.
--
-- The files:
--   Common    Boolean tests, lists, counts and association lists over the native numbers.
--   Types     aio_generic.go: operations, errors, requests (Aiocb), results, events.
--   Timed     time.go (less, swap, append, shrink are Less, Swap, Push, Pop) and the functions of
--             container/heap that it uses. Track: indices. Sift: up and down. Push: valid heaps and
--             heap.Push. Laws: heap.Pop and heap.Remove. Bodies: the fields that they leave alone.
--   Kernel    The interface of the system calls, the pollers' Watch, net.Conn and a select's choice,
--             with the order of a range over a map, and three laws: no more bytes than asked for, a range comes to each key once, and a new descriptor is not open. dupconn
--             of aio_unix.go.
--   Transfer  The work of tryRead and tryWrite on one request. Laws: the fields that they leave.
--             Replies: what they make of each reply of the system call.
--   Watcher   The watcher's state, tryRead, tryWrite, deliver, releaseConn. Handlers: handlePending,
--             handleEvents, handleGC and the timer. Invariant: where a request can be. Deliver,
--             Keeps and their children: what each handler does to the requests. Order: the order in
--             which requests complete. Its child Started: a new request among those that wait.
--             Wakeups: what waits has been tried. Untouched: the requests that are elsewhere. Free:
--             the cases of Free. Sized and its children: the sizes of the requests under every
--             handler. Fuel: the timer's loop.
--   System    NewWatcherSize, the API, stop. Collect: WaitIO in one step. Loop: the cases of the
--             loop, its deferred function and the finalizer. Step: the state machine of all of
--             these. Places, Safety: its invariant. Submit: what accepted calls leave. Fate, Cycle,
--             Answers: the way of one request. Open: the steps of an open watcher. Bounds: the sizes
--             and slices. Shutdown, Close: the loop's end. Life: the whole with the end of the loop. Results: WaitIO.
--   Flow      The loop, WaitIO and the other callers beside each other, on a chResults of limited
--             capacity: the loop's handlers in pieces, each with one exchange on chResults, but for
--             releaseConn. Jobs: the pieces. Pieces, Whole, Safety: the invariant. Outcomes, Order:
--             the order of the results. Handlers: the pieces put together. Progress and its
--             children: deliver and WaitIO do not wait for ever.
--   Buffers   The three shared buffers of nil-buffer reads under the rotation of WaitIO and tryRead.
--             Ages, Safety: which bytes the next read spares. Split: the same between the halves of
--             WaitIO. Race: where this fails.
--   Poller    The pollers' Wait. Table: the sockets that the Windows poller watches. Its children
--             Watch and Unwatch, and Undo: its operations. Events: how the pollers translate the
--             system's events. Rounds: one pass of each loop. Queue: BSD's queue of descriptors to
--             watch, and Linux's pass. Wait: a poller beside the watcher's loop, as an interface
--             that the three pollers fill and a step relation. Sync, Delivery, Progress: its
--             hand-over. Failure, Silence: an error of the system
--             call.
--   Setup     openPoll, wakeup, Close and the end of Wait on Linux and BSD. Windows: the same on
--             Windows, its socket pair, duplication and dupconn. Balance, and its child Windows:
--             what is opened and closed. Raw: rawRead and rawWrite. Affinity: affinity_linux.go,
--             affinity_windows.go, affinity_other.go.
--   Examples  Echo and Push: examples/echo-server/main.go, examples/push-server/main.go.
--   Tests     Runs on concrete inputs, and the theorems at concrete inputs.
--
-- State and representation. A pointer is a number; the request records are a function from
-- addresses. The maps descs and connIdents are association lists, container/list is a list of
-- addresses, and `elem` is named by the request in it. A time is a number with 0 for the zero time.
-- Bytes are not modelled, only which bytes of which buffer are written. Counters of 32 bits wrap. A
-- step of System is a critical section or one case of the loop: these exclude each other in the
-- code by the mutexes and the single loop goroutine, and the calls of the API interleave with them
-- in any order. In Flow each exchange on chResults is a step, in Buffers an attempt to read, a
-- delivery, and WaitIO or each of its halves.
--
-- Fuel. expire_loop runs on one unit of fuel for each request in the heap, which is enough since each
-- round that goes on takes a request out. up_loop and down_loop have as much as their position, or the
-- heap's size, and each round moves up or down in the tree. The loops over EINTR are recursion on
-- the reply; an EINTR for ever has no reply.
--
-- Descriptors and calls. In Setup a step that opens or closes a descriptor is recorded in a list, and
-- what a system call gives is an argument. In Poller.Wait a signal is a number of elements of the array
-- that Wait and the loop share, so that its events are those that the array holds when it is handled.
--
-- Not modelled: the descriptor pool fdDescPool, which saves allocations only; the capacity of the
-- array of events, which the number that a call reports does not exceed; the system calls
-- themselves; the listeners, the ticker and the log of the examples.
pub mod Common
pub mod Types
pub mod Timed
pub mod Kernel
pub mod Transfer
pub mod Watcher
pub mod System
pub mod Flow
pub mod Buffers
pub mod Poller
pub mod Setup
pub mod Examples
pub mod Tests
