-- ===== src/Lib.antt =====
-- The message loop of pkg/async_loop, the message coding of pkg/fidl and the task executor of pkg/fit,
-- which programs for Fuchsia link to.
--
-- AsyncLoop models pkg/async_loop/loop.c. The loop keeps the objects that clients register (waits,
-- tasks, exception ports) on lists, sets a kernel timer for the earliest task, reads packets from a
-- port and calls handlers, which may call the loop's operations again. Types holds the state
-- (`async_loop_t`), Tasks the task queue and timer (async_loop_post_task, async_loop_cancel_task,
-- async_loop_insert_task_locked, async_loop_restart_timer_locked), Dispatch the critical sections
-- of async_loop_dispatch_tasks, Ops the other operations of `async_loop_ops` and
-- async_loop_quit, async_loop_reset_quit, Run the calls of handlers and async_loop_run_once, Drive
-- async_loop_create, async_loop_run and async_loop_shutdown, Start async_loop_start_thread and
-- async_loop_destroy. Steps is the loop under many threads:
-- one step for what a thread does while it holds the lock, in any order. Threads is the same loop
-- seen by the variables that are not under the lock: one step for an access to an atomic variable
-- in async_loop_run, async_loop_quit, async_loop_shutdown, async_loop_wake_threads and
-- async_loop_reset_quit. The other modules are named for what they prove.
--
-- Async models pkg/async/ops.c, through which clients call the loop or another dispatcher.
--
-- Fidl models pkg/fidl: Tables the coding tables of include/lib/fidl/internal.h, Memory the bytes
-- of a message, Frames, Stack, Claims, Steps, Table and Walk the class BufferWalker of
-- buffer_walker.h, case by case, and Visitor the classes FidlValidator, FidlEncoder and FidlDecoder
-- of validating.cpp, encoding.cpp and decoding.cpp. Rules, Turns, StringTurns, TableTurns and Walks
-- carry a property of a walker through a whole walk; Storage, Bounds, Accepted,
-- DoubleClose and TableFaults say what holds of the walker's parts and of a whole walk. Builder is
-- the class of builder.cpp, over a buffer of bytes.
--
-- Typed says which coding tables are whole: fields lie inside of their struct and elements fill
-- their array, as the compiler of interfaces makes them; a pointer to a table is left out, since a present
-- one is walked as a struct. Work counts the turns that a stack of frames can still
-- take, Safe, SafeTurns, SafeVectors and SafeTables go through the cases, and Returns puts them
-- together.
--
-- Fit models pkg/fit: Tickets the table of tickets, Scheduler the class scheduler of scheduler.cpp,
-- Executor the class dispatcher_impl of single_threaded_executor.cpp. The thread in `run`, the
-- threads that schedule and resume tasks, and the tasks themselves act in any order; one action is
-- what a thread does while it holds the lock, and notifying another thread is an action of its own.
-- Counted, Releases and Acquires are about the scheduler, Sound is the executor's invariant, Turns,
-- Suspends and Resolves go through the actions, Reach puts them together, and Orders is about the
-- order of two operations. What callers may do is Allowed in Sound. An assertion that fails is the result none.
--
-- Zircon models arch/x64/sysroot/include/zircon/time.h: Int holds integers and those of 64 bits, Time
-- the functions.
--
-- The parts share Base only, apart from Async, which uses the loop. A module Examples, or PoolExamples, applies each
-- theorem to concrete values.
--
-- An intrusive list is the sequence of its nodes. A time t, an `int64_t`, is the number t + 2^63.
-- What the kernel answers is a parameter, indexed by the number of the system call; where a theorem
-- needs its documented behaviour, that is the record IsDocumented. What client code does in a
-- handler is a parameter too: any finite sequence of calls, each chosen by the answers before it.
-- The loops of async_loop_dispatch_tasks and async_loop_shutdown run on fuel: one more than the
-- tasks that are pending, which is enough since a round takes no task that is posted while it runs,
-- and the number of all pending objects, which is enough since a loop that is shut down registers
-- nothing. The walker runs on fuel that its caller gives: `goes w` is a walk that stands at w when
-- the fuel is spent. For the validator and the decoder 2 * weight 31 turns are enough (Fidl/Work): a
-- frame takes less than 2^66 turns besides those of the frames above it, of which there are at most
-- 31.
--
-- Memory is 64-bit and little-endian. A read or a write outside of the buffer, of a null pointer or
-- of a value that was never set is the outcome `faults`: typed_at and write_at test the bounds, and
-- the members of a frame that its constructor leaves unset are none. The encoder's assertion in
-- UpdatePointer is left out, which only a build without NDEBUG checks.
--
-- Not modelled: the guest's and the packet's payloads, which are only passed on, the closing of
-- handles by fidl_close_handles, the templates of pkg/fit, the other packages, and the C library's
-- headers.
pub mod Base
pub mod AsyncLoop
pub mod Async
pub mod Fidl
pub mod Fit
pub mod Zircon
