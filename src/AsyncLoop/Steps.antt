-- ===== src/AsyncLoop/Steps.antt =====
-- pkg/async_loop/loop.c under any number of threads: what each thread does while it holds the
-- loop's lock is one step, and the steps of all threads come in any order. The kernel's timer is
-- one of the parties.
use fuchsia_sdk.Base.{ℕ, suc, ◌≡◌, true, Option, none, some, List, ◌∷◌}
use fuchsia_sdk.AsyncLoop.Types.{Status, Task, Loop, Kernel, Callback, shutdown, done, tick}
use fuchsia_sdk.AsyncLoop.Dispatch.{dispatch_begin, dispatch_resume}
use fuchsia_sdk.AsyncLoop.Ops.{Call, perform, delete_node}

-- The loop, and the timer packets that are queued on its port or were read from it by a thread
-- that has not yet entered `async_loop_dispatch_tasks`.
pub record System : Type 0 where
  pub loop : Loop
  pub fired : ℕ

pub data Step (k : Kernel) (a b : System) : Type 0 where
  -- A thread, in a handler or outside of the loop, calls an operation.
  called :
      (c : Call) (status : Status)
      → perform k c a.loop ≡ done status b.loop
      → b.fired ≡ a.fired
      → Step k a b
  -- A thread enters a handler.
  entered :
      (c : Callback)
      → b.loop ≡ record a.loop { trace = c ∷ a.loop.trace }
      → b.fired ≡ a.fired
      → Step k a b
  -- A thread calls into the kernel, and nothing of the loop changes.
  waited : b.loop ≡ tick a.loop → b.fired ≡ a.fired → Step k a b
  -- The timer expires and its packet is queued.
  expired :
      (d : ℕ)
      → a.loop.timer ≡ some d
      → b.loop ≡ record a.loop { timer = none }
      → b.fired ≡ suc a.fired
      → Step k a b
  -- A thread with a timer packet enters `async_loop_dispatch_tasks`.
  begun :
      (next : Option Task)
      → a.fired ≡ suc b.fired
      → dispatch_begin k a.loop ≡ done next b.loop
      → Step k a b
  -- The thread that dispatches tasks comes back from a handler.
  resumed :
      (next : Option Task)
      → a.loop.dispatching_tasks ≡ true
      → dispatch_resume k a.loop ≡ done next b.loop
      → b.fired ≡ a.fired
      → Step k a b
  -- A thread takes a completed wait off its list.
  completed :
      (i : ℕ)
      → b.loop ≡ record a.loop { wait_list = delete_node i a.loop.wait_list }
      → b.fired ≡ a.fired
      → Step k a b
  -- `async_loop_shutdown` changes the state, and then takes the tasks off their lists.
  closed : b.loop ≡ record a.loop { state = shutdown } → b.fired ≡ a.fired → Step k a b
  removed_due :
      (t : Task) (l : List Task)
      → a.loop.due_list ≡ t ∷ l
      → b.loop ≡ record a.loop { due_list = l }
      → b.fired ≡ a.fired
      → Step k a b
  removed_task :
      (t : Task) (l : List Task)
      → a.loop.task_list ≡ t ∷ l
      → b.loop ≡ record a.loop { task_list = l }
      → b.fired ≡ a.fired
      → Step k a b

pub data Reach (k : Kernel) (a : System) : System → Type 0 where
  here : Reach k a a
  next : {b c : System} → Reach k a b → Step k b c → Reach k a c
