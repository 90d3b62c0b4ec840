-- ===== src/AsyncLoop/Wakeups.antt =====
-- The wake-ups of pkg/async_loop/loop.c over every interleaving of its threads.
use fuchsia_sdk.Base.{◌≡◌, refl, false, arith}
use fuchsia_sdk.AsyncLoop.Types.{Status, Kernel, Config, done}
use fuchsia_sdk.AsyncLoop.Ops.{Call, perform, post_task_call, cancel_task_call}
use fuchsia_sdk.AsyncLoop.Drive.{new_loop}
use fuchsia_sdk.AsyncLoop.Queue.{IsSorted}
use fuchsia_sdk.AsyncLoop.Keeps.{SameTasks, concerns_tasks, perform-SameTasks}
use fuchsia_sdk.AsyncLoop.Timer.{IsCovered}
use fuchsia_sdk.AsyncLoop.Timed.{
  Timely, post_task-Timely, cancel_task-Timely, dispatch_begin-Timely, dispatch_begin-IsCovered,
  dispatch_resume-Timely,
}
use fuchsia_sdk.AsyncLoop.Steps.{
  System, Step, called, entered, waited, expired, begun, resumed, completed, closed, removed_due,
  removed_task, Reach, here, next,
}

-- The queue is in order, and while no thread dispatches tasks and no timer packet is under way,
-- the timer covers every pending task.
pub record IsTimed (y : System) : Type 0 where
  pub sorted : IsSorted y.loop.task_list
  pub quiet : y.loop.dispatching_tasks ≡ false → y.fired ≡ 0 → IsCovered y.loop

IsTimed-same : (a b : System) → SameTasks a.loop b.loop → b.fired ≡ a.fired → IsTimed a → IsTimed b
IsTimed-same a b e f v = record {
  sorted = rw (e.same_tasks) v.sorted;
  quiet = λ q z.
      let c = v.quiet (ground arith) (ground arith) in
      record {
        due_wakes = rw (e.same_due, e.same_timer) c.due_wakes;
        tasks_wake = rw (e.same_tasks, e.same_timer) c.tasks_wake;
      };
}

IsTimed-Timely : (a b : System) → Timely a.loop b.loop → b.fired ≡ a.fired → IsTimed a → IsTimed b
IsTimed-Timely a b t f v = record {
  sorted = t.sorted;
  quiet = λ q z. t.covers q (λ p. v.quiet p (ground arith));
}

called-IsTimed :
    (k : Kernel) (c : Call) (a b : System) (status : Status)
    → perform k c a.loop ≡ done status b.loop
    → b.fired ≡ a.fired
    → IsTimed a
    → IsTimed b
unfolding perform
called-IsTimed k (post_task_call t) a b status h f v =
    IsTimed-Timely a b (post_task-Timely k t a.loop b.loop status v.sorted h) f v
called-IsTimed k (cancel_task_call i) a b status h f v =
    IsTimed-Timely a b (cancel_task-Timely k i a.loop b.loop status v.sorted h) f v
called-IsTimed k c a b status h f v =
    IsTimed-same a b (perform-SameTasks k c a.loop b.loop status (unfold concerns_tasks in refl) h)
      f v

pub Step-IsTimed : (k : Kernel) {a b : System} → Step k a b → IsTimed a → IsTimed b
Step-IsTimed k {a} {b} (called c status h f) v = called-IsTimed k c a b status h f v
Step-IsTimed k {a} {b} (entered c h f) v = IsTimed-same a b (ground arith) f v
Step-IsTimed k {a} {b} (waited h f) v = IsTimed-same a b (ground arith) f v
Step-IsTimed k {a} {b} (expired d t h f) v = record {
  sorted = rw h v.sorted;
  quiet = λ q z. absurd (omega arith);
}
Step-IsTimed k {a} {b} (begun n f h) v =
    let t = dispatch_begin-Timely k a.loop b.loop n v.sorted h in
    record {
      sorted = t.sorted;
      quiet = λ q z. dispatch_begin-IsCovered k a.loop b.loop n v.sorted h q;
    }
Step-IsTimed k {a} {b} (resumed n d h f) v =
    IsTimed-Timely a b (dispatch_resume-Timely k a.loop b.loop n d v.sorted h) f v
Step-IsTimed k {a} {b} (completed i h f) v = IsTimed-same a b (ground arith) f v
Step-IsTimed k {a} {b} (closed h f) v = IsTimed-same a b (ground arith) f v
Step-IsTimed k {a} {b} (removed_due t l e h f) v = record {
  sorted = rw h v.sorted;
  quiet = λ q z.
      let c = v.quiet (ground arith) (ground arith) in
      rw h (record { due_wakes = (rw e at c.due_wakes).1; tasks_wake = c.tasks_wake });
}
Step-IsTimed k {a} {b} (removed_task t l e h f) v = record {
  sorted = rw h (rw e at v.sorted).1;
  quiet = λ q z.
      let c = v.quiet (ground arith) (ground arith) in
      rw h (record { due_wakes = c.due_wakes; tasks_wake = (rw e at c.tasks_wake).1 });
}

-- Over every interleaving of threads that call operations and handlers, expire the timer, dispatch
-- tasks and shut the loop down, starting from a new loop: the task queue is in order of the
-- deadlines, and while no thread dispatches tasks and no timer packet is under way, the timer is
-- set to wake the loop at once for every task that is left due and, for every queued task whose
-- deadline is finite, no later than that deadline (or at once, if the deadline is before time 0).
pub Reach-IsTimed :
    (k : Kernel) (config : Config) {y : System}
    → Reach k (record { loop = new_loop config; fired = 0 }) y
    → IsTimed y
unfolding new_loop
Reach-IsTimed k config here = record {
  sorted = tt;
  quiet = λ q z. record { due_wakes = tt; tasks_wake = tt };
}
Reach-IsTimed k config (next r st) = Step-IsTimed k st (Reach-IsTimed k config r)
