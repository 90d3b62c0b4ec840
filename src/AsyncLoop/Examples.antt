-- ===== src/AsyncLoop/Examples.antt =====
-- pkg/async_loop/loop.c on concrete loops: a kernel that answers ZX_OK, a loop with a wait, a due
-- task, three queued tasks and an exception port, and handlers that make no call or post a task.
use fuchsia_sdk.Base.{none, ◌+◌, ◌^◌, ◌≡◌, refl, true, false, some, List, [], ◌∷◌, ◌++◌, arith, inl}
use fuchsia_sdk.AsyncLoop.Types.{
  ok, err_bad_state, Task, Loop, Kernel, Config, runnable, shutdown, task_handler,
}
use fuchsia_sdk.AsyncLoop.Tasks.{
  insert_task, has_task, insert_from_tail, post_task, cancel_task, delete_task,
  restart_timer_locked, restart_deadline, set_timer,
}
use fuchsia_sdk.AsyncLoop.Dispatch.{split_due}
use fuchsia_sdk.AsyncLoop.Ops.{end, call, perform, post_task_call}
use fuchsia_sdk.AsyncLoop.Run.{Client, dispatch_tasks}
use fuchsia_sdk.AsyncLoop.Drive.{new_loop, shutdown_loop}
use fuchsia_sdk.AsyncLoop.Steps.{System, Step, called, expired, here, next}
use fuchsia_sdk.AsyncLoop.Queue.{IsSorted, AllDue, AllLater, insert_task_lem, split_due_lem}
use fuchsia_sdk.AsyncLoop.Timer.{Restarted, restart_timer_locked-Restarted}
use fuchsia_sdk.AsyncLoop.Wakeups.{IsTimed, Reach-IsTimed}
use fuchsia_sdk.AsyncLoop.Documented.{IsDocumented}
use fuchsia_sdk.AsyncLoop.Total.{Ends, dispatch_tasks-Ends}
use fuchsia_sdk.AsyncLoop.Shutdown.{Finished, shutdown_loop-Ends}
use fuchsia_sdk.AsyncLoop.Quiet.{IsQuiet, logged, canceled}
use fuchsia_sdk.AsyncLoop.Handlers.{Dispatched, dispatch_tasks-Dispatched, shutdown_loop-canceled}
use fuchsia_sdk.AsyncLoop.Refine.{at_loop}
use fuchsia_sdk.AsyncLoop.Rounds.{Settled, dispatch_tasks-Settled}
use fuchsia_sdk.AsyncLoop.Lifecycle.{Moves, Step-Moves, Reach-shutdown}
use fuchsia_sdk.AsyncLoop.Roundtrip.{cancel-post}

abbrev kernel : Kernel
kernel = record {
  now = λ n. 2 ^ 63 + 100;
  timer_set = λ n d. ok;
  wait_async = λ n i. ok;
  port_cancel = λ n i. ok;
  port_queue = λ n i. ok;
  set_trap = λ n i. ok;
  bind_exception_port = λ n i. ok;
  unbind_exception_port = λ n i. ok;
  resume_from_exception = λ n i. ok;
}

kernel-IsDocumented : IsDocumented kernel
kernel-IsDocumented = record {
  timer_set_ok = λ n d. refl;
  control_queued = λ n. refl;
  wait_async_answers = λ n i. inl refl;
  port_cancel_answers = λ n i. inl refl;
  set_trap_answers = λ n i. refl;
}

abbrev config : Config
config = record {
  make_default_for_current_thread = true;
  has_prologue = true;
  has_epilogue = false;
}

abbrev soon : Task
soon = record { id = 11; deadline = 2 ^ 63 + 50 }

abbrev also_soon : Task
also_soon = record { id = 12; deadline = 2 ^ 63 + 90 }

abbrev late : Task
late = record { id = 13; deadline = 2 ^ 63 + 500 }

abbrev extra : Task
extra = record { id = 14; deadline = 2 ^ 63 + 70 }

abbrev tasks : List Task
tasks = soon ∷ also_soon ∷ late ∷ []

tasks-IsSorted : IsSorted tasks
tasks-IsSorted = omega arith

-- A loop with something pending of every kind, and two threads in it.
abbrev busy : Loop
busy = record {
  config = config;
  state = runnable;
  active_threads = 2;
  dispatching_tasks = false;
  wait_list = 21 ∷ 22 ∷ [];
  task_list = tasks;
  due_list = [];
  thread_list = 31 ∷ [];
  exception_list = 41 ∷ [];
  timer = some (2 ^ 63 + 50);
  queued = [];
  is_default = true;
  trace = [];
  syscalls = 7;
}

abbrev down : Loop
down = record busy { state = shutdown }

abbrev quiet : Client
quiet c s = end

-- Every task's handler posts another task.
abbrev reposting : Client
reposting (task_handler i status) s = call (post_task_call late) λ answer. end
reposting c s = end

quiet-IsQuiet : IsQuiet quiet
quiet-IsQuiet c s = refl

insert_task_example :
    insert_task extra tasks
    ≡ (split_due extra.deadline tasks).0 ++ extra ∷ (split_due extra.deadline tasks).1
insert_task_example = insert_task_lem extra tasks tasks-IsSorted

dispatch_tasks-Ends_example :
    Ends (λ _ s'. s'.dispatching_tasks ≡ false) (dispatch_tasks kernel reposting busy)
dispatch_tasks-Ends_example = dispatch_tasks-Ends kernel kernel-IsDocumented reposting busy refl

shutdown_loop-Ends_example :
    Ends
      (λ _ s'. Finished kernel kernel-IsDocumented reposting busy s')
      (shutdown_loop kernel reposting busy)
shutdown_loop-Ends_example = shutdown_loop-Ends kernel kernel-IsDocumented reposting busy refl

dispatch_tasks-Dispatched_example :
    Ends
      (λ _ s'. Dispatched busy (task_handler 11 ok ∷ task_handler 12 ok ∷ []) (late ∷ []) s')
      (dispatch_tasks kernel quiet busy)
dispatch_tasks-Dispatched_example =
    dispatch_tasks-Dispatched kernel kernel-IsDocumented quiet quiet-IsQuiet busy refl refl
      tasks-IsSorted

shutdown_loop-canceled_example :
    Ends
      (λ _ s'. s'.trace ≡ logged busy.config (canceled busy) busy.trace)
      (shutdown_loop kernel quiet busy)
shutdown_loop-canceled_example =
    shutdown_loop-canceled kernel kernel-IsDocumented quiet quiet-IsQuiet busy refl

split_due_example :
    ((split_due 100 tasks).0 ++ (split_due 100 tasks).1 ≡ tasks)
    × AllDue 100 (split_due 100 tasks).0
    × AllLater 100 (split_due 100 tasks).1
    × IsSorted (split_due 100 tasks).0
    × IsSorted (split_due 100 tasks).1
split_due_example = split_due_lem 100 tasks tasks-IsSorted

abbrev restarted : Loop
restarted = record busy { timer = some (2 ^ 63 + 50); syscalls = 8 }

restart_timer_locked_example : Restarted busy restarted
unfolding restart_timer_locked restart_deadline set_timer
restart_timer_locked_example =
    restart_timer_locked-Restarted kernel busy restarted tasks-IsSorted refl

abbrev posted : Loop
posted = record busy { task_list = soon ∷ extra ∷ also_soon ∷ late ∷ [] }

cancel-post_example :
    (ok ≡ ok) × (ok ≡ ok) × (busy.task_list ≡ busy.task_list) × (busy.due_list ≡ busy.due_list)
unfolding post_task cancel_task has_task insert_task insert_from_tail delete_task
cancel-post_example =
    cancel-post kernel extra busy posted busy ok ok refl tasks-IsSorted refl refl refl

-- A new loop, and the same loop once a task is posted.
abbrev first : Loop
first = new_loop config

abbrev second : Loop
second = record first { task_list = soon ∷ []; timer = some (2 ^ 63 + 50); syscalls = 4 }

abbrev begun_with : Loop → System
begun_with s = record { loop = s; fired = 0 }

post_first : Step kernel (begun_with first) (begun_with second)
unfolding perform post_task insert_task insert_from_tail restart_timer_locked restart_deadline
    set_timer new_loop
post_first = called (post_task_call soon) ok refl refl

Reach-IsTimed_example : IsTimed (begun_with second)
Reach-IsTimed_example = Reach-IsTimed kernel config (next here post_first)

Step-Moves_example : Moves first.state second.state
Step-Moves_example = Step-Moves kernel post_first

refused : Step kernel (begun_with down) (begun_with down)
unfolding perform post_task
refused = called (post_task_call soon) err_bad_state refl refl

Reach-shutdown_example : down.state ≡ shutdown
Reach-shutdown_example = Reach-shutdown kernel (next here refused) refl

-- The timer for the posted task expires.
timer_expired : Step kernel (begun_with second) (at_loop (record second { timer = none }) 1)
timer_expired = expired (2 ^ 63 + 50) refl refl refl

dispatch_tasks-Settled_example :
    Ends (λ _ s'. Settled s') (dispatch_tasks kernel reposting (record second { timer = none }))
unfolding new_loop
dispatch_tasks-Settled_example =
    dispatch_tasks-Settled kernel kernel-IsDocumented reposting config
      (record second { timer = none }) (next (next here post_first) timer_expired) refl
