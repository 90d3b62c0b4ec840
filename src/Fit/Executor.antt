-- ===== src/Fit/Executor.antt =====
-- pkg/fit/single_threaded_executor.cpp: the dispatcher of an executor, under any number of threads.
-- What a thread does while it holds the dispatcher's lock is one operation here. An operation whose
-- assertion fails gives none.
use fuchsia_sdk.Base.{
  ℕ, suc, ◌-◌, Bool, true, false, not, ◌&&◌, ◌||◌, Option, none, some, List, [], ◌∷◌, ◌++◌, ◌==◌,
  if◌then◌else◌, is_nil,
}
use fuchsia_sdk.Fit.Scheduler.{
  PendingTask, Scheduler, new_scheduler, push_task, obtain_ticket, finalize_ticket,
  duplicate_ticket, release_ticket, resume_task_with_ticket, take_runnable_tasks, take_all_tasks,
  has_runnable_tasks, has_suspended_tasks, has_outstanding_tickets,
}

-- Where the thread that calls `run` is: outside of it, in `wake_.wait` or just notified there,
-- with a queue of tasks that it took, or in the first of them, with the rest behind it.
pub data Runner : Type 0 where
  outside : Runner
  asleep : Runner
  awake : Runner
  holding : List ℕ → Runner
  running : ℕ → List ℕ → Runner

-- `dispatcher_impl`, with the tickets of the `suspended_task` objects that exist, the threads
-- about to call `wake_.notify_one`, the tasks that were given to the executor and those that have
-- completed or were destroyed.
pub record Executor : Type 0 where
  pub scheduler : Scheduler
  pub was_shutdown : Bool
  pub need_wake : Bool
  pub current_task_ticket : ℕ
  pub runner : Runner
  pub deleted : Bool
  pub handles : List ℕ
  pub notifying : ℕ
  pub scheduled : List ℕ
  pub gone : List ℕ

abbrev pub new_executor : Executor
new_executor = record {
  scheduler = new_scheduler;
  was_shutdown = false;
  need_wake = false;
  current_task_ticket = 0;
  runner = outside;
  deleted = false;
  handles = [];
  notifying = 0;
  scheduled = [];
  gone = [];
}

-- The assertion fails, or the operation goes on.
abbrev pub asserting : {A : Type 0} → Bool → Option A → Option A
asserting b o = if b then o else none

abbrev pub then_with : {A B : Type 0} → Option A → (A → Option B) → Option B
then_with o f = elim o [ none ↦ none | some a ↦ f a ]

-- A thread that clears `need_wake_` calls `notify_one` once it has let go of the lock.
abbrev pub notify_later : Executor → Executor
notify_later x = record x { need_wake = false; notifying = suc x.notifying }

-- `dispatcher_impl::schedule_task`.
unfoldable pub schedule_task : ℕ → Executor → Option Executor
schedule_task t x = asserting (not x.was_shutdown) (
    then_with (push_task (some t) x.scheduler) (λ s.
      let x' = record x { scheduler = s; scheduled = t ∷ x.scheduled } in
      some (if x.need_wake then notify_later x' else x')))

-- One turn of the loop of `wait_for_runnable_tasks`.
unfoldable pub wait_for_runnable_tasks : Executor → Option Executor
wait_for_runnable_tasks x = asserting (not x.was_shutdown) (
    then_with (take_runnable_tasks [] x.scheduler) (λ (tasks, s).
      if not (is_nil tasks)
      then some (record x { scheduler = s; runner = holding tasks })
      else if not (has_suspended_tasks s)
      then some (record x { scheduler = s; runner = outside })
      else some (record x { scheduler = s; runner = asleep; need_wake = true })))

-- `run` waits for tasks when it starts, once it is notified, and when it has run all it took.
unfoldable pub wait : Executor → Option Executor
wait x = elim x.runner [
  | outside ↦ wait_for_runnable_tasks x
  | asleep ↦ none
  | awake ↦ wait_for_runnable_tasks (record x { need_wake = false })
  | holding tasks ↦ if is_nil tasks then wait_for_runnable_tasks x else none
  | running t tasks ↦ none
]

-- `run_task` up to the call of the task.
unfoldable pub enter_task : ℕ → List ℕ → Executor → Option Executor
enter_task t tasks x =
    asserting (x.current_task_ticket == 0) (some (record x { runner = running t tasks }))

-- `suspend_current_task`, which makes a `suspended_task`: the first of a task obtains the ticket.
unfoldable pub first_suspension : Executor → Executor
first_suspension x =
    let (ticket, s) = obtain_ticket 2 x.scheduler in
    record x { scheduler = s; current_task_ticket = ticket; handles = ticket ∷ x.handles }

unfoldable pub suspend_current_task : Executor → Option Executor
suspend_current_task x = asserting (not x.was_shutdown) (
    if x.current_task_ticket == 0
    then some (first_suspension x)
    else then_with (duplicate_ticket x.current_task_ticket x.scheduler)
        (λ s. some (record x { scheduler = s; handles = x.current_task_ticket ∷ x.handles })))

abbrev pub drop_task : PendingTask → List ℕ → List ℕ
drop_task none l = l
drop_task (some t) l = t ∷ l

-- `run_task` behind the call of the task, which completed or is pending, and the `pop`: what is
-- still in the queue's front is destroyed, and so is the promise of a task that completed.
unfoldable pub leave_task : Bool → ℕ → List ℕ → Executor → Option Executor
leave_task finished t tasks x =
    if x.current_task_ticket == 0
    then some (record x { runner = holding tasks; gone = t ∷ x.gone })
    else asserting (not x.was_shutdown) (
        then_with
          (finalize_ticket x.current_task_ticket (if finished then none else some t) x.scheduler)
          (λ (left, s). some (record x {
            scheduler = s;
            current_task_ticket = 0;
            runner = holding tasks;
            gone = drop_task left (if finished then t ∷ x.gone else x.gone);
          })))

-- `dispatcher_impl::duplicate_ticket`.
unfoldable pub duplicate : ℕ → Executor → Option Executor
duplicate k x =
    then_with (duplicate_ticket k x.scheduler)
      (λ s. some (record x { scheduler = s; handles = k ∷ x.handles }))

-- The object that held the ticket holds it no more.
abbrev pub drop_handle : ℕ → List ℕ → List ℕ
drop_handle k [] = []
drop_handle k (i ∷ l) = if i == k then l else i ∷ drop_handle k l

-- What `resolve_ticket` does once the scheduler has been told.
unfoldable pub after_resolve : Executor → Option Executor
after_resolve x =
    if x.was_shutdown
    then asserting (not x.need_wake)
        (if has_outstanding_tickets x.scheduler then some x else some (record x { deleted = true }))
    else if x.need_wake && (has_runnable_tasks x.scheduler || not (has_suspended_tasks x.scheduler))
    then some (notify_later x)
    else some x

-- `resolve_ticket`. An abandoned task is destroyed.
unfoldable pub resolve_ticket : ℕ → Bool → Executor → Option Executor
resolve_ticket k resume_task x =
    let x' = record x { handles = drop_handle k x.handles } in
    if resume_task
    then then_with (resume_task_with_ticket k x.scheduler)
        (λ (did_resume, s). after_resolve (record x' { scheduler = s }))
    else then_with (release_ticket k x.scheduler) (λ (abandoned_task, s).
      after_resolve (record x' { scheduler = s; gone = drop_task abandoned_task x.gone }))

-- `shutdown`. The tasks that it takes are destroyed.
unfoldable pub shut_down : Executor → Option Executor
shut_down x = asserting (not x.was_shutdown) (
    then_with (take_all_tasks [] x.scheduler) (λ (tasks, s).
      let x' = record x { scheduler = s; was_shutdown = true; gone = tasks ++ x.gone } in
      some (if has_outstanding_tickets s then x' else record x' { deleted = true })))

-- `notify_one` wakes the thread in `wake_.wait`, if it is there.
abbrev pub wake_runner : Runner → Runner
wake_runner asleep = awake
wake_runner r = r

-- What the threads do.
pub data Action : Type 0 where
  scheduling : ℕ → Action
  waiting : Action
  entering : Action
  suspending : Action
  leaving : Bool → Action
  duplicating : ℕ → Action
  resolving : ℕ → Bool → Action
  closing : Action
  notifies : Action
  wakes_up : Action

-- A wait may end without a notification.
unfoldable pub act : Action → Executor → Option Executor
act (scheduling t) x = schedule_task t x
act waiting x = wait x
act entering x = elim x.runner [
  | holding l ↦ elim l [ [] ↦ none | t ∷ tasks ↦ enter_task t tasks x ]
  | outside ↦ none
  | asleep ↦ none
  | awake ↦ none
  | running t tasks ↦ none
]
act suspending x = suspend_current_task x
act (leaving finished) x = elim x.runner [
  | running t tasks ↦ leave_task finished t tasks x
  | outside ↦ none
  | asleep ↦ none
  | awake ↦ none
  | holding l ↦ none
]
act (duplicating k) x = duplicate k x
act (resolving k resume_task) x = resolve_ticket k resume_task x
act closing x = shut_down x
act notifies x = some (record x { runner = wake_runner x.runner; notifying = x.notifying - 1 })
act wakes_up x = some (record x { runner = wake_runner x.runner })
