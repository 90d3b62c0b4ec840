-- ===== src/Fit/Examples.antt =====
-- pkg/fit on a concrete executor: one task that suspends itself and is resumed from elsewhere.
use fuchsia_sdk.Base.{
  ◌+◌, ◌<◌, ◌≡◌, refl, true, false, not, ◌&&◌, Option, none, some, List, [], ◌∷◌, arith, ltb,
}
use fuchsia_sdk.Fit.Tickets.{find, emplace, update, erase, settle, total}
use fuchsia_sdk.Fit.Scheduler.{
  push_task, obtain_ticket, finalize_record, finalize_ticket, resume_record,
  resume_task_with_ticket, take_runnable_tasks, take_all_tasks, has_runnable_tasks,
  has_suspended_tasks, has_outstanding_tickets,
}
use fuchsia_sdk.Fit.Counted.{occurs, refs_of, held, task_at, Gives}
use fuchsia_sdk.Fit.Executor.{
  Executor, new_executor, asleep, holding, running, Action, scheduling, waiting, entering,
  suspending, leaving, resolving, closing, notifies, wakes_up, act, schedule_task, wait,
  wait_for_runnable_tasks, enter_task, first_suspension, suspend_current_task, leave_task,
  after_resolve, resolve_ticket, shut_down,
}
use fuchsia_sdk.Fit.Executor.{then_with}
use fuchsia_sdk.Fit.Orders.{made_runnable, finalize-resume}
use fuchsia_sdk.Fit.Sound.{taken, owed}
use fuchsia_sdk.Fit.Reach.{
  Reach, here, next, Reach-act, Reach-conserved, Reach-counted, Reach-refs, Reach-deleted,
  Reach-destructor, Reach-wakes,
}

-- One action after another.
unfoldable perform_all : List Action → Executor → Option Executor
perform_all [] x = some x
perform_all (a ∷ l) x = elim (act a x) [ none ↦ none | some y ↦ perform_all l y ]

-- Task 7 is scheduled and taken.
abbrev task_scheduled : Executor
task_scheduled = record new_executor {
  scheduler = record new_executor.scheduler { runnable_tasks = 7 ∷ [] };
  scheduled = 7 ∷ [];
}

abbrev task_taken : Executor
task_taken = record new_executor { runner = holding (7 ∷ []); scheduled = 7 ∷ [] }

abbrev task_runs : Executor
task_runs = record task_taken { runner = running 7 [] }

-- It obtains ticket 1 and is suspended, and the thread in `run` sleeps.
abbrev task_suspends : Executor
task_suspends = record task_runs {
  scheduler = record {
    runnable_tasks = [];
    tickets = (1, record { ref_count = 2; was_resumed = false; task = none }) ∷ [];
    suspended_task_count = 0;
    next_ticket = 2;
  };
  current_task_ticket = 1;
  handles = 1 ∷ [];
}

abbrev task_suspended : Executor
task_suspended = record task_suspends {
  scheduler = record {
    runnable_tasks = [];
    tickets = (1, record { ref_count = 1; was_resumed = false; task = some 7 }) ∷ [];
    suspended_task_count = 1;
    next_ticket = 2;
  };
  current_task_ticket = 0;
  runner = holding [];
}

abbrev runner_sleeps : Executor
runner_sleeps = record task_suspended { runner = asleep; need_wake = true }

-- The ticket is resolved, and the thread that does so is about to notify the other.
abbrev task_resumed : Executor
task_resumed = record runner_sleeps {
  scheduler = record {
    runnable_tasks = 7 ∷ [];
    tickets = [];
    suspended_task_count = 0;
    next_ticket = 2;
  };
  need_wake = false;
  handles = [];
  notifying = 1;
}

Reach-scheduled : Reach task_scheduled
unfolding act schedule_task push_task
Reach-scheduled = next (scheduling 7) here refl refl

Reach-taken : Reach task_taken
unfolding act wait wait_for_runnable_tasks take_runnable_tasks
Reach-taken = next waiting Reach-scheduled (refl, refl) refl

Reach-runs : Reach task_runs
unfolding act enter_task
Reach-runs = next entering Reach-taken refl refl

Reach-suspends : Reach task_suspends
unfolding act suspend_current_task first_suspension obtain_ticket emplace
Reach-suspends =
    next suspending Reach-runs (refl, record { tickets = omega arith; handles = omega arith }) refl

Reach-suspended : Reach task_suspended
unfolding act leave_task finalize_ticket finalize_record find settle update
Reach-suspended = next (leaving false) Reach-suspends refl refl

Reach-sleeps : Reach runner_sleeps
unfolding act wait wait_for_runnable_tasks take_runnable_tasks
Reach-sleeps = next waiting Reach-suspended (refl, refl) refl

Reach-resumed : Reach task_resumed
unfolding act resolve_ticket after_resolve resume_task_with_ticket resume_record find settle erase
    occurs
Reach-resumed = next (resolving 1 true) Reach-sleeps (omega arith) refl

Reach-act_example : Gives Reach (act (resolving 1 true) runner_sleeps)
unfolding occurs
Reach-act_example = Reach-act (resolving 1 true) runner_sleeps Reach-sleeps (omega arith)

Reach-conserved_example :
    occurs 7 runner_sleeps.scheduler.runnable_tasks
      + total (task_at 7) runner_sleeps.scheduler.tickets
      + occurs 7 (taken runner_sleeps.runner)
      + occurs 7 runner_sleeps.gone
    ≡ occurs 7 runner_sleeps.scheduled
Reach-conserved_example = Reach-conserved runner_sleeps 7 Reach-sleeps

Reach-counted_example :
    runner_sleeps.scheduler.suspended_task_count ≡ total held runner_sleeps.scheduler.tickets
Reach-counted_example = Reach-counted runner_sleeps Reach-sleeps

Reach-refs_example :
    total (refs_of 1) task_suspends.scheduler.tickets
    ≡ occurs 1 task_suspends.handles + owed task_suspends.current_task_ticket 1
Reach-refs_example = Reach-refs task_suspends 1 Reach-suspends

Reach-wakes_example :
    (0 < task_resumed.notifying)
    × Gives
        (λ y. Gives (λ z. z.runner ≡ holding (7 ∷ [])) (act waiting y))
        (act notifies task_resumed)
Reach-wakes_example = Reach-wakes task_resumed 7 [] Reach-resumed refl refl

-- A new executor is destroyed at once.
abbrev destroyed : Executor
destroyed = record new_executor { was_shutdown = true; deleted = true }

Reach-destroyed : Reach destroyed
unfolding act shut_down take_all_tasks
Reach-destroyed = next closing here (refl, refl) refl

Reach-deleted_example :
    destroyed.deleted
    ≡ (destroyed.was_shutdown && not (has_outstanding_tickets destroyed.scheduler))
Reach-deleted_example = Reach-deleted destroyed Reach-destroyed

Reach-destructor_example :
    (has_runnable_tasks destroyed.scheduler ≡ false)
    × (has_suspended_tasks destroyed.scheduler ≡ false)
    × (occurs 1 destroyed.handles ≡ 0)
Reach-destructor_example = Reach-destructor destroyed 1 Reach-destroyed refl

-- A wait that ends by itself lets the thread in `run` finish and the executor be destroyed, and
-- with it the dispatcher that another thread is about to notify.
deleted_before_notify :
    elim (perform_all
      (wakes_up ∷ waiting ∷ entering ∷ leaving true ∷ waiting ∷ closing ∷ [])
      task_resumed) [ none ↦ false | some x ↦ x.deleted && ltb 0 x.notifying ]
    ≡ true
unfolding perform_all act wait wait_for_runnable_tasks take_runnable_tasks enter_task leave_task
    shut_down take_all_tasks
deleted_before_notify = refl

-- The scheduler of the running task: ticket 1 has two references.
finalize-resume_example :
    (then_with
        (finalize_ticket 1 (some 7) task_suspends.scheduler)
        (λ x. resume_task_with_ticket 1 x.1)
      ≡ some (true, made_runnable 1 0 7 task_suspends.scheduler))
    × (then_with
          (resume_task_with_ticket 1 task_suspends.scheduler)
          (λ x. finalize_ticket 1 (some 7) x.1)
        ≡ some (none, made_runnable 1 0 7 task_suspends.scheduler))
unfolding total find
finalize-resume_example =
    finalize-resume 1 0 7 task_suspends.scheduler
      (record {
        counted = refl;
        referred = ((omega arith, omega arith, λ q. refl), tt);
        few = omega arith;
        bounded = omega arith;
      })
      refl
