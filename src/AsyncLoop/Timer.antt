-- ===== src/AsyncLoop/Timer.antt =====
-- The timer of pkg/async_loop/loop.c: when it covers the pending tasks, and setting it again.
use fuchsia_sdk.Base.{
  ℕ, ◌≤◌, max, ◌≡◌, refl, ◌⊎◌, inl, inr, Option, none, some, List, [], ◌∷◌, arith, ◌==◌, All,
  Bool-cases,
}
use fuchsia_sdk.AsyncLoop.Types.{Task, Loop, Kernel, done, time_zero, time_infinite}
use fuchsia_sdk.AsyncLoop.Tasks.{restart_timer_locked}
use fuchsia_sdk.AsyncLoop.Queue.{IsSorted, AllFrom}

-- The timer is set, and expires no later than the time e, or at once if e is past at time 0.
abbrev pub WakesBy : Option ℕ → ℕ → Type 0
WakesBy none e = ⊥
WakesBy (some d) e = d ≤ max e time_zero

-- A task that is due wants the timer at once; one on the queue wants it by its deadline, and a
-- deadline of ZX_TIME_INFINITE never comes.
abbrev pub DueWakes : Option ℕ → List Task → Type 0
DueWakes timer = All (λ t. WakesBy timer time_zero)

abbrev pub TaskWakes : Option ℕ → Task → Type 0
TaskWakes timer t = (time_infinite ≤ t.deadline) ⊎ WakesBy timer t.deadline

pub record IsCovered (s : Loop) : Type 0 where
  pub due_wakes : DueWakes s.timer s.due_list
  pub tasks_wake : All (TaskWakes s.timer) s.task_list

-- From a task's wake-up to those of all later tasks.
pub TaskWakes-from :
    (timer : Option ℕ) (t : Task) (l : List Task)
    → TaskWakes timer t
    → AllFrom t.deadline l
    → All (TaskWakes timer) l
TaskWakes-from timer t [] w a = tt
TaskWakes-from none t (u ∷ l) w a = (ground arith, TaskWakes-from none t l w a.1)
TaskWakes-from (some d) t (u ∷ l) w a = (ground arith, TaskWakes-from (some d) t l w a.1)

DueWakes-zero : (l : List Task) → DueWakes (some time_zero) l
DueWakes-zero [] = tt
DueWakes-zero (t ∷ l) = (omega arith, DueWakes-zero l)

TaskWakes-zero : (l : List Task) → All (TaskWakes (some time_zero)) l
TaskWakes-zero [] = tt
TaskWakes-zero (t ∷ l) = (inr (omega arith), TaskWakes-zero l)

-- What the restart leaves: the same lists, and a timer that covers them.
pub record Restarted (s s' : Loop) : Type 0 where
  pub covered : IsCovered s'
  pub same_tasks : s'.task_list ≡ s.task_list
  pub same_due : s'.due_list ≡ s.due_list
  pub same_flag : s'.dispatching_tasks ≡ s.dispatching_tasks

covered_by :
    (due tasks : List Task) (timer : Option ℕ) (s' : Loop)
    → DueWakes timer due
    → All (TaskWakes timer) tasks
    → s'.due_list ≡ due
    → s'.task_list ≡ tasks
    → s'.timer ≡ timer
    → IsCovered s'
covered_by due tasks timer s' d t e f g = record {
  due_wakes = rw (e, g) d;
  tasks_wake = rw (f, g) t;
}

restart_due :
    (k : Kernel) (t : Task) (due : List Task) (s s' : Loop)
    → s.due_list ≡ t ∷ due
    → restart_timer_locked k s ≡ done tt s'
    → Restarted s s'
unfolding restart_timer_locked
restart_due k t due s s' e h = record {
  covered =
      covered_by (t ∷ due) s.task_list (some time_zero) s' (DueWakes-zero (t ∷ due))
        (TaskWakes-zero s.task_list) (ground arith) (ground arith) (ground arith);
  same_tasks = ground arith;
  same_due = ground arith;
  same_flag = ground arith;
}

restart_idle :
    (k : Kernel) (s s' : Loop)
    → s.due_list ≡ []
    → s.task_list ≡ []
    → restart_timer_locked k s ≡ done tt s'
    → Restarted s s'
unfolding restart_timer_locked
restart_idle k s s' e f h = record {
  covered = covered_by [] [] s.timer s' tt tt (ground arith) (ground arith) (ground arith);
  same_tasks = ground arith;
  same_due = ground arith;
  same_flag = ground arith;
}

restart_tasks :
    (k : Kernel) (t : Task) (l : List Task) (s s' : Loop)
    → AllFrom t.deadline l
    → s.due_list ≡ []
    → s.task_list ≡ t ∷ l
    → restart_timer_locked k s ≡ done tt s'
    → Restarted s s'
unfolding restart_timer_locked
restart_tasks k t l s s' a e f h = elim (Bool-cases (t.deadline == time_infinite)) [
  | inl never ↦ record {
    covered =
        covered_by [] (t ∷ l) s.timer s' tt
          (inl (ground arith), TaskWakes-from s.timer t l (inl (ground arith)) a) (ground arith)
          (ground arith) (ground arith);
    same_tasks = ground arith;
    same_due = ground arith;
    same_flag = ground arith;
  }
  | inr finite ↦ record {
    covered =
        covered_by [] (t ∷ l) (some t.deadline) s' tt
          (inr (omega arith), TaskWakes-from (some t.deadline) t l (inr (omega arith)) a)
          (ground arith) (ground arith) (ground arith);
    same_tasks = ground arith;
    same_due = ground arith;
    same_flag = ground arith;
  }
]

-- After `async_loop_restart_timer_locked`, on a queue in order, the timer covers every pending
-- task, whatever it was set to before; the queue, the due list and the flag are as they were.
pub restart_timer_locked-Restarted :
    (k : Kernel) (s s' : Loop)
    → IsSorted s.task_list
    → restart_timer_locked k s ≡ done tt s'
    → Restarted s s'
restart_timer_locked-Restarted k s s' o h = by_lists s.due_list s.task_list refl refl o
  where
    by_lists :
        (due tasks : List Task)
        → s.due_list ≡ due
        → s.task_list ≡ tasks
        → IsSorted tasks
        → Restarted s s'
    by_lists (t ∷ due) tasks e f o' = restart_due k t due s s' e h
    by_lists [] [] e f o' = restart_idle k s s' e f h
    by_lists [] (t ∷ l) e f o' = restart_tasks k t l s s' o'.0 e f h
