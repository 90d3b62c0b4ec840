-- ===== src/AsyncLoop/Timed.antt =====
-- The critical sections of pkg/async_loop/loop.c that touch the task queue: the queue's order and
-- the timer after each.
use fuchsia_sdk.Base.{
  ℕ, ◌≡◌, refl, Bool, true, false, not, ◌&&◌, ◌||◌, inl, inr, Option, none, List, [], ◌∷◌, arith,
  ltb, ◌==◌, if◌then◌else◌, All, Bool-cases,
}
use fuchsia_sdk.AsyncLoop.Types.{
  Status, ok, Task, Loop, Kernel, Outcome, done, fault, out_of_fuel, return, is_shutdown,
  is_runnable, ◌>>◌,
}
use fuchsia_sdk.AsyncLoop.Tasks.{
  insert_task, delete_task, restart_timer_locked, post_task, cancel_task, has_task, must_restart,
  is_head,
}
use fuchsia_sdk.AsyncLoop.Dispatch.{
  split_due, extract_due, finish_round, next_due, dispatch_begin, dispatch_resume,
}
use fuchsia_sdk.AsyncLoop.Queue.{
  IsSorted, insert_task-IsSorted, insert_task_lem, delete_task-IsSorted, split_due_lem,
}
use fuchsia_sdk.AsyncLoop.Timer.{
  DueWakes, TaskWakes, IsCovered, restart_timer_locked-Restarted, TaskWakes-from,
}

-- What a section does: the order stays, and where the timer is to cover the tasks afterwards, with
-- nobody dispatching, it does.
pub record Timely (s s' : Loop) : Type 0 where
  pub sorted : IsSorted s'.task_list
  pub covers :
      s'.dispatching_tasks ≡ false → (s.dispatching_tasks ≡ false → IsCovered s) → IsCovered s'

module _ {A : Type 0} (k : Kernel) (v : A) where
  -- What restarts the timer and then returns.
  restart_return :
      (s s' : Loop) (r : A)
      → (restart_timer_locked k >> return v) s ≡ done r s'
      → restart_timer_locked k s ≡ done tt s'
  restart_return s s' r h = by_outcome (restart_timer_locked k s) refl
    where
      by_outcome : (o : Outcome (Unit {0})) → restart_timer_locked k s ≡ o → o ≡ done tt s'
      by_outcome (done u t) e = ground arith
      by_outcome fault e = ground arith
      by_outcome out_of_fuel e = ground arith

  restart_return-Timely :
      (s₀ s s' : Loop) (r : A)
      → IsSorted s.task_list
      → (restart_timer_locked k >> return v) s ≡ done r s'
      → Timely s₀ s'
  restart_return-Timely s₀ s s' r o h =
      let e = restart_timer_locked-Restarted k s s' o (restart_return s s' r h) in
      record { sorted = rw (e.same_tasks) o; covers = λ _ _. e.covered }

TaskWakes-insert :
    (timer : Option ℕ) (task : Task) (l : List Task)
    → IsSorted l
    → is_head task.id (insert_task task l) ≡ false
    → All (TaskWakes timer) l
    → All (TaskWakes timer) (insert_task task l)
unfolding split_due
TaskWakes-insert timer task [] o n w = absurd (head_itself (rw (insert_task_lem task [] tt) at n))
  where
    head_itself : is_head task.id (task ∷ []) ≡ false → ⊥
    head_itself e = ground arith
TaskWakes-insert timer task (u ∷ l) o n w = elim (Bool-cases (ltb task.deadline u.deadline)) [
  | inl late ↦ absurd (head_itself (rw (insert_task_lem task (u ∷ l) o, late) at n))
  | inr due ↦
      rw (insert_task_lem task (u ∷ l) o, due)
        (
          w.0,
          TaskWakes-from timer u _ w.0
              (rw (insert_task_lem task (u ∷ l) o, due) at (insert_task-IsSorted task (u ∷ l) o)).0,
        )
]
  where
    head_itself : is_head task.id (task ∷ u ∷ l) ≡ false → ⊥
    head_itself e = ground arith

unchanged-Timely : (s s' : Loop) → s' ≡ s → IsSorted s.task_list → Timely s s'
unchanged-Timely s s' e o = record { sorted = rw e o; covers = λ q c. rw e (c (rw (← e) q)) }

-- A section that only changes the queue, beside a covering of the new one.
changed-Timely :
    (s s' : Loop) (tasks due : List Task)
    → s' ≡ record s { task_list = tasks; due_list = due }
    → IsSorted tasks
    → (s.dispatching_tasks ≡ false
        → IsCovered s
        → DueWakes s.timer due × All (TaskWakes s.timer) tasks)
    → Timely s s'
changed-Timely s s' tasks due e o w = record {
  sorted = rw e o;
  covers = λ q c.
      let q' : s.dispatching_tasks ≡ false = ground arith in
      let cov = w q' (c q') in rw e (record { due_wakes = cov.0; tasks_wake = cov.1 });
}

pub post_task-Timely :
    (k : Kernel) (task : Task) (s s' : Loop) (status : Status)
    → IsSorted s.task_list
    → post_task k task s ≡ done status s'
    → Timely s s'
unfolding post_task
post_task-Timely k task s s' status o h = elim (Bool-cases (is_shutdown s.state)) [
  | inl down ↦ unchanged-Timely s s' (ground arith) o
  | inr up ↦
      let l = insert_task task s.task_list in
      let s₁ = record s { task_list = l } in
      elim (Bool-cases (not s.dispatching_tasks && is_head task.id l)) [
        | inl first ↦
            restart_return-Timely k ok s s₁ s' status (insert_task-IsSorted task s.task_list o)
              (rw (up, first) at h)
        | inr behind ↦
            changed-Timely s s' l s.due_list (ground arith)
              (insert_task-IsSorted task s.task_list o)
              (λ q c. (
                c.due_wakes,
                TaskWakes-insert s.timer task s.task_list o (ground arith) c.tasks_wake,
              ))
      ]
]

TaskWakes-delete :
    (timer : Option ℕ) (i : ℕ) (l : List Task)
    → All (TaskWakes timer) l
    → All (TaskWakes timer) (delete_task i l)
unfolding delete_task
TaskWakes-delete timer i [] w = tt
TaskWakes-delete timer i (t ∷ l) w = elim (Bool-cases (t.id == i)) [
  | inl found ↦ rw found w.1
  | inr other ↦ rw other (w.0, TaskWakes-delete timer i l w.1)
]

DueWakes-delete :
    (timer : Option ℕ) (i : ℕ) (l : List Task) → DueWakes timer l → DueWakes timer (delete_task i l)
unfolding delete_task
DueWakes-delete timer i [] w = tt
DueWakes-delete timer i (t ∷ l) w = elim (Bool-cases (t.id == i)) [
  | inl found ↦ rw found w.1
  | inr other ↦ rw other (w.0, DueWakes-delete timer i l w.1)
]

DueWakes-delete_unless :
    (b : Bool) (timer : Option ℕ) (i : ℕ) (l : List Task)
    → DueWakes timer l
    → DueWakes timer (if b then l else delete_task i l)
DueWakes-delete_unless true timer i l w = w
DueWakes-delete_unless false timer i l w = DueWakes-delete timer i l w

pub cancel_task-Timely :
    (k : Kernel) (i : ℕ) (s s' : Loop) (status : Status)
    → IsSorted s.task_list
    → cancel_task k i s ≡ done status s'
    → Timely s s'
unfolding cancel_task
cancel_task-Timely k i s s' status o h =
    elim (Bool-cases (has_task i s.task_list || has_task i s.due_list)) [
      | inr absent ↦ unchanged-Timely s s' (ground arith) o
      | inl there ↦
          let l = delete_task i s.task_list in
          let due = if has_task i s.task_list then s.due_list else delete_task i s.due_list in
          let s₁ = record s { task_list = l; due_list = due } in
          elim (Bool-cases (not s.dispatching_tasks && must_restart i s.task_list)) [
            | inl moved ↦
                restart_return-Timely k ok s s₁ s' status (delete_task-IsSorted i s.task_list o)
                  (rw (there, moved) at h)
            | inr kept ↦
                changed-Timely s s' l due (ground arith) (delete_task-IsSorted i s.task_list o)
                  (λ q c. (
                    DueWakes-delete_unless (has_task i s.task_list) s.timer i s.due_list
                        c.due_wakes,
                    TaskWakes-delete s.timer i s.task_list c.tasks_wake,
                  ))
          ]
    ]

-- The two ends of a section of `async_loop_dispatch_tasks`: a task is taken, or the round is over.
next_due-Timely :
    (k : Kernel) (s₀ s s' : Loop) (next : Option Task)
    → s.dispatching_tasks ≡ true
    → IsSorted s.task_list
    → next_due k s ≡ done next s'
    → Timely s₀ s'
unfolding next_due finish_round
next_due-Timely k s₀ s s' next d o h = by_due s.due_list refl
  where
    by_due : (due : List Task) → s.due_list ≡ due → Timely s₀ s'
    by_due [] e =
        restart_return-Timely k none s₀ (record s { dispatching_tasks = false }) s' next o
          (rw (e, next_due) at h)
    by_due (t ∷ due) e = record {
      sorted = let same : s'.task_list ≡ s.task_list = ground arith in rw same o;
      covers = λ q c. absurd (ground arith);
    }

extract_due-IsSorted :
    (k : Kernel) (s : Loop) → IsSorted s.task_list → IsSorted (extract_due k s).task_list
unfolding extract_due
extract_due-IsSorted k s o = by_due s.due_list refl
  where
    by_due : (due : List Task) → s.due_list ≡ due → IsSorted (extract_due k s).task_list
    by_due [] e = rw (e, extract_due) (split_due_lem (k.now s.syscalls) s.task_list o).4
    by_due (t ∷ due) e = rw (e, extract_due) o

extract_due-flag :
    (k : Kernel) (s : Loop) → (extract_due k s).dispatching_tasks ≡ s.dispatching_tasks
unfolding extract_due
extract_due-flag k s = ground arith

pub dispatch_begin-Timely :
    (k : Kernel) (s s' : Loop) (next : Option Task)
    → IsSorted s.task_list
    → dispatch_begin k s ≡ done next s'
    → Timely s s'
unfolding dispatch_begin
dispatch_begin-Timely k s s' next o h = elim (Bool-cases s.dispatching_tasks) [
  | inl busy ↦ unchanged-Timely s s' (ground arith) o
  | inr idle ↦
      let s₁ = record s { dispatching_tasks = true } in
      next_due-Timely k s (extract_due k s₁) s' next (extract_due-flag k s₁)
        (extract_due-IsSorted k s₁ o) (rw idle at h)
]

pub dispatch_resume-Timely :
    (k : Kernel) (s s' : Loop) (next : Option Task)
    → s.dispatching_tasks ≡ true
    → IsSorted s.task_list
    → dispatch_resume k s ≡ done next s'
    → Timely s s'
unfolding dispatch_resume finish_round
dispatch_resume-Timely k s s' next d o h = elim (Bool-cases (is_runnable s.state)) [
  | inl on ↦ next_due-Timely k s s s' next d o (rw on at h)
  | inr off ↦
      restart_return-Timely k none s (record s { dispatching_tasks = false }) s' next o
        (rw off at h)
]

-- A round that ends at once leaves the timer covering the tasks, whatever it was set to before.
pub dispatch_begin-IsCovered :
    (k : Kernel) (s s' : Loop) (next : Option Task)
    → IsSorted s.task_list
    → dispatch_begin k s ≡ done next s'
    → s'.dispatching_tasks ≡ false
    → IsCovered s'
unfolding dispatch_begin
dispatch_begin-IsCovered k s s' next o h q = elim (Bool-cases s.dispatching_tasks) [
  | inl busy ↦ absurd (ground arith)
  | inr idle ↦
      let s₁ = record s { dispatching_tasks = true } in
      (next_due-Timely k s₁ (extract_due k s₁) s' next (extract_due-flag k s₁)
          (extract_due-IsSorted k s₁ o) (rw idle at h)).covers
        q (λ p. cc)
]
