-- ===== src/AsyncLoop/Tasks.antt =====
-- The task queue of pkg/async_loop/loop.c and the timer that wakes the loop for it. Each function
-- is the code that runs while the loop's lock is held, from one lock to the next unlock.
use fuchsia_sdk.Base.{
  ℕ, Bool, false, not, ◌&&◌, ◌||◌, Option, none, some, List, [], ◌∷◌, leb, ltb, ◌==◌, if◌then◌else◌,
}
use mathlib.Core.List.{reverse}
use fuchsia_sdk.AsyncLoop.Types.{
  Status, ok, err_bad_state, err_not_found, is_ok, time_zero, time_infinite, Task, Loop, Kernel,
  is_shutdown, Outcome, done, fault, return, tick, ◌>>◌,
}

-- The scan of `async_loop_insert_task_locked`, from the tail of the queue towards its head: the
-- list given is the queue read backwards.
unfoldable pub insert_from_tail : Task → List Task → List Task
insert_from_tail task [] = task ∷ []
insert_from_tail task (node ∷ rest) =
    if leb node.deadline task.deadline
    then task ∷ node ∷ rest
    else node ∷ insert_from_tail task rest

unfoldable pub insert_task : Task → List Task → List Task
insert_task task l = reverse (insert_from_tail task (reverse l))

-- Whether a task, known by its address, is on a list.
unfoldable pub has_task : ℕ → List Task → Bool
has_task i [] = false
has_task i (t ∷ l) = t.id == i || has_task i l

-- `list_delete` of the node of the task at address i.
unfoldable pub delete_task : ℕ → List Task → List Task
delete_task i [] = []
delete_task i (t ∷ l) = if t.id == i then l else t ∷ delete_task i l

-- `task_to_node(task)->prev == &loop->task_list`.
abbrev pub is_head : ℕ → List Task → Bool
is_head i [] = false
is_head i (t ∷ l) = t.id == i

-- The deadline that `async_loop_restart_timer_locked` sets, or none where it returns early.
unfoldable pub restart_deadline : List Task → List Task → Option ℕ
restart_deadline (d ∷ due) tasks = some time_zero
restart_deadline [] [] = none
restart_deadline [] (t ∷ tasks) = if t.deadline == time_infinite then none else some t.deadline

-- Whether the head task is being canceled and the task that follows has a later deadline.
abbrev pub must_restart : ℕ → List Task → Bool
must_restart i (t ∷ u ∷ l) = t.id == i && ltb t.deadline u.deadline
must_restart i _ = false

module _ (k : Kernel) where
  -- `zx_timer_set`, and the assertion on its status.
  unfoldable pub set_timer : ℕ → Loop → Outcome (Unit {0})
  set_timer d s =
      if is_ok (k.timer_set s.syscalls d)
      then done tt (record (tick s) { timer = some d })
      else fault

  unfoldable pub restart_timer_locked : Loop → Outcome (Unit {0})
  unfolding set_timer restart_deadline
  restart_timer_locked s = elim (restart_deadline s.due_list s.task_list) [
    | none ↦ done tt s
    | some d ↦ set_timer d s
  ]

  unfoldable pub post_task : Task → Loop → Outcome Status
  unfolding insert_task
  post_task task s =
      if is_shutdown s.state
      then done err_bad_state s
      else let s' = record s { task_list = insert_task task s.task_list } in
        if not s'.dispatching_tasks && is_head task.id s'.task_list
        then (restart_timer_locked >> return ok) s'
        else done ok s'

  unfoldable pub cancel_task : ℕ → Loop → Outcome Status
  unfolding has_task delete_task
  cancel_task i s =
      if has_task i s.task_list || has_task i s.due_list
      then (let s' = record s {
        task_list = delete_task i s.task_list;
        due_list = if has_task i s.task_list then s.due_list else delete_task i s.due_list;
      } in
          if not s.dispatching_tasks && must_restart i s.task_list
          then (restart_timer_locked >> return ok) s'
          else done ok s')
      else done err_not_found s
