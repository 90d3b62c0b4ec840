-- ===== src/AsyncLoop/Dispatch.antt =====
-- `async_loop_dispatch_tasks` of pkg/async_loop/loop.c, cut at the points where it lets go of the
-- loop's lock: `dispatch_begin` runs up to the first handler, `dispatch_resume` from the end of a
-- handler up to the next one. Each returns the task to dispatch, or none at the end of the round.
use fuchsia_sdk.Base.{ℕ, true, false, Option, none, some, List, [], ◌∷◌, ltb, if◌then◌else◌}
use fuchsia_sdk.AsyncLoop.Types.{Task, Loop, Kernel, is_runnable, Outcome, done, return, tick, ◌>>◌}
use fuchsia_sdk.AsyncLoop.Tasks.{restart_timer_locked}

-- The tasks up to the first one whose deadline is later than `due_time`, and the others.
unfoldable pub split_due : ℕ → List Task → List Task × List Task
split_due due_time [] = ([], [])
split_due due_time (t ∷ l) =
    let (due, later) = split_due due_time l in
    if ltb due_time t.deadline then ([], t ∷ l) else (t ∷ due, later)

-- Nothing is extracted while due tasks are left from a round before.
unfoldable pub extract_due : Kernel → Loop → Loop
extract_due k s = elim s.due_list [
  | [] ↦
      let (due, later) = split_due (k.now s.syscalls) s.task_list in
      record (tick s) { due_list = due; task_list = later }
  | _ ↦ s
]

module _ (k : Kernel) where
  unfoldable pub finish_round : Loop → Outcome (Option Task)
  finish_round s = (restart_timer_locked k >> return none) (record s { dispatching_tasks = false })

  -- `list_remove_head(&loop->due_list)`, the test of the `while`.
  unfoldable pub next_due : Loop → Outcome (Option Task)
  next_due s = elim s.due_list [
    | [] ↦ finish_round s
    | t ∷ l ↦ done (some t) (record s { due_list = l })
  ]

  unfoldable pub dispatch_begin : Loop → Outcome (Option Task)
  dispatch_begin s =
      if s.dispatching_tasks
      then done none s
      else next_due (extract_due k (record s { dispatching_tasks = true }))

  unfoldable pub dispatch_resume : Loop → Outcome (Option Task)
  dispatch_resume s = if is_runnable s.state then next_due s else finish_round s
