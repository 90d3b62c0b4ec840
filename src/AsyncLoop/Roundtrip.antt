-- ===== src/AsyncLoop/Roundtrip.antt =====
-- Posting a task on the loop of pkg/async_loop/loop.c and canceling it again.
use fuchsia_sdk.Base.{
  ℕ, ◌≡◌, refl, ◌∙◌, ap, true, false, ◌||◌, List, [], ◌∷◌, ◌++◌, arith, if◌then◌else◌,
}
use fuchsia_sdk.AsyncLoop.Types.{Status, ok, Task, Loop, Kernel, done, is_shutdown}
use fuchsia_sdk.AsyncLoop.Tasks.{insert_task, delete_task, has_task, post_task, cancel_task}
use fuchsia_sdk.AsyncLoop.Dispatch.{split_due}
use fuchsia_sdk.AsyncLoop.Queue.{IsSorted, insert_task_lem, split_due-append}
use fuchsia_sdk.AsyncLoop.Tame.{restart_timer_locked-SameLists}

delete_task-middle :
    (t : Task) (a b : List Task) → has_task t.id a ≡ false → delete_task t.id (a ++ t ∷ b) ≡ a ++ b
unfolding delete_task has_task
delete_task-middle t [] b h = ground arith
delete_task-middle t (u ∷ a) b h = ground (arith, delete_task-middle t a b)

has_task-append : (i : ℕ) (a b : List Task) → has_task i (a ++ b) ≡ has_task i a || has_task i b
unfolding has_task
has_task-append i [] b = refl
has_task-append i (u ∷ a) b = ground (arith, has_task-append i a b)

has_task-first :
    (i : ℕ) (a b l : List Task) → a ++ b ≡ l → has_task i l ≡ false → has_task i a ≡ false
has_task-first i a b l e h =
    let g : has_task i (a ++ b) ≡ false = rw e h in ground (arith, has_task-append i a b)

-- Taking a task off the queue that it was just put on gives the queue back.
pub delete-insert :
    (t : Task) (l : List Task)
    → IsSorted l
    → has_task t.id l ≡ false
    → delete_task t.id (insert_task t l) ≡ l
delete-insert t l o h =
    let d = split_due t.deadline l in
    rw (insert_task_lem t l o) (
      delete_task-middle t d.0 d.1 (has_task-first t.id d.0 d.1 l (split_due-append t.deadline l) h)
      ∙ split_due-append t.deadline l)

has_task_self : (t : Task) (b : List Task) → has_task t.id (t ∷ b) ≡ true
unfolding has_task
has_task_self t b = ground arith

has_task-insert : (t : Task) (l : List Task) → IsSorted l → has_task t.id (insert_task t l) ≡ true
has_task-insert t l o =
    let d = split_due t.deadline l in
    rw (insert_task_lem t l o)
      (ground (arith, has_task-append t.id d.0 (t ∷ d.1), has_task_self t d.1))

post_task-lists :
    (k : Kernel) (t : Task) (s s' : Loop) (status : Status)
    → is_shutdown s.state ≡ false
    → post_task k t s ≡ done status s'
    → (s'.task_list ≡ insert_task t s.task_list) × (s'.due_list ≡ s.due_list) × (status ≡ ok)
unfolding post_task
post_task-lists k t s s' status up h = ground (
  arith,
  restart_timer_locked-SameLists k (record s { task_list = insert_task t s.task_list }) s',
)

cancel_task-lists :
    (k : Kernel) (i : ℕ) (s s' : Loop) (status : Status)
    → has_task i s.task_list ≡ true
    → cancel_task k i s ≡ done status s'
    → (s'.task_list ≡ delete_task i s.task_list) × (s'.due_list ≡ s.due_list) × (status ≡ ok)
unfolding cancel_task
cancel_task-lists k i s s' status there h = ground (
  arith,
  restart_timer_locked-SameLists k
      (record s {
        task_list = delete_task i s.task_list;
        due_list = if has_task i s.task_list then s.due_list else delete_task i s.due_list;
      })
      s',
)

-- On a loop that is not shut down, whose queue is in order and does not hold the task: posting the
-- task and then canceling it both return ZX_OK, and leave the queue and the due list as they were.
pub cancel-post :
    (k : Kernel) (t : Task) (s s₁ s₂ : Loop) (first second : Status)
    → is_shutdown s.state ≡ false
    → IsSorted s.task_list
    → has_task t.id s.task_list ≡ false
    → post_task k t s ≡ done first s₁
    → cancel_task k t.id s₁ ≡ done second s₂
    → (first ≡ ok) × (second ≡ ok) × (s₂.task_list ≡ s.task_list) × (s₂.due_list ≡ s.due_list)
cancel-post k t s s₁ s₂ first second up o new p c =
    let (tasks, due, posted) = post_task-lists k t s s₁ first up p in
    let (tasks', due', canceled) =
      cancel_task-lists k t.id s₁ s₂ second (rw tasks (has_task-insert t s.task_list o)) c in
    (
      posted,
      canceled,
      tasks' ∙ ap (delete_task t.id) tasks ∙ delete-insert t s.task_list o new,
      due' ∙ due,
    )
