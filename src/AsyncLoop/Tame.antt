-- ===== src/AsyncLoop/Tame.antt =====
-- What client code can and cannot do to the lists of the loop of pkg/async_loop/loop.c.
use fuchsia_sdk.Base.{ℕ, zero, suc, ◌≤◌, ◌≡◌, ◌++◌, ◌∷◌, [], List, arith, if◌then◌else◌, length}
use fuchsia_sdk.AsyncLoop.Types.{Status, Task, Loop, Kernel, done, tick, quit, shutdown}
use fuchsia_sdk.AsyncLoop.Tasks.{
  post_task, cancel_task, delete_task, has_task, insert_task, restart_timer_locked,
}
use fuchsia_sdk.AsyncLoop.Ops.{
  Call, perform, begin_wait_call, cancel_wait_call, queue_packet_call, set_trap_call, bind_call,
  unbind_call, resume_call, quit_call, reset_quit_call, post_task_call, cancel_task_call,
  begin_wait, cancel_wait, queue_packet, set_guest_bell_trap, bind_exception_port,
  unbind_exception_port, resume_from_exception, quit_loop, reset_quit, wake_threads, key_control,
  delete_node,
}

-- The loop stays shut down and no list of it has grown.
pub record Closing (s s' : Loop) : Type 0 where
  pub shut : s'.state ≡ shutdown
  pub waits : length s'.wait_list ≤ length s.wait_list
  pub tasks : length s'.task_list ≤ length s.task_list
  pub exceptions : length s'.exception_list ≤ length s.exception_list

pub record Tame (s s' : Loop) : Type 0 where
  pub due : length s'.due_list ≤ length s.due_list
  pub config_kept : s'.config ≡ s.config
  pub closing : s.state ≡ shutdown → Closing s s'

pub Tame-trans : {a b c : Loop} → Tame a b → Tame b c → Tame a c
Tame-trans {a} {b} {c} p q = record {
  due = omega arith;
  config_kept = ground arith;
  closing = λ e.
      let u = p.closing e in
      let v = q.closing u.shut in
      record { shut = v.shut; waits = omega arith; tasks = omega arith; exceptions = omega arith };
}

length-delete_task : (i : ℕ) (l : List Task) → length (delete_task i l) ≤ length l
unfolding delete_task
length-delete_task i [] = omega arith
length-delete_task i (t ∷ l) = ground (arith, length-delete_task i l)

length-delete_node : (i : ℕ) (l : List ℕ) → length (delete_node i l) ≤ length l
unfolding delete_node
length-delete_node i [] = omega arith
length-delete_node i (j ∷ l) = ground (arith, length-delete_node i l)

-- The fields that neither restarting the timer nor waking threads touches.
pub record SameLists (s s' : Loop) : Type 0 where
  pub same_state : s'.state ≡ s.state
  pub same_config : s'.config ≡ s.config
  pub same_waits : s'.wait_list ≡ s.wait_list
  pub same_tasks : s'.task_list ≡ s.task_list
  pub same_due : s'.due_list ≡ s.due_list
  pub same_exceptions : s'.exception_list ≡ s.exception_list

pub restart_timer_locked-SameLists :
    (k : Kernel) (s s' : Loop) → restart_timer_locked k s ≡ done tt s' → SameLists s s'
unfolding restart_timer_locked
restart_timer_locked-SameLists k s s' h = ground arith

pub wake_threads-SameLists :
    (k : Kernel) (n : ℕ) (s s' : Loop) → wake_threads k n s ≡ done tt s' → SameLists s s'
unfolding wake_threads
wake_threads-SameLists k zero s s' h = ground arith
wake_threads-SameLists k (suc n) s s' h = ground (
  arith,
  wake_threads-SameLists k n (record (tick s) { queued = s.queued ++ key_control ∷ [] }) s',
)

Tame-same : {s s' : Loop} → SameLists s s' → Tame s s'
Tame-same {s} {s'} e = record {
  due = ground arith;
  config_kept = e.same_config;
  closing = λ q. record {
    shut = ground arith;
    waits = ground arith;
    tasks = ground arith;
    exceptions = ground arith;
  };
}

post_task-Tame :
    (k : Kernel) (t : Task) (s s' : Loop) (status : Status)
    → post_task k t s ≡ done status s'
    → Tame s s'
unfolding post_task
post_task-Tame k t s s' status h = ground (
  arith,
  restart_timer_locked-SameLists k (record s { task_list = insert_task t s.task_list }) s',
)

cancel_task-Tame :
    (k : Kernel) (i : ℕ) (s s' : Loop) (status : Status)
    → cancel_task k i s ≡ done status s'
    → Tame s s'
unfolding cancel_task
cancel_task-Tame k i s s' status h = ground (
  arith,
  length-delete_task i s.task_list,
  length-delete_task i s.due_list,
  restart_timer_locked-SameLists k
      (record s {
        task_list = delete_task i s.task_list;
        due_list = if has_task i s.task_list then s.due_list else delete_task i s.due_list;
      })
      s',
)

-- Every call is tame.
pub perform-Tame :
    (k : Kernel) (c : Call) (s s' : Loop) (status : Status)
    → perform k c s ≡ done status s'
    → Tame s s'
unfolding perform begin_wait cancel_wait queue_packet set_guest_bell_trap bind_exception_port
    unbind_exception_port resume_from_exception quit_loop reset_quit
perform-Tame k (begin_wait_call i) s s' status h = ground arith
perform-Tame k (cancel_wait_call i) s s' status h = ground (arith, length-delete_node i s.wait_list)
perform-Tame k (queue_packet_call i) s s' status h = ground arith
perform-Tame k (set_trap_call i) s s' status h = ground arith
perform-Tame k (bind_call i) s s' status h = ground arith
perform-Tame k (unbind_call i) s s' status h = ground (arith, length-delete_node i s.exception_list)
perform-Tame k (resume_call i) s s' status h = ground arith
perform-Tame k quit_call s s' status h =
    ground (arith, wake_threads-SameLists k s.active_threads (record s { state = quit }) s')
perform-Tame k reset_quit_call s s' status h = ground arith
perform-Tame k (post_task_call t) s s' status h = post_task-Tame k t s s' status h
perform-Tame k (cancel_task_call i) s s' status h = cancel_task-Tame k i s s' status h
