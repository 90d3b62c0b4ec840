-- ===== src/AsyncLoop/Keeps.antt =====
-- Which operations of pkg/async_loop/loop.c leave the task queue, its flag and its timer alone.
use fuchsia_sdk.Base.{
  ℕ, zero, suc, ◌≡◌, refl, Bool, true, false, ◌++◌, ◌∷◌, [], arith, Bool-cases, inl, inr,
}
use fuchsia_sdk.AsyncLoop.Types.{Status, Loop, Kernel, done, tick, is_ok, quit}
use fuchsia_sdk.AsyncLoop.Ops.{
  Call, perform, begin_wait_call, cancel_wait_call, queue_packet_call, set_trap_call, bind_call,
  unbind_call, resume_call, quit_call, reset_quit_call, post_task_call, cancel_task_call,
  begin_wait, cancel_wait, queue_packet, set_guest_bell_trap, bind_exception_port,
  unbind_exception_port, resume_from_exception, quit_loop, reset_quit, wake_threads, key_control,
}

-- The parts of the loop that concern its tasks are the same.
pub record SameTasks (s s' : Loop) : Type 0 where
  pub same_tasks : s'.task_list ≡ s.task_list
  pub same_due : s'.due_list ≡ s.due_list
  pub same_timer : s'.timer ≡ s.timer
  pub same_flag : s'.dispatching_tasks ≡ s.dispatching_tasks

SameTasks-trans : {a b c : Loop} → SameTasks a b → SameTasks b c → SameTasks a c
SameTasks-trans p q = ground arith

pub wake_threads-SameTasks :
    (k : Kernel) (n : ℕ) (s s' : Loop) → wake_threads k n s ≡ done tt s' → SameTasks s s'
unfolding wake_threads
wake_threads-SameTasks k zero s s' h = ground arith
wake_threads-SameTasks k (suc n) s s' h =
    elim (Bool-cases (is_ok (k.port_queue s.syscalls key_control))) [
      | inl sent ↦
          SameTasks-trans {b = record (tick s) { queued = s.queued ++ key_control ∷ [] }}
            (record { same_tasks = refl; same_due = refl; same_timer = refl; same_flag = refl })
            (wake_threads-SameTasks k n (record (tick s) { queued = s.queued ++ key_control ∷ [] })
              s' (ground arith))
      | inr refused ↦ ground arith
    ]

-- The calls that concern no task.
unfoldable pub concerns_tasks : Call → Bool
concerns_tasks (post_task_call t) = true
concerns_tasks (cancel_task_call i) = true
concerns_tasks _ = false

pub perform-SameTasks :
    (k : Kernel) (c : Call) (s s' : Loop) (status : Status)
    → concerns_tasks c ≡ false
    → perform k c s ≡ done status s'
    → SameTasks s s'
unfolding concerns_tasks perform begin_wait cancel_wait queue_packet set_guest_bell_trap
    bind_exception_port unbind_exception_port resume_from_exception quit_loop reset_quit
perform-SameTasks k (begin_wait_call i) s s' status n h = ground arith
perform-SameTasks k (cancel_wait_call i) s s' status n h = ground arith
perform-SameTasks k (queue_packet_call i) s s' status n h = ground arith
perform-SameTasks k (set_trap_call i) s s' status n h = ground arith
perform-SameTasks k (bind_call i) s s' status n h = ground arith
perform-SameTasks k (unbind_call i) s s' status n h = ground arith
perform-SameTasks k (resume_call i) s s' status n h = ground arith
perform-SameTasks k quit_call s s' status n h =
    ground (arith, wake_threads-SameTasks k s.active_threads (record s { state = quit }) s')
perform-SameTasks k reset_quit_call s s' status n h = ground arith
perform-SameTasks k (post_task_call t) s s' status n h = cc
perform-SameTasks k (cancel_task_call i) s s' status n h = cc
