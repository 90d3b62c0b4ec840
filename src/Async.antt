-- ===== src/Async.antt =====
-- pkg/async/ops.c: the entry points through which clients call a dispatcher, whichever it is.
use fuchsia_sdk.Base.{ℕ, ltb, Option, none, some, if◌then◌else◌}
use fuchsia_sdk.AsyncLoop.Types.{Status, err_not_supported, Task, Loop, Kernel, Outcome}
use fuchsia_sdk.AsyncLoop.Tasks.{post_task, cancel_task}
use fuchsia_sdk.AsyncLoop.Ops.{
  Call, begin_wait_call, cancel_wait_call, cancel_task_call, queue_packet_call, set_trap_call,
  bind_call, unbind_call, resume_call, post_task_call, quit_call, reset_quit_call, begin_wait,
  cancel_wait, queue_packet, set_guest_bell_trap, bind_exception_port, unbind_exception_port,
  resume_from_exception,
}

-- `async_ops_t`: its version and its functions, by the address of the object they are called on. An
-- Action is what a call does.
pub record AsyncOps (Action : Type 0) : Type 0 where
  pub version : ℕ
  pub v1_begin_wait : ℕ → Action
  pub v1_cancel_wait : ℕ → Action
  pub v1_post_task : Task → Action
  pub v1_cancel_task : ℕ → Action
  pub v1_queue_packet : ℕ → Action
  pub v1_set_guest_bell_trap : ℕ → Action
  pub v2_bind_exception_port : ℕ → Action
  pub v2_unbind_exception_port : ℕ → Action
  pub v2_resume_from_exception : ℕ → Action

-- `ASYNC_OPS_V2`.
abbrev pub async_ops_v2 : ℕ
async_ops_v2 = 2

-- The functions of ops.c, of a dispatcher whose calls return a status by `give`. It has none
-- for the two calls of loop.h.
unfoldable pub async_call :
    {Action : Type 0} → AsyncOps Action → (Status → Action) → Call → Option Action
async_call ops give (begin_wait_call i) = some (ops.v1_begin_wait i)
async_call ops give (cancel_wait_call i) = some (ops.v1_cancel_wait i)
async_call ops give (post_task_call t) = some (ops.v1_post_task t)
async_call ops give (cancel_task_call i) = some (ops.v1_cancel_task i)
async_call ops give (queue_packet_call i) = some (ops.v1_queue_packet i)
async_call ops give (set_trap_call i) = some (ops.v1_set_guest_bell_trap i)
async_call ops give (bind_call i) =
    some (
      if ltb ops.version async_ops_v2 then give err_not_supported else ops.v2_bind_exception_port i)
async_call ops give (unbind_call i) = some (
    if ltb ops.version async_ops_v2 then give err_not_supported else ops.v2_unbind_exception_port i)
async_call ops give (resume_call i) = some (
    if ltb ops.version async_ops_v2 then give err_not_supported else ops.v2_resume_from_exception i)
async_call ops give quit_call = none
async_call ops give reset_quit_call = none

-- `async_loop_ops` of pkg/async_loop/loop.c.
unfoldable pub async_loop_ops : Kernel → AsyncOps (Loop → Outcome Status)
async_loop_ops k = record {
  version = async_ops_v2;
  v1_begin_wait = begin_wait k;
  v1_cancel_wait = cancel_wait k;
  v1_post_task = post_task k;
  v1_cancel_task = cancel_task k;
  v1_queue_packet = queue_packet k;
  v1_set_guest_bell_trap = set_guest_bell_trap k;
  v2_bind_exception_port = bind_exception_port k;
  v2_unbind_exception_port = unbind_exception_port k;
  v2_resume_from_exception = resume_from_exception k;
}
