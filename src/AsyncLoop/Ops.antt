-- ===== src/AsyncLoop/Ops.antt =====
-- The operations of `async_loop_ops` other than those on tasks, the states of the loop, and the
-- programs that handlers are.
use fuchsia_sdk.Base.{
  ℕ, zero, suc, Bool, true, false, ◌||◌, List, [], ◌∷◌, ◌++◌, ◌==◌, if◌then◌else◌,
}
use fuchsia_sdk.AsyncLoop.Types.{
  Status, ok, err_bad_state, err_not_found, err_access_denied, err_already_exists, err_invalid_args,
  err_out_of_range, err_wrong_type, is_ok, Task, Loop, Kernel, runnable, quit, shutdown,
  is_shutdown, Outcome, done, and_then, fault, return, tick, ◌>>◌,
}
use fuchsia_sdk.AsyncLoop.Tasks.{post_task, cancel_task}

-- `list_in_list` of the node of the object at address i.
unfoldable pub has_node : ℕ → List ℕ → Bool
has_node i [] = false
has_node i (j ∷ l) = j == i || has_node i l

-- `list_delete` of that node.
unfoldable pub delete_node : ℕ → List ℕ → List ℕ
delete_node i [] = []
delete_node i (j ∷ l) = if j == i then l else j ∷ delete_node i l

-- The assertions on what the kernel answered.
abbrev pub wait_async_asserted : Status → Bool
wait_async_asserted err_access_denied = true
wait_async_asserted _ = false

abbrev pub port_cancel_asserted : Status → Bool
port_cancel_asserted err_not_found = true
port_cancel_asserted _ = false

abbrev pub set_trap_asserted : Status → Bool
set_trap_asserted ok = true
set_trap_asserted err_access_denied = true
set_trap_asserted err_already_exists = true
set_trap_asserted err_invalid_args = true
set_trap_asserted err_out_of_range = true
set_trap_asserted err_wrong_type = true
set_trap_asserted _ = false

-- `KEY_CONTROL`.
abbrev pub key_control : ℕ
key_control = 0

-- The loop of `async_loop_wake_threads`: n control packets.
unfoldable pub wake_threads : Kernel → ℕ → Loop → Outcome (Unit {0})
wake_threads k zero s = done tt s
wake_threads k (suc n) s =
    let rest = wake_threads k n (record (tick s) { queued = s.queued ++ key_control ∷ [] }) in
    if is_ok (k.port_queue s.syscalls key_control) then rest else fault

module _ (k : Kernel) where
  unfoldable pub begin_wait : ℕ → Loop → Outcome Status
  begin_wait i s =
      if is_shutdown s.state
      then done err_bad_state s
      else let status = k.wait_async s.syscalls i in
        if is_ok status
        then done status (record (tick s) { wait_list = i ∷ s.wait_list })
        else if wait_async_asserted status
        then done status (tick s)
        else fault

  unfoldable pub cancel_wait : ℕ → Loop → Outcome Status
  cancel_wait i s =
      let status = k.port_cancel s.syscalls i in
      if has_node i s.wait_list
      then (if is_ok status
          then done status (record (tick s) { wait_list = delete_node i s.wait_list })
          else if port_cancel_asserted status
          then done status (tick s)
          else fault)
      else done err_not_found s

  unfoldable pub queue_packet : ℕ → Loop → Outcome Status
  queue_packet i s =
      let status = k.port_queue s.syscalls i in
      if is_shutdown s.state
      then done err_bad_state s
      else (if is_ok status
          then done status (record (tick s) { queued = s.queued ++ i ∷ [] })
          else done status (tick s))

  unfoldable pub set_guest_bell_trap : ℕ → Loop → Outcome Status
  set_guest_bell_trap i s =
      let status = k.set_trap s.syscalls i in
      if is_shutdown s.state
      then done err_bad_state s
      else if set_trap_asserted status
      then done status (tick s)
      else fault

  unfoldable pub bind_exception_port : ℕ → Loop → Outcome Status
  bind_exception_port i s =
      let status = k.bind_exception_port s.syscalls i in
      if is_shutdown s.state
      then done err_bad_state s
      else (if is_ok status
          then done status (record (tick s) { exception_list = i ∷ s.exception_list })
          else done status (tick s))

  unfoldable pub unbind_exception_port : ℕ → Loop → Outcome Status
  unbind_exception_port i s =
      let status = k.unbind_exception_port s.syscalls i in
      if has_node i s.exception_list
      then (if is_ok status
          then done status (record (tick s) { exception_list = delete_node i s.exception_list })
          else done status (tick s))
      else done err_not_found s

  unfoldable pub resume_from_exception : ℕ → Loop → Outcome Status
  resume_from_exception i s =
      if is_shutdown s.state
      then done err_bad_state s
      else done (k.resume_from_exception s.syscalls i) (tick s)

  -- The compare-and-exchange of `async_loop_quit` succeeds from RUNNABLE only.
  unfoldable pub quit_loop : Loop → Outcome (Unit {0})
  quit_loop s = elim s.state [
    | runnable ↦ wake_threads k s.active_threads (record s { state = quit })
    | quit ↦ done tt s
    | shutdown ↦ done tt s
  ]

  unfoldable pub reset_quit : Loop → Outcome Status
  reset_quit s =
      if s.active_threads == 0
      then elim s.state [
        | runnable ↦ done ok s
        | quit ↦ done ok (record s { state = runnable })
        | shutdown ↦ done err_bad_state s
      ]
      else done err_bad_state s

-- What client code asks of its loop.
pub data Call : Type 0 where
  begin_wait_call cancel_wait_call cancel_task_call queue_packet_call set_trap_call : ℕ → Call
  bind_call unbind_call resume_call : ℕ → Call
  post_task_call : Task → Call
  quit_call reset_quit_call : Call

-- `async_loop_ops`, with the two functions of loop.h that client code may call in a handler.
unfoldable pub perform : Kernel → Call → Loop → Outcome Status
perform k (begin_wait_call i) s = begin_wait k i s
perform k (cancel_wait_call i) s = cancel_wait k i s
perform k (cancel_task_call i) s = cancel_task k i s
perform k (queue_packet_call i) s = queue_packet k i s
perform k (set_trap_call i) s = set_guest_bell_trap k i s
perform k (bind_call i) s = bind_exception_port k i s
perform k (unbind_call i) s = unbind_exception_port k i s
perform k (resume_call i) s = resume_from_exception k i s
perform k (post_task_call t) s = post_task k t s
perform k quit_call s = (quit_loop k >> return ok) s
perform k reset_quit_call s = reset_quit k s

-- A handler's body: the calls that it makes, each chosen by the answers to those before it.
pub data Script : Type 0 where
  end : Script
  call : Call → (Status → Script) → Script

unfoldable pub run_script : Kernel → Script → Loop → Outcome (Unit {0})
run_script k end s = done tt s
run_script k (call c next) s = and_then (perform k c s) λ status s'. run_script k (next status) s'
