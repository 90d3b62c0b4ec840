-- ===== src/AsyncLoop/Documented.antt =====
-- The kernel as its documentation has it, and the assertions of pkg/async_loop/loop.c on what it
-- answers.
use fuchsia_sdk.Base.{
  not, ◌&&◌, ◌||◌, ◌==◌, ℕ, zero, suc, ◌≡◌, refl, ◌⊎◌, inl, inr, true, ◌++◌, ◌∷◌, [], Option, none,
  some, if◌then◌else◌, Bool-cases,
}
use fuchsia_sdk.AsyncLoop.Types.{
  Status, err_bad_state, is_shutdown, ok, err_access_denied, err_not_found, Task, Loop, Kernel,
  Outcome, done, and_then, fault, out_of_fuel, return, tick, is_ok, ◌>>◌, LoopState, runnable, quit,
  shutdown,
}
use fuchsia_sdk.AsyncLoop.Tasks.{
  restart_timer_locked, set_timer, restart_deadline, post_task, cancel_task, insert_task,
  delete_task, has_task, is_head, must_restart,
}
use fuchsia_sdk.AsyncLoop.Ops.{
  Call, perform, begin_wait_call, cancel_wait_call, queue_packet_call, set_trap_call, bind_call,
  unbind_call, resume_call, quit_call, reset_quit_call, post_task_call, cancel_task_call,
  begin_wait, cancel_wait, queue_packet, set_guest_bell_trap, bind_exception_port,
  unbind_exception_port, resume_from_exception, quit_loop, reset_quit, wake_threads, has_node,
  key_control, set_trap_asserted,
}

-- The statuses that the documentation of these system calls leaves open for the loop's use of them.
pub record IsDocumented (k : Kernel) : Type 0 where
  pub timer_set_ok : (n d : ℕ) → k.timer_set n d ≡ ok
  pub control_queued : (n : ℕ) → k.port_queue n key_control ≡ ok
  pub wait_async_answers :
      (n i : ℕ) → (k.wait_async n i ≡ ok) ⊎ (k.wait_async n i ≡ err_access_denied)
  pub port_cancel_answers :
      (n i : ℕ) → (k.port_cancel n i ≡ ok) ⊎ (k.port_cancel n i ≡ err_not_found)
  pub set_trap_answers : (n i : ℕ) → set_trap_asserted (k.set_trap n i) ≡ true

-- The operation comes to its end.
abbrev pub IsDone : {A : Type 0} → Outcome A → Type 0
IsDone (done a s) = Unit
IsDone fault = ⊥
IsDone out_of_fuel = ⊥

pub and_then-IsDone :
    {A B : Type 0} (o : Outcome A) (f : A → Loop → Outcome B)
    → IsDone o
    → ((a : A) (s : Loop) → o ≡ done a s → IsDone (f a s))
    → IsDone (and_then o f)
and_then-IsDone (done a s) f i h = h a s refl
and_then-IsDone fault f i h = absurd i
and_then-IsDone out_of_fuel f i h = absurd i

module _ (k : Kernel) (doc : IsDocumented k) where
  pub restart_timer_locked-IsDone : (s : Loop) → IsDone (restart_timer_locked k s)
  unfolding restart_timer_locked
  restart_timer_locked-IsDone s = by_deadline (restart_deadline s.due_list s.task_list) refl
    where
      by_deadline :
          (d : Option ℕ)
          → restart_deadline s.due_list s.task_list ≡ d
          → IsDone (restart_timer_locked k s)
      by_deadline none e = rw (e, restart_timer_locked) tt
      by_deadline (some d) e =
          rw (e, restart_timer_locked, doc.timer_set_ok s.syscalls d, set_timer) tt

  pub restart_return-IsDone :
      {A : Type 0} (v : A) (s : Loop) → IsDone ((restart_timer_locked k >> return v) s)
  restart_return-IsDone v s =
      and_then-IsDone (restart_timer_locked k s) (λ _. return v) (restart_timer_locked-IsDone s)
        (λ _ _ _. tt)

  pub wake_threads-IsDone : (n : ℕ) (s : Loop) → IsDone (wake_threads k n s)
  unfolding wake_threads
  wake_threads-IsDone zero s = tt
  wake_threads-IsDone (suc n) s =
      rw (doc.control_queued s.syscalls)
        (wake_threads-IsDone n (record (tick s) { queued = s.queued ++ key_control ∷ [] }))

  begin_wait-IsDone : (i : ℕ) (s : Loop) → IsDone (begin_wait k i s)
  unfolding begin_wait
  begin_wait-IsDone i s = elim (Bool-cases (is_shutdown s.state)) [
    | inl down ↦ rw down tt
    | inr up ↦ elim (doc.wait_async_answers s.syscalls i) [
      | inl good ↦ rw (up, good) tt
      | inr denied ↦ rw (up, denied) tt
    ]
  ]

  cancel_wait-IsDone : (i : ℕ) (s : Loop) → IsDone (cancel_wait k i s)
  unfolding cancel_wait
  cancel_wait-IsDone i s = elim (Bool-cases (has_node i s.wait_list)) [
    | inr absent ↦ rw absent tt
    | inl there ↦ elim (doc.port_cancel_answers s.syscalls i) [
      | inl good ↦ rw (there, good) tt
      | inr lost ↦ rw (there, lost) tt
    ]
  ]

  set_guest_bell_trap-IsDone : (i : ℕ) (s : Loop) → IsDone (set_guest_bell_trap k i s)
  unfolding set_guest_bell_trap
  set_guest_bell_trap-IsDone i s = elim (Bool-cases (is_shutdown s.state)) [
    | inl down ↦ rw down tt
    | inr up ↦ rw (up, doc.set_trap_answers s.syscalls i) tt
  ]

  quit_loop-IsDone : (s : Loop) → IsDone (quit_loop k s)
  unfolding quit_loop
  quit_loop-IsDone s = by_state s.state refl
    where
      by_state : (q : LoopState) → s.state ≡ q → IsDone (quit_loop k s)
      by_state runnable e =
          rw (e, quit_loop) (wake_threads-IsDone s.active_threads (record s { state = quit }))
      by_state quit e = rw (e, quit_loop) tt
      by_state shutdown e = rw (e, quit_loop) tt

  reset_quit-IsDone : (s : Loop) → IsDone (reset_quit k s)
  unfolding reset_quit
  reset_quit-IsDone s = elim (Bool-cases (s.active_threads == 0)) [
    | inr busy ↦ rw busy tt
    | inl idle ↦ rw idle (by_state s.state)
  ]
    where
      by_state :
          (q : LoopState)
          → IsDone {A = Status} (elim q [
            | runnable ↦ done ok s
            | quit ↦ done ok (record s { state = runnable })
            | shutdown ↦ done err_bad_state s
          ])
      by_state runnable = tt
      by_state quit = tt
      by_state shutdown = tt

  cancel_task-IsDone : (i : ℕ) (s : Loop) → IsDone (cancel_task k i s)
  unfolding cancel_task
  cancel_task-IsDone i s = elim (Bool-cases (has_task i s.task_list || has_task i s.due_list)) [
    | inr absent ↦ rw absent tt
    | inl there ↦ elim (Bool-cases (not s.dispatching_tasks && must_restart i s.task_list)) [
      | inr kept ↦ rw (there, kept) tt
      | inl moved ↦
          rw (there, moved)
            (restart_return-IsDone ok (record s {
              task_list = delete_task i s.task_list;
              due_list = if has_task i s.task_list then s.due_list else delete_task i s.due_list;
            }))
    ]
  ]

  post_task-IsDone : (t : Task) (s : Loop) → IsDone (post_task k t s)
  unfolding post_task
  post_task-IsDone t s = elim (Bool-cases (is_shutdown s.state)) [
    | inl down ↦ rw down tt
    | inr up ↦
        let s₁ = record s { task_list = insert_task t s.task_list } in
        elim (Bool-cases (not s.dispatching_tasks && is_head t.id s₁.task_list)) [
          | inr behind ↦ rw (up, behind) tt
          | inl first ↦ rw (up, first) (restart_return-IsDone ok s₁)
        ]
  ]

  -- On a kernel that answers as documented, every operation comes to its end: no assertion fails.
  pub perform-IsDone : (c : Call) (s : Loop) → IsDone (perform k c s)
  unfolding perform queue_packet bind_exception_port unbind_exception_port resume_from_exception
  perform-IsDone (begin_wait_call i) s = begin_wait-IsDone i s
  perform-IsDone (cancel_wait_call i) s = cancel_wait-IsDone i s
  perform-IsDone (cancel_task_call i) s = cancel_task-IsDone i s
  perform-IsDone (queue_packet_call i) s = elim (Bool-cases (is_shutdown s.state)) [
    | inl down ↦ rw down tt
    | inr up ↦ elim (Bool-cases (is_ok (k.port_queue s.syscalls i))) [
      | inl good ↦ rw (up, good) tt
      | inr bad ↦ rw (up, bad) tt
    ]
  ]
  perform-IsDone (set_trap_call i) s = set_guest_bell_trap-IsDone i s
  perform-IsDone (bind_call i) s = elim (Bool-cases (is_shutdown s.state)) [
    | inl down ↦ rw down tt
    | inr up ↦ elim (Bool-cases (is_ok (k.bind_exception_port s.syscalls i))) [
      | inl good ↦ rw (up, good) tt
      | inr bad ↦ rw (up, bad) tt
    ]
  ]
  perform-IsDone (unbind_call i) s = elim (Bool-cases (has_node i s.exception_list)) [
    | inr absent ↦ rw absent tt
    | inl there ↦ elim (Bool-cases (is_ok (k.unbind_exception_port s.syscalls i))) [
      | inl good ↦ rw (there, good) tt
      | inr bad ↦ rw (there, bad) tt
    ]
  ]
  perform-IsDone (resume_call i) s = elim (Bool-cases (is_shutdown s.state)) [
    | inl down ↦ rw down tt
    | inr up ↦ rw up tt
  ]
  perform-IsDone (post_task_call t) s = post_task-IsDone t s
  perform-IsDone quit_call s =
      and_then-IsDone (quit_loop k s) (λ _. return ok) (quit_loop-IsDone s) (λ _ _ _. tt)
  perform-IsDone reset_quit_call s = reset_quit-IsDone s
