-- ===== src/AsyncLoop/Lifecycle.antt =====
-- The states of the loop of pkg/async_loop/loop.c: how calls and threads may change them.
use fuchsia_sdk.Base.{
  ◌≡◌, refl, ◌∙◌, Bool, true, false, ◌∷◌, [], List, arith, if◌then◌else◌, Bool-cases, inl, inr, ◌⊎◌,
  Option, none,
}
use fuchsia_sdk.AsyncLoop.Types.{
  Status, ok, Task, Loop, Kernel, done, return, ◌>>◌, LoopState, runnable, quit, shutdown,
  is_runnable,
}
use fuchsia_sdk.AsyncLoop.Tasks.{
  restart_timer_locked, post_task, cancel_task, insert_task, delete_task, has_task,
}
use fuchsia_sdk.AsyncLoop.Dispatch.{
  dispatch_begin, dispatch_resume, next_due, finish_round, extract_due,
}
use fuchsia_sdk.AsyncLoop.Ops.{
  Call, perform, begin_wait_call, cancel_wait_call, queue_packet_call, set_trap_call, bind_call,
  unbind_call, resume_call, quit_call, reset_quit_call, post_task_call, cancel_task_call,
  begin_wait, cancel_wait, queue_packet, set_guest_bell_trap, bind_exception_port,
  unbind_exception_port, resume_from_exception, quit_loop, reset_quit,
}
use fuchsia_sdk.AsyncLoop.Tame.{wake_threads-SameLists, restart_timer_locked-SameLists}
use fuchsia_sdk.AsyncLoop.Steps.{
  System, Step, called, entered, waited, expired, begun, resumed, completed, closed, removed_due,
  removed_task, Reach, here, next,
}
use fuchsia_sdk.AsyncLoop.Refine.{and_then-done}

-- How the state may change from one moment to the next.
pub data Moves : LoopState → LoopState → Type 0 where
  stays : {q : LoopState} → Moves q q
  quits : Moves runnable quit
  resets : Moves quit runnable
  shuts : {q : LoopState} → Moves q shutdown

Moves-same : (p q : LoopState) → q ≡ p → Moves p q
Moves-same p q e = rw e stays

restart_return-state :
    {A : Type 0} (k : Kernel) (v r : A) (s s' : Loop)
    → (restart_timer_locked k >> return v) s ≡ done r s'
    → s'.state ≡ s.state
restart_return-state k v r s s' h =
    let (_, a, e, f) = and_then-done (restart_timer_locked k s) (λ _. return v) h in
    ground (arith, restart_timer_locked-SameLists k s a e)

-- The calls that may change the state.
abbrev pub controls : Call → Bool
controls quit_call = true
controls reset_quit_call = true
controls _ = false

perform-state :
    (k : Kernel) (c : Call) (s s' : Loop) (status : Status)
    → controls c ≡ false
    → perform k c s ≡ done status s'
    → s'.state ≡ s.state
unfolding perform begin_wait cancel_wait queue_packet set_guest_bell_trap bind_exception_port
    post_task cancel_task unbind_exception_port resume_from_exception
perform-state k (begin_wait_call i) s s' status r h = ground arith
perform-state k (cancel_wait_call i) s s' status r h = ground arith
perform-state k (queue_packet_call i) s s' status r h = ground arith
perform-state k (set_trap_call i) s s' status r h = ground arith
perform-state k (bind_call i) s s' status r h = ground arith
perform-state k (unbind_call i) s s' status r h = ground arith
perform-state k (resume_call i) s s' status r h = ground arith
perform-state k (post_task_call t) s s' status r h = ground (
  arith,
  restart_timer_locked-SameLists k (record s { task_list = insert_task t s.task_list }) s',
)
perform-state k (cancel_task_call i) s s' status r h = ground (
  arith,
  restart_timer_locked-SameLists k
      (record s {
        task_list = delete_task i s.task_list;
        due_list = if has_task i s.task_list then s.due_list else delete_task i s.due_list;
      })
      s',
)
perform-state k quit_call s s' status r h = cc
perform-state k reset_quit_call s s' status r h = cc

quit_loop-Moves : (k : Kernel) (s s' : Loop) → quit_loop k s ≡ done tt s' → Moves s.state s'.state
unfolding quit_loop
quit_loop-Moves k s s' h = by_state s.state refl
  where
    by_state : (q : LoopState) → s.state ≡ q → Moves q s'.state
    by_state runnable e =
        let w =
          wake_threads-SameLists k s.active_threads (record s { state = quit }) s'
            (rw (e, quit_loop) at h) in
        rw (w.same_state) quits
    by_state quit e = Moves-same quit s'.state (ground arith)
    by_state shutdown e = Moves-same shutdown s'.state (ground arith)

reset_quit-Moves :
    (k : Kernel) (s s' : Loop) (status : Status)
    → reset_quit k s ≡ done status s'
    → Moves s.state s'.state
unfolding reset_quit
reset_quit-Moves k s s' status h = by_state s.state refl
  where
    by_reset : (q : LoopState) → (q ≡ quit) ⊎ (q ≡ runnable) → Moves quit q
    by_reset q (inl e) = Moves-same quit q e
    by_reset q (inr e) = rw e resets

    by_state : (q : LoopState) → s.state ≡ q → Moves q s'.state
    by_state runnable e = Moves-same runnable s'.state (ground arith)
    by_state quit e = by_reset s'.state (ground arith)
    by_state shutdown e = Moves-same shutdown s'.state (ground arith)

perform-Moves :
    (k : Kernel) (c : Call) (s s' : Loop) (status : Status)
    → perform k c s ≡ done status s'
    → Moves s.state s'.state
unfolding perform
perform-Moves k quit_call s s' status h =
    let (_, a, e, r) = and_then-done (quit_loop k s) (λ _. return ok) h in
    let f : s' ≡ a = ground arith in rw f (quit_loop-Moves k s a e)
perform-Moves k reset_quit_call s s' status h = reset_quit-Moves k s s' status h
perform-Moves k c s s' status h = Moves-same s.state s'.state (perform-state k c s s' status refl h)

finish_round-state :
    (k : Kernel) (s s' : Loop) (o : Option Task) → finish_round k s ≡ done o s' → s'.state ≡ s.state
unfolding finish_round
finish_round-state k s s' o h =
    restart_return-state k none o (record s { dispatching_tasks = false }) s' h

next_due-state :
    (k : Kernel) (s s' : Loop) (o : Option Task) → next_due k s ≡ done o s' → s'.state ≡ s.state
unfolding next_due
next_due-state k s s' o h = by_due s.due_list refl
  where
    by_due : (due : List Task) → s.due_list ≡ due → s'.state ≡ s.state
    by_due [] e = finish_round-state k s s' o (rw (e, next_due) at h)
    by_due (t ∷ due) e = ground arith

extract_due-state : (k : Kernel) (s : Loop) → (extract_due k s).state ≡ s.state
unfolding extract_due
extract_due-state k s = ground arith

dispatch-state :
    (k : Kernel) (s s' : Loop) (o : Option Task)
    → (dispatch_begin k s ≡ done o s') ⊎ (dispatch_resume k s ≡ done o s')
    → s'.state ≡ s.state
unfolding dispatch_begin dispatch_resume
dispatch-state k s s' o (inl h) = elim (Bool-cases s.dispatching_tasks) [
  | inl busy ↦ ground arith
  | inr idle ↦
      let s₁ = record s { dispatching_tasks = true } in
      next_due-state k (extract_due k s₁) s' o (rw idle at h) ∙ extract_due-state k s₁
]
dispatch-state k s s' o (inr h) = elim (Bool-cases (is_runnable s.state)) [
  | inl on ↦ next_due-state k s s' o (rw on at h)
  | inr off ↦ finish_round-state k s s' o (rw off at h)
]

-- Every step of every thread changes the state along the diagram: from running to quit and back,
-- and from any state to being shut down.
pub Step-Moves : (k : Kernel) {a b : System} → Step k a b → Moves a.loop.state b.loop.state
Step-Moves k {a} {b} (called c status h f) = perform-Moves k c a.loop b.loop status h
Step-Moves k {a} {b} (entered c h f) = Moves-same a.loop.state b.loop.state (ground arith)
Step-Moves k {a} {b} (waited h f) = Moves-same a.loop.state b.loop.state (ground arith)
Step-Moves k {a} {b} (expired d t h f) = Moves-same a.loop.state b.loop.state (ground arith)
Step-Moves k {a} {b} (begun o f h) =
    Moves-same a.loop.state b.loop.state (dispatch-state k a.loop b.loop o (inl h))
Step-Moves k {a} {b} (resumed o d h f) =
    Moves-same a.loop.state b.loop.state (dispatch-state k a.loop b.loop o (inr h))
Step-Moves k {a} {b} (completed i h f) = Moves-same a.loop.state b.loop.state (ground arith)
Step-Moves k {a} {b} (closed h f) = let e : b.loop.state ≡ shutdown = ground arith in rw e shuts
Step-Moves k {a} {b} (removed_due t l e h f) = Moves-same a.loop.state b.loop.state (ground arith)
Step-Moves k {a} {b} (removed_task t l e h f) = Moves-same a.loop.state b.loop.state (ground arith)

Moves-shutdown : {p q : LoopState} → Moves p q → p ≡ shutdown → q ≡ shutdown
Moves-shutdown stays e = e
Moves-shutdown quits e = cc
Moves-shutdown resets e = cc
Moves-shutdown shuts e = refl

-- Being shut down is final: no interleaving of threads, calls and timers leads out of it.
pub Reach-shutdown :
    (k : Kernel) {a b : System} → Reach k a b → a.loop.state ≡ shutdown → b.loop.state ≡ shutdown
Reach-shutdown k here e = e
Reach-shutdown k (next r st) e = Moves-shutdown (Step-Moves k st) (Reach-shutdown k r e)
