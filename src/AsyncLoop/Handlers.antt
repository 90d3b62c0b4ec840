-- ===== src/AsyncLoop/Handlers.antt =====
-- The handlers that a round of tasks and a shutdown of pkg/async_loop/loop.c call, in order, where
-- the handlers themselves make no calls.
use mathlib.Core.Path.{ap₂}
use fuchsia_sdk.Base.{
  ℕ, zero, suc, ◌+◌, ◌≤◌, ◌≡◌, refl, ◌∙◌, ap, true, false, ◌++◌, ◌∷◌, [], List, map, arith,
  if◌then◌else◌, length, none, some,
}
use fuchsia_sdk.AsyncLoop.Types.{
  ok, Task, Loop, Kernel, done, and_then, return, ◌>>◌, tick, Callback, task_handler, is_runnable,
  is_shutdown, shutdown, runnable,
}
use fuchsia_sdk.AsyncLoop.Ops.{wake_threads, key_control}
use fuchsia_sdk.AsyncLoop.Dispatch.{
  dispatch_begin, dispatch_resume, next_due, finish_round, extract_due,
}
use fuchsia_sdk.AsyncLoop.Tasks.{restart_timer_locked}
use fuchsia_sdk.AsyncLoop.Run.{Client, dispatch_task, dispatch_rounds, dispatch_tasks}
use fuchsia_sdk.AsyncLoop.Drive.{drain, pending, shutdown_loop, join_threads, clear_default}
use fuchsia_sdk.AsyncLoop.Documented.{
  IsDocumented, restart_timer_locked-IsDone, wake_threads-IsDone,
}
use fuchsia_sdk.AsyncLoop.Queue.{IsSorted}
use fuchsia_sdk.AsyncLoop.Due.{owed, kept, extract_due-owed, extract_due-kept}
use fuchsia_sdk.AsyncLoop.Tame.{SameLists, wake_threads-SameLists}
use fuchsia_sdk.AsyncLoop.Total.{
  Ends, Ends-of, Ends-map, and_then-Ends, test-Ends, length-extract_due,
}
use fuchsia_sdk.AsyncLoop.Quiet.{
  IsQuiet, around, logged, with_trace, dispatch-quiet, canceled, drain-quiet,
}

wake_threads-trace :
    (k : Kernel) (n : ℕ) (s s' : Loop) → wake_threads k n s ≡ done tt s' → s'.trace ≡ s.trace
unfolding wake_threads
wake_threads-trace k zero s s' h = ground arith
wake_threads-trace k (suc n) s s' h =
    ground
      (arith, wake_threads-trace k n (record (tick s) { queued = s.queued ++ key_control ∷ [] }) s')

-- What a round has done when it ends: the handlers it has called, and the lists it leaves.
pub record Dispatched (s : Loop) (called : List Callback) (tasks : List Task) (s' : Loop)
    : Type 0 where
  pub handled : s'.trace ≡ logged s.config called s.trace
  pub left : s'.task_list ≡ tasks
  pub none_due : s'.due_list ≡ []

record SameView (s s' : Loop) : Type 0 where
  same_trace : s'.trace ≡ s.trace
  same_tasks : s'.task_list ≡ s.task_list
  same_due : s'.due_list ≡ s.due_list

restart-SameView :
    (k : Kernel) (s s' : Loop) → restart_timer_locked k s ≡ done tt s' → SameView s s'
unfolding restart_timer_locked
restart-SameView k s s' h = ground arith

abbrev pub handlers : List Task → List Callback
handlers = map (λ t. task_handler t.id ok)

-- The extraction of the due tasks reads nothing of the flag, and changes nothing else that a
-- handler or the trace shows.
extract_due-flagged :
    (k : Kernel) (s : Loop)
    → extract_due k (record s { dispatching_tasks = true })
      ≡ record (extract_due k s) { dispatching_tasks = true }
unfolding extract_due
extract_due-flagged k s = ground arith

record SameFrame (s s' : Loop) : Type 0 where
  frame_config : s'.config ≡ s.config
  frame_trace : s'.trace ≡ s.trace
  frame_state : s'.state ≡ s.state

extract_due-SameFrame : (k : Kernel) (s : Loop) → SameFrame s (extract_due k s)
unfolding extract_due
extract_due-SameFrame k s = ground arith

dispatch_begin-idle :
    (k : Kernel) (s : Loop)
    → s.dispatching_tasks ≡ false
    → dispatch_begin k s ≡ next_due k (record (extract_due k s) { dispatching_tasks = true })
unfolding dispatch_begin
dispatch_begin-idle k s q =
    ap
      (λ b.
        if b
        then done none s
        else next_due k (extract_due k (record s { dispatching_tasks = true })))
      q
    ∙ ap (next_due k) (extract_due-flagged k s)

module _ (k : Kernel) (doc : IsDocumented k) (client : Client) (quiet : IsQuiet client) where
  finish_round-SameView : (s : Loop) → Ends (λ o s'. (o ≡ none) × SameView s s') (finish_round k s)
  unfolding finish_round
  finish_round-SameView s =
      let s₁ = record s { dispatching_tasks = false } in
      and_then-Ends (λ _ s'. SameView s₁ s') (λ o s'. (o ≡ none) × SameView s s')
        (restart_timer_locked k s₁) (λ _. return none)
        (Ends-of (λ _ s'. SameView s₁ s') (restart_timer_locked k s₁)
          (restart_timer_locked-IsDone k doc s₁) (λ _ s' e. restart-SameView k s₁ s' e))
        (λ _ s' e. (
          refl,
          record { same_trace = e.same_trace; same_tasks = e.same_tasks; same_due = e.same_due },
        ))

  rounds-Dispatched :
      (l : List Task) (t : Task) (fuel : ℕ) (s : Loop)
      → is_runnable s.state ≡ true
      → length l ≤ fuel
      → Ends
          (λ _ s'. Dispatched s (handlers (t ∷ l)) s.task_list s')
          (dispatch_rounds k client (suc fuel) (some t) (record s { due_list = l }))
  unfolding dispatch_rounds dispatch_task dispatch_resume next_due
  rounds-Dispatched [] t fuel s on h =
      let s₁ = record s { due_list = [] } in
      let s₂ = with_trace s₁ (around s.config (task_handler t.id ok) s.trace) in
      rw (dispatch-quiet k client quiet (task_handler t.id ok) s₁, on)
        (and_then-Ends (λ o s'. (o ≡ none) × SameView s₂ s')
          (λ _ s'. Dispatched s (handlers (t ∷ [])) s.task_list s') (finish_round k s₂)
          (λ o s'. dispatch_rounds k client fuel o s') (finish_round-SameView s₂)
          (λ o s' e.
            rw (e.0) (record {
              handled = e.1.same_trace;
              left = e.1.same_tasks;
              none_due = e.1.same_due;
            })))
  rounds-Dispatched (u ∷ l) t zero s on h = absurd (omega arith)
  rounds-Dispatched (u ∷ l) t (suc fuel) s on h =
      let s₁ = record s { due_list = u ∷ l } in
      let s₂ = with_trace s (around s.config (task_handler t.id ok) s.trace) in
      rw (dispatch-quiet k client quiet (task_handler t.id ok) s₁, on)
        (Ends-map (λ _ s'. Dispatched s₂ (handlers (u ∷ l)) s.task_list s')
          (λ _ s'. Dispatched s (handlers (t ∷ u ∷ l)) s.task_list s')
          (dispatch_rounds k client (suc fuel) (some u) (record s₂ { due_list = l }))
          (rounds-Dispatched l u fuel s₂ on (omega arith))
          (λ _ s' d. record { handled = d.handled; left = d.left; none_due = d.none_due }))

  round_from :
      (due : List Task) (fuel : ℕ) (r : Loop)
      → is_runnable r.state ≡ true
      → length due ≤ suc fuel
      → Ends
          (λ _ s'. Dispatched r (handlers due) r.task_list s')
          (and_then
            (next_due k (record r { due_list = due }))
            (dispatch_rounds k client (suc fuel)))
  unfolding next_due dispatch_rounds
  round_from [] fuel r on h =
      let r₁ = record r { due_list = [] } in
      and_then-Ends (λ o s'. (o ≡ none) × SameView r₁ s') (λ _ s'. Dispatched r [] r.task_list s')
        (finish_round k r₁) (dispatch_rounds k client (suc fuel)) (finish_round-SameView r₁)
        (λ o s' e.
          rw (e.0)
            (record { handled = e.1.same_trace; left = e.1.same_tasks; none_due = e.1.same_due }))
  round_from (t ∷ l) fuel r on h = rounds-Dispatched l t fuel r on (omega arith)

  round_of_extracted :
      (s : Loop)
      → s.state ≡ runnable
      → s.dispatching_tasks ≡ false
      → let s₁ = extract_due k s in
        Ends
          (λ _ s'. Dispatched s (handlers s₁.due_list) s₁.task_list s')
          (dispatch_tasks k client s)
  unfolding dispatch_tasks
  round_of_extracted s on idle =
      let s₁ = extract_due k s in
      let r = record s₁ { dispatching_tasks = true } in
      let same = extract_due-SameFrame k s in
      rw (dispatch_begin-idle k s idle) (
        Ends-map (λ _ s'. Dispatched r (handlers s₁.due_list) s₁.task_list s')
          (λ _ s'. Dispatched s (handlers s₁.due_list) s₁.task_list s')
          (and_then (next_due k r)
            (dispatch_rounds k client (suc (length s.due_list + length s.task_list))))
          (round_from s₁.due_list (length s.due_list + length s.task_list) r (ground arith)
            (omega (arith, length-extract_due k doc s)))
          (λ _ s' d. record {
            handled =
                d.handled
                ∙ ap₂ (λ c l. logged c (handlers s₁.due_list) l) same.frame_config same.frame_trace;
            left = d.left;
            none_due = d.none_due;
          }))

  -- On a kernel that answers as documented and a running loop whose queue is in order and where no
  -- thread dispatches tasks, with handlers that make no calls, a round comes to its end and no task
  -- is left due: it calls the handler of each task it owes a call exactly once, with ZX_OK and in
  -- the order of the lists, each between the two hooks, and no other. It owes a call to the tasks
  -- left due from a round before or, if there are none, to exactly the queued tasks whose deadline
  -- is at most the time that the kernel tells; the other queued tasks stay on the queue.
  pub dispatch_tasks-Dispatched :
      (s : Loop)
      → s.state ≡ runnable
      → s.dispatching_tasks ≡ false
      → IsSorted s.task_list
      → let now = k.now s.syscalls in
        Ends
          (λ _ s'.
            Dispatched s
              (handlers (owed now s.due_list s.task_list))
              (kept now s.due_list s.task_list)
              s')
          (dispatch_tasks k client s)
  dispatch_tasks-Dispatched s on idle sorted =
      let s₁ = extract_due k s in
      let now = k.now s.syscalls in
      Ends-map (λ _ s'. Dispatched s (handlers s₁.due_list) s₁.task_list s')
        (λ _ s'.
          Dispatched s (handlers (owed now s.due_list s.task_list))
            (kept now s.due_list s.task_list) s')
        (dispatch_tasks k client s) (round_of_extracted s on idle)
        (λ _ s' d. record {
          handled =
              d.handled
              ∙ ap (λ l. logged s.config (handlers l) s.trace) (extract_due-owed k s sorted);
          left = d.left ∙ extract_due-kept k s sorted;
          none_due = d.none_due;
        })

  -- On a kernel that answers as documented, shutting down a loop that is not shut down yet, with
  -- handlers that make no calls, comes to its end and calls the
  -- handler of every pending wait, due task, queued task and exception port exactly once, with
  -- ZX_ERR_CANCELED, in this order and each between the two hooks, and calls nothing else.
  pub shutdown_loop-canceled :
      (s : Loop)
      → is_shutdown s.state ≡ false
      → Ends (λ _ s'. s'.trace ≡ logged s.config (canceled s) s.trace) (shutdown_loop k client s)
  unfolding shutdown_loop join_threads
  shutdown_loop-canceled s up =
      let s₁ = record s { state = shutdown } in
      rw up (
        and_then-Ends (λ _ s'. SameLists s₁ s' × (s'.trace ≡ s.trace))
          (λ _ s'. s'.trace ≡ logged s.config (canceled s) s.trace)
          (wake_threads k s.active_threads s₁)
          (λ _. join_threads >> (drain k client (pending s) >> clear_default))
          (Ends-of (λ _ s'. SameLists s₁ s' × (s'.trace ≡ s.trace))
            (wake_threads k s.active_threads s₁) (wake_threads-IsDone k doc s.active_threads s₁)
            (λ _ s' e. (
              wake_threads-SameLists k s.active_threads s₁ s' e,
              wake_threads-trace k s.active_threads s₁ s' e,
            )))
          (λ _ a e.
            let a₁ = record a { thread_list = [] } in
            and_then-Ends (λ _ s'. s'.trace ≡ logged s.config (canceled s) s.trace)
              (λ _ s'. s'.trace ≡ logged s.config (canceled s) s.trace)
              (drain k client (pending s) a₁) (λ _. clear_default)
              (rw (drain-quiet k client quiet (pending s) a₁ (ground arith)) (
                rw (
                  e.0.same_config, e.0.same_waits, e.0.same_due, e.0.same_tasks,
                  e.0.same_exceptions, e.1,
                )))
              (λ _ b f.
                test-Ends (λ _ s'. s'.trace ≡ logged s.config (canceled s) s.trace)
                  b.config.make_default_for_current_thread
                  (done tt (record b { is_default = false })) (done tt b) (λ _. f) (λ _. f))))
