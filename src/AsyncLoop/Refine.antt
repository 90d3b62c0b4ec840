-- ===== src/AsyncLoop/Refine.antt =====
-- The functions of pkg/async_loop/loop.c beside the steps of AsyncLoop/Steps.
use fuchsia_sdk.Base.{
  ℕ, zero, suc, ◌≡◌, refl, ◌∙◌, Bool, true, false, Option, none, some, List, [], ◌∷◌, arith,
  Bool-cases, inl, inr, if◌then◌else◌, length, ◌+◌,
}
use fuchsia_sdk.AsyncLoop.Types.{
  Status, ok, Task, Loop, Kernel, Callback, Outcome, done, and_then, fault, out_of_fuel, return,
  ◌>>◌, task_handler, is_runnable,
}
use fuchsia_sdk.AsyncLoop.Tasks.{
  restart_timer_locked, post_task, cancel_task, insert_task, delete_task, has_task,
}
use fuchsia_sdk.AsyncLoop.Dispatch.{
  dispatch_begin, dispatch_resume, next_due, finish_round, extract_due,
}
use fuchsia_sdk.AsyncLoop.Ops.{
  Call, perform, Script, end, call, run_script, post_task_call, cancel_task_call,
}
use fuchsia_sdk.AsyncLoop.Run.{
  Client, invoke, invoke_prologue, invoke_epilogue, dispatch, dispatch_task, dispatch_rounds,
  dispatch_tasks,
}
use fuchsia_sdk.AsyncLoop.Keeps.{perform-SameTasks, concerns_tasks}
use fuchsia_sdk.AsyncLoop.Steps.{System, called, entered, begun, resumed, Reach, here, next}

pub Reach-trans : {k : Kernel} {a b c : System} → Reach k a b → Reach k b c → Reach k a c
Reach-trans p here = p
Reach-trans p (next q st) = next (Reach-trans p q) st

abbrev pub at_loop : Loop → ℕ → System
at_loop s n = record { loop = s; fired = n }

-- A sequence that came to its end: its first part did, and the rest from there.
pub and_then-done :
    {A B : Type 0} (o : Outcome A) (f : A → Loop → Outcome B) {b : B} {s' : Loop}
    → and_then o f ≡ done b s'
    → (a : A) × (t : Loop) × (o ≡ done a t) × (f a t ≡ done b s')
and_then-done (done a t) f h = (a, t, refl, h)
and_then-done fault f h = cc
and_then-done out_of_fuel f h = cc

restart_flag :
    (k : Kernel) (s s' : Loop)
    → restart_timer_locked k s ≡ done tt s'
    → s'.dispatching_tasks ≡ s.dispatching_tasks
unfolding restart_timer_locked
restart_flag k s s' h = ground arith

-- No call changes the flag of the thread that dispatches.
perform-flag :
    (k : Kernel) (c : Call) (s s' : Loop) (status : Status)
    → perform k c s ≡ done status s'
    → s'.dispatching_tasks ≡ s.dispatching_tasks
unfolding perform post_task cancel_task
perform-flag k (post_task_call t) s s' status h =
    ground (arith, restart_flag k (record s { task_list = insert_task t s.task_list }) s')
perform-flag k (cancel_task_call i) s s' status h = ground (
  arith,
  restart_flag k
      (record s {
        task_list = delete_task i s.task_list;
        due_list = if has_task i s.task_list then s.due_list else delete_task i s.due_list;
      })
      s',
)
perform-flag k c s s' status h =
    (perform-SameTasks k c s s' status (unfold concerns_tasks in refl) h).same_flag

-- What a part of the code amounts to: steps, and the same flag.
pub record Steps (k : Kernel) (s s' : Loop) : Type 0 where
  pub reach : (n : ℕ) → Reach k (at_loop s n) (at_loop s' n)
  pub flag : s'.dispatching_tasks ≡ s.dispatching_tasks

Steps-refl : (k : Kernel) (s : Loop) → Steps k s s
Steps-refl k s = record { reach = λ n. here; flag = refl }

Steps-trans : {k : Kernel} {a b c : Loop} → Steps k a b → Steps k b c → Steps k a c
Steps-trans p q = record {
  reach = λ n. Reach-trans (p.reach n) (q.reach n);
  flag = q.flag ∙ p.flag;
}

module _ (k : Kernel) where
  run_script-Steps : (p : Script) (s s' : Loop) → run_script k p s ≡ done tt s' → Steps k s s'
  unfolding run_script
  run_script-Steps end s s' h = let e : s ≡ s' = ground arith in rw (← e) (Steps-refl k s)
  run_script-Steps (call c more) s s' h =
      let (status, t, e, r) =
        and_then-done (perform k c s) (λ status t. run_script k (more status) t) h in
      Steps-trans
        (record {
          reach = λ n. next here (called c status e refl);
          flag = perform-flag k c s t status e;
        })
        (run_script-Steps (more status) t s' r)

  module _ (client : Client) where
    invoke-Steps : (c : Callback) (s s' : Loop) → invoke k client c s ≡ done tt s' → Steps k s s'
    unfolding invoke
    invoke-Steps c s s' h =
        Steps-trans (record { reach = λ n. next here (entered c refl refl); flag = refl })
          (run_script-Steps (client c s) (record s { trace = c ∷ s.trace }) s' h)

    hook-Steps :
        (b : Bool) (c : Callback) (s s' : Loop)
        → (if b then invoke k client c s else done tt s) ≡ done tt s'
        → Steps k s s'
    hook-Steps true c s s' h = invoke-Steps c s s' h
    hook-Steps false c s s' h = let e : s ≡ s' = ground arith in rw (← e) (Steps-refl k s)

    pub dispatch-Steps :
        (c : Callback) (s s' : Loop) → dispatch k client c s ≡ done tt s' → Steps k s s'
    unfolding dispatch invoke_prologue invoke_epilogue
    dispatch-Steps c s s' h =
        let (_, a, e, r) =
          and_then-done (invoke_prologue k client s)
            (λ _. invoke k client c >> invoke_epilogue k client) h in
        let (_, b, e', r') =
          and_then-done (invoke k client c a) (λ _. invoke_epilogue k client) r in
        Steps-trans (hook-Steps s.config.has_prologue Callback.prologue s a e) (
          Steps-trans (invoke-Steps c a b e')
            (hook-Steps b.config.has_epilogue Callback.epilogue b s' r'))

-- A round that is to go on has its flag set.
abbrev Flagged : Option Task → Loop → Type 0
Flagged none s = Unit
Flagged (some t) s = s.dispatching_tasks ≡ true

finish_round-none :
    (k : Kernel) (s s' : Loop) (o : Option Task) → finish_round k s ≡ done o s' → o ≡ none
unfolding finish_round
finish_round-none k s s' o h =
    let (_, a, e, r) =
      and_then-done (restart_timer_locked k (record s { dispatching_tasks = false }))
        (λ _. return none) h in
    ground arith

Flagged-none : (s : Loop) (o : Option Task) → o ≡ none → Flagged o s
Flagged-none s none e = tt
Flagged-none s (some t) e = cc

next_due-Flagged :
    (k : Kernel) (s s' : Loop) (o : Option Task)
    → s.dispatching_tasks ≡ true
    → next_due k s ≡ done o s'
    → Flagged o s'
unfolding next_due
next_due-Flagged k s s' o q h = by_due s.due_list refl
  where
    by_next : (p : Option Task) → p ≡ o → s'.dispatching_tasks ≡ true → Flagged o s'
    by_next none e f = rw (← e) tt
    by_next (some t) e f = rw (← e) f

    by_due : (due : List Task) → s.due_list ≡ due → Flagged o s'
    by_due [] e = Flagged-none s' o (finish_round-none k s s' o (rw (e, next_due) at h))
    by_due (t ∷ due) e = by_next (some t) (ground arith) (ground arith)

dispatch_resume-Flagged :
    (k : Kernel) (s s' : Loop) (o : Option Task)
    → s.dispatching_tasks ≡ true
    → dispatch_resume k s ≡ done o s'
    → Flagged o s'
unfolding dispatch_resume
dispatch_resume-Flagged k s s' o q h = elim (Bool-cases (is_runnable s.state)) [
  | inl on ↦ next_due-Flagged k s s' o q (rw on at h)
  | inr off ↦ Flagged-none s' o (finish_round-none k s s' o (rw off at h))
]

extract_due-flag :
    (k : Kernel) (s : Loop) → (extract_due k s).dispatching_tasks ≡ s.dispatching_tasks
unfolding extract_due
extract_due-flag k s = ground arith

dispatch_begin-Flagged :
    (k : Kernel) (s s' : Loop) (o : Option Task) → dispatch_begin k s ≡ done o s' → Flagged o s'
unfolding dispatch_begin
dispatch_begin-Flagged k s s' o h = elim (Bool-cases s.dispatching_tasks) [
  | inl busy ↦ Flagged-none s' o (ground arith)
  | inr idle ↦
      let s₁ = record s { dispatching_tasks = true } in
      next_due-Flagged k (extract_due k s₁) s' o (extract_due-flag k s₁) (rw idle at h)
]

module _ (k : Kernel) (client : Client) where
  dispatch_rounds-Reach :
      (fuel n : ℕ) (o : Option Task) (s s' : Loop) (status : Status)
      → Flagged o s
      → dispatch_rounds k client fuel o s ≡ done status s'
      → Reach k (at_loop s n) (at_loop s' n)
  unfolding dispatch_rounds dispatch_task
  dispatch_rounds-Reach zero n none s s' status f h = let e : s ≡ s' = ground arith in rw (← e) here
  dispatch_rounds-Reach (suc fuel) n none s s' status f h =
      let e : s ≡ s' = ground arith in rw (← e) here
  dispatch_rounds-Reach zero n (some t) s s' status f h = cc
  dispatch_rounds-Reach (suc fuel) n (some t) s s' status f h =
      let (o, b, e, r) =
        and_then-done ((dispatch_task k client t ok >> dispatch_resume k) s)
          (λ o b. dispatch_rounds k client fuel o b) h in
      let (_, a, e', r') =
        and_then-done (dispatch_task k client t ok s) (λ _. dispatch_resume k) e in
      let handled = dispatch-Steps k client (task_handler t.id ok) s a e' in
      let flag = handled.flag ∙ f in
      Reach-trans (next (handled.reach n) (resumed o flag r' refl))
        (dispatch_rounds-Reach fuel n o b s' status (dispatch_resume-Flagged k a b o flag r') r)

  -- What `async_loop_dispatch_tasks` does on one thread that holds a timer packet, the calls that
  -- its handlers make included, is a sequence of the steps that threads take.
  pub dispatch_tasks-Reach :
      (n : ℕ) (s s' : Loop) (status : Status)
      → dispatch_tasks k client s ≡ done status s'
      → Reach k (at_loop s (suc n)) (at_loop s' n)
  unfolding dispatch_tasks
  dispatch_tasks-Reach n s s' status h =
      let fuel = suc (length s.due_list + length s.task_list) in
      let (o, a, e, r) = and_then-done (dispatch_begin k s) (dispatch_rounds k client fuel) h in
      Reach-trans (next here (begun o refl e))
        (dispatch_rounds-Reach fuel n o a s' status (dispatch_begin-Flagged k s a o e) r)
