-- ===== src/AsyncLoop/Spent.antt =====
-- What `async_loop_dispatch_tasks` of pkg/async_loop/loop.c leaves on the due list.
use fuchsia_sdk.Base.{
  ℕ, zero, suc, ◌+◌, ◌≡◌, refl, ◌∙◌, ap, ◌⊎◌, inl, inr, true, false, Option, none, some, List, [],
  ◌∷◌, arith, length, Bool-cases,
}
use fuchsia_sdk.AsyncLoop.Types.{Status, ok, Task, Loop, Kernel, done, return, ◌>>◌, is_runnable}
use fuchsia_sdk.AsyncLoop.Tasks.{restart_timer_locked}
use fuchsia_sdk.AsyncLoop.Dispatch.{
  dispatch_begin, dispatch_resume, next_due, finish_round, extract_due,
}
use fuchsia_sdk.AsyncLoop.Run.{Client, dispatch_task, dispatch_rounds, dispatch_tasks}
use fuchsia_sdk.AsyncLoop.Tame.{restart_timer_locked-SameLists}
use fuchsia_sdk.AsyncLoop.Refine.{and_then-done}

-- No task is left due, unless the loop is no longer to run.
abbrev pub IsSpent : Loop → Type 0
IsSpent s = (s.due_list ≡ []) ⊎ (is_runnable s.state ≡ false)

-- A round is over only if no task is left due.
abbrev OverSpent : Option Task → Loop → Type 0
OverSpent none s = IsSpent s
OverSpent (some t) s = Unit

OverSpent-any : (o : Option Task) (s : Loop) → IsSpent s → OverSpent o s
OverSpent-any none s h = h
OverSpent-any (some t) s h = tt

finish_round-IsSpent :
    (k : Kernel) (s s' : Loop) (o : Option Task)
    → finish_round k s ≡ done o s'
    → IsSpent s
    → IsSpent s'
unfolding finish_round
finish_round-IsSpent k s s' o h spent =
    let s₁ = record s { dispatching_tasks = false } in
    let (_, a, e, r) = and_then-done (restart_timer_locked k s₁) (λ _. return none) h in
    let same = restart_timer_locked-SameLists k s₁ a e in
    by_end (ground arith) (ground (arith, same.same_due)) (ground (arith, same.same_state)) spent
  where
    by_end : o ≡ none → s'.due_list ≡ s.due_list → s'.state ≡ s.state → IsSpent s → IsSpent s'
    by_end n d q (inl none_due) = inl (d ∙ none_due)
    by_end n d q (inr off) = inr (ap is_runnable q ∙ off)

next_due-OverSpent :
    (k : Kernel) (s s' : Loop) (o : Option Task) → next_due k s ≡ done o s' → OverSpent o s'
unfolding next_due
next_due-OverSpent k s s' o h = by_due s.due_list refl
  where
    by_next : (t : Task) (p : Option Task) → p ≡ some t → OverSpent p s'
    by_next t none e = cc
    by_next t (some u) e = tt

    by_due : (due : List Task) → s.due_list ≡ due → OverSpent o s'
    by_due [] e = OverSpent-any o s' (finish_round-IsSpent k s s' o (rw (e, next_due) at h) (inl e))
    by_due (t ∷ due) e = by_next t o (ground arith)

dispatch_resume-OverSpent :
    (k : Kernel) (s s' : Loop) (o : Option Task) → dispatch_resume k s ≡ done o s' → OverSpent o s'
unfolding dispatch_resume
dispatch_resume-OverSpent k s s' o h = elim (Bool-cases (is_runnable s.state)) [
  | inl on ↦ next_due-OverSpent k s s' o (rw on at h)
  | inr off ↦ OverSpent-any o s' (finish_round-IsSpent k s s' o (rw off at h) (inr off))
]

dispatch_begin-OverSpent :
    (k : Kernel) (s s' : Loop) (o : Option Task)
    → s.dispatching_tasks ≡ false
    → dispatch_begin k s ≡ done o s'
    → OverSpent o s'
unfolding dispatch_begin
dispatch_begin-OverSpent k s s' o idle h =
    next_due-OverSpent k (extract_due k (record s { dispatching_tasks = true })) s' o (rw idle at h)

module _ (k : Kernel) (client : Client) where
  dispatch_rounds-IsSpent :
      (fuel : ℕ) (o : Option Task) (s s' : Loop) (status : Status)
      → OverSpent o s
      → dispatch_rounds k client fuel o s ≡ done status s'
      → IsSpent s'
  unfolding dispatch_rounds dispatch_task
  dispatch_rounds-IsSpent zero none s s' status f h = let e : s ≡ s' = ground arith in rw (← e) f
  dispatch_rounds-IsSpent (suc fuel) none s s' status f h =
      let e : s ≡ s' = ground arith in rw (← e) f
  dispatch_rounds-IsSpent zero (some t) s s' status f h = cc
  dispatch_rounds-IsSpent (suc fuel) (some t) s s' status f h =
      let (o, b, e, r) =
        and_then-done ((dispatch_task k client t ok >> dispatch_resume k) s)
          (λ o b. dispatch_rounds k client fuel o b) h in
      let (_, a, e', r') =
        and_then-done (dispatch_task k client t ok s) (λ _. dispatch_resume k) e in
      dispatch_rounds-IsSpent fuel o b s' status (dispatch_resume-OverSpent k a b o r') r

  pub dispatch_tasks-IsSpent :
      (s s' : Loop) (status : Status)
      → s.dispatching_tasks ≡ false
      → dispatch_tasks k client s ≡ done status s'
      → IsSpent s'
  unfolding dispatch_tasks
  dispatch_tasks-IsSpent s s' status idle h =
      let fuel = suc (length s.due_list + length s.task_list) in
      let (o, a, e, r) = and_then-done (dispatch_begin k s) (dispatch_rounds k client fuel) h in
      dispatch_rounds-IsSpent fuel o a s' status (dispatch_begin-OverSpent k s a o idle e) r
