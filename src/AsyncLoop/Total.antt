-- ===== src/AsyncLoop/Total.antt =====
-- The ends of the loops of pkg/async_loop/loop.c that call handlers: when a round of dispatching
-- tasks returns.
use fuchsia_sdk.Base.{
  ℕ, zero, suc, ◌+◌, ◌≤◌, ◌≡◌, refl, Bool, true, false, Option, none, some, ◌∷◌, [], List, arith,
  if◌then◌else◌, Bool-cases, inl, inr, length,
}
use fuchsia_sdk.AsyncLoop.Types.{
  ok, Task, Loop, Kernel, Outcome, done, and_then, fault, out_of_fuel, return, ◌>>◌, is_runnable,
  Callback, task_handler,
}
use fuchsia_sdk.AsyncLoop.Tasks.{restart_timer_locked}
use fuchsia_sdk.AsyncLoop.Dispatch.{
  split_due, extract_due, finish_round, next_due, dispatch_begin, dispatch_resume,
}
use fuchsia_sdk.AsyncLoop.Ops.{perform, Script, end, call, run_script}
use fuchsia_sdk.AsyncLoop.Run.{
  Client, invoke, invoke_prologue, invoke_epilogue, dispatch, dispatch_task, dispatch_rounds,
  dispatch_tasks,
}
use fuchsia_sdk.AsyncLoop.Documented.{
  IsDocumented, IsDone, perform-IsDone, restart_timer_locked-IsDone,
}
use fuchsia_sdk.AsyncLoop.Tame.{Tame, Tame-trans, perform-Tame}

-- The operation comes to its end, and the property holds of its value and of the loop then.
abbrev pub Ends : {A : Type 0} → (A → Loop → Type 0) → Outcome A → Type 0
Ends P (done a s) = P a s
Ends P fault = ⊥
Ends P out_of_fuel = ⊥

pub Ends-of :
    {A : Type 0} (P : A → Loop → Type 0) (o : Outcome A)
    → IsDone o
    → ((a : A) (s : Loop) → o ≡ done a s → P a s)
    → Ends P o
Ends-of P (done a s) i h = h a s refl
Ends-of P fault i h = absurd i
Ends-of P out_of_fuel i h = absurd i

pub and_then-Ends :
    {A B : Type 0} (P : A → Loop → Type 0) (Q : B → Loop → Type 0) (o : Outcome A)
    (f : A → Loop → Outcome B)
    → Ends P o
    → ((a : A) (s : Loop) → P a s → Ends Q (f a s))
    → Ends Q (and_then o f)
and_then-Ends P Q (done a s) f e h = h a s e
and_then-Ends P Q fault f e h = absurd e
and_then-Ends P Q out_of_fuel f e h = absurd e

pub Ends-map :
    {A : Type 0} (P Q : A → Loop → Type 0) (o : Outcome A)
    → Ends P o
    → ((a : A) (s : Loop) → P a s → Q a s)
    → Ends Q o
Ends-map P Q (done a s) e h = h a s e
Ends-map P Q fault e h = absurd e
Ends-map P Q out_of_fuel e h = absurd e

pub if-Ends :
    {A : Type 0} (P : A → Loop → Type 0) (b : Bool) (x y : Outcome A)
    → Ends P x
    → Ends P y
    → Ends P (if b then x else y)
if-Ends P true x y i j = i
if-Ends P false x y i j = j

-- The same where each branch knows how the test came out.
pub test-Ends :
    {A : Type 0} (P : A → Loop → Type 0) (b : Bool) (x y : Outcome A)
    → (b ≡ true → Ends P x)
    → (b ≡ false → Ends P y)
    → Ends P (if b then x else y)
test-Ends P true x y i j = i refl
test-Ends P false x y i j = j refl

pub Tame-refl : (s : Loop) → Tame s s
Tame-refl s = record {
  due = omega arith;
  config_kept = refl;
  closing =
      λ q. record { shut = q; waits = omega arith; tasks = omega arith; exceptions = omega arith };
}

-- How many handlers a round may still call.
abbrev weight : Option Task → Loop → ℕ
weight none s = 0
weight (some t) s = suc (length s.due_list)

length-split_due : (d : ℕ) (l : List Task) → length (split_due d l).0 ≤ length l
unfolding split_due
length-split_due d [] = omega arith
length-split_due d (t ∷ l) = ground (arith, length-split_due d l)

-- A round either goes on with fewer due tasks, or has ended and cleared its flag.
abbrev Goes : ℕ → Option Task → Loop → Type 0
Goes n none s = s.dispatching_tasks ≡ false
Goes n (some t) s = suc (length s.due_list) ≤ n

module _ (k : Kernel) (doc : IsDocumented k) where
  restart_flag :
      (s s' : Loop)
      → restart_timer_locked k s ≡ done tt s'
      → s'.dispatching_tasks ≡ s.dispatching_tasks
  unfolding restart_timer_locked
  restart_flag s s' h = ground arith

  finish_round-Ends : (n : ℕ) (s : Loop) → Ends (Goes n) (finish_round k s)
  unfolding finish_round
  finish_round-Ends n s =
      let s₁ = record s { dispatching_tasks = false } in
      and_then-Ends (λ _ s'. s'.dispatching_tasks ≡ false) (Goes n) (restart_timer_locked k s₁)
        (λ _. return none)
        (Ends-of (λ _ s'. s'.dispatching_tasks ≡ false) (restart_timer_locked k s₁)
          (restart_timer_locked-IsDone k doc s₁) (λ _ s' e. restart_flag s₁ s' e))
        (λ _ s' e. e)

  next_due-Ends : (n : ℕ) (s : Loop) → length s.due_list ≤ n → Ends (Goes n) (next_due k s)
  unfolding next_due
  next_due-Ends n s h = by_due s.due_list refl h
    where
      by_due : (due : List Task) → s.due_list ≡ due → length due ≤ n → Ends (Goes n) (next_due k s)
      by_due [] e h' = rw (e, next_due) (finish_round-Ends n s)
      by_due (t ∷ due) e h' = rw (e, next_due) h'

  dispatch_resume-Ends :
      (n : ℕ) (s : Loop) → length s.due_list ≤ n → Ends (Goes n) (dispatch_resume k s)
  unfolding dispatch_resume
  dispatch_resume-Ends n s h = elim (Bool-cases (is_runnable s.state)) [
    | inl on ↦ rw on (next_due-Ends n s h)
    | inr off ↦ rw off (finish_round-Ends n s)
  ]

  pub length-extract_due :
      (s : Loop) → length (extract_due k s).due_list ≤ length s.due_list + length s.task_list
  unfolding extract_due
  length-extract_due s = by_due s.due_list refl
    where
      by_due :
          (due : List Task)
          → s.due_list ≡ due
          → length (extract_due k s).due_list ≤ length due + length s.task_list
      by_due [] e =
          rw (e, extract_due) (omega (arith, length-split_due (k.now s.syscalls) s.task_list))
      by_due (t ∷ due) e = rw (e, extract_due) (rw e (omega arith))

  run_script-Ends : (p : Script) (s : Loop) → Ends (λ _ s'. Tame s s') (run_script k p s)
  unfolding run_script
  run_script-Ends end s = Tame-refl s
  run_script-Ends (call c next) s =
      and_then-Ends (λ _ s'. Tame s s') (λ _ s'. Tame s s') (perform k c s)
        (λ status s'. run_script k (next status) s')
        (Ends-of (λ _ s'. Tame s s') (perform k c s) (perform-IsDone k doc c s)
          (λ status s' e. perform-Tame k c s s' status e))
        (λ status s' t.
          Ends-map (λ _ s''. Tame s' s'') (λ _ s''. Tame s s'') (run_script k (next status) s')
            (run_script-Ends (next status) s') (λ _ s'' t'. Tame-trans t t'))

  module _ (client : Client) where
    invoke-Ends : (c : Callback) (s : Loop) → Ends (λ _ s'. Tame s s') (invoke k client c s)
    unfolding invoke
    invoke-Ends c s =
        Ends-map (λ _ s'. Tame (record s { trace = c ∷ s.trace }) s') (λ _ s'. Tame s s')
          (invoke k client c s) (run_script-Ends (client c s) (record s { trace = c ∷ s.trace }))
          (λ _ s' t. record {
            due = t.due;
            config_kept = t.config_kept;
            closing = λ q. (record {
              shut = (t.closing q).shut;
              waits = (t.closing q).waits;
              tasks = (t.closing q).tasks;
              exceptions = (t.closing q).exceptions;
            });
          })

    hooks-Ends :
        (s : Loop)
        → Ends (λ _ s'. Tame s s') (invoke_prologue k client s)
          × Ends (λ _ s'. Tame s s') (invoke_epilogue k client s)
    unfolding invoke_prologue invoke_epilogue
    hooks-Ends s = (
      if-Ends (λ _ s'. Tame s s') s.config.has_prologue (invoke k client Callback.prologue s)
          (done tt s) (invoke-Ends Callback.prologue s) (Tame-refl s),
      if-Ends (λ _ s'. Tame s s') s.config.has_epilogue (invoke k client Callback.epilogue s)
          (done tt s) (invoke-Ends Callback.epilogue s) (Tame-refl s),
    )

    -- A sequence of two tame parts is tame.
    then-Ends :
        {A B : Type 0} (m : Loop → Outcome A) (f : Loop → Outcome B) (s : Loop)
        → Ends (λ _ s'. Tame s s') (m s)
        → ((s' : Loop) → Ends (λ _ s''. Tame s' s'') (f s'))
        → Ends (λ _ s'. Tame s s') ((m >> f) s)
    then-Ends m f s i j =
        and_then-Ends (λ _ s'. Tame s s') (λ _ s'. Tame s s') (m s) (λ _. f) i
          (λ _ s' t.
            Ends-map (λ _ s''. Tame s' s'') (λ _ s''. Tame s s'') (f s') (j s')
              (λ _ s'' u. Tame-trans t u))

    pub dispatch-Ends : (c : Callback) (s : Loop) → Ends (λ _ s'. Tame s s') (dispatch k client c s)
    unfolding dispatch
    dispatch-Ends c s =
        then-Ends (invoke_prologue k client) (invoke k client c >> invoke_epilogue k client) s
          (hooks-Ends s).0
          (λ s'.
            then-Ends (invoke k client c) (invoke_epilogue k client) s' (invoke-Ends c s')
              (λ s''. (hooks-Ends s'').1))

    dispatch_rounds-Ends :
        (n : ℕ) (next : Option Task) (s : Loop)
        → Goes n next s
        → Ends (λ _ s'. s'.dispatching_tasks ≡ false) (dispatch_rounds k client n next s)
    unfolding dispatch_rounds dispatch_task
    dispatch_rounds-Ends n none s g = by_fuel n
      where
        by_fuel :
            (m : ℕ)
            → Ends (λ _ s'. s'.dispatching_tasks ≡ false) (dispatch_rounds k client m none s)
        by_fuel zero = g
        by_fuel (suc m) = g
    dispatch_rounds-Ends zero (some t) s g = absurd (omega arith)
    dispatch_rounds-Ends (suc n) (some t) s g =
        let step = λ (s' : Loop). dispatch_resume k s' in
        and_then-Ends (Goes n) (λ _ s'. s'.dispatching_tasks ≡ false)
          ((dispatch_task k client t ok >> dispatch_resume k) s)
          (λ next s'. dispatch_rounds k client n next s')
          (and_then-Ends (λ _ s'. Tame s s') (Goes n) (dispatch_task k client t ok s)
            (λ _. dispatch_resume k) (dispatch-Ends (task_handler t.id ok) s)
            (λ _ s' u. dispatch_resume-Ends n s' (omega (arith, u.due))))
          (λ next s' g'. dispatch_rounds-Ends n next s' g')

    -- On a kernel that answers as documented, and where no other thread dispatches tasks, a call of
    -- `async_loop_dispatch_tasks` comes to its end whatever the handlers call, and leaves the flag
    -- cleared: the tasks that are pending when it begins are enough fuel.
    pub dispatch_tasks-Ends :
        (s : Loop)
        → s.dispatching_tasks ≡ false
        → Ends (λ _ s'. s'.dispatching_tasks ≡ false) (dispatch_tasks k client s)
    unfolding dispatch_tasks dispatch_begin
    dispatch_tasks-Ends s q =
        let n = length s.due_list + length s.task_list in
        let s₁ = record s { dispatching_tasks = true } in
        and_then-Ends (Goes (suc n)) (λ _ s'. s'.dispatching_tasks ≡ false) (dispatch_begin k s)
          (dispatch_rounds k client (suc n))
          (rw q (next_due-Ends (suc n) (extract_due k s₁) (omega (arith, length-extract_due s₁))))
          (λ next s' g. dispatch_rounds-Ends (suc n) next s' g)
