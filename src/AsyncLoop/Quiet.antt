-- ===== src/AsyncLoop/Quiet.antt =====
-- Which handlers the functions of pkg/async_loop/loop.c call, where the handlers themselves make
-- no calls.
use fuchsia_sdk.Base.{
  ℕ, zero, suc, ◌≤◌, ◌≡◌, refl, ◌∙◌, ap, sym, Bool, true, false, ◌++◌, ◌∷◌, [], List, map, arith,
  if◌then◌else◌, length,
}
use fuchsia_sdk.AsyncLoop.Types.{
  Status, ok, err_canceled, Task, Loop, Kernel, Config, done, and_then, return, ◌>>◌, Callback,
  prologue, epilogue, wait_handler, task_handler, exception_handler,
}
use fuchsia_sdk.AsyncLoop.Ops.{end, run_script}
use fuchsia_sdk.AsyncLoop.Run.{
  Client, invoke, invoke_prologue, invoke_epilogue, dispatch, dispatch_wait, dispatch_task,
  dispatch_exception,
}
use fuchsia_sdk.AsyncLoop.Drive.{
  drain_waits, drain_due, drain_tasks, drain_exceptions, drain, pending,
}

-- The handlers make no calls.
abbrev pub IsQuiet : Client → Type 0
IsQuiet client = (c : Callback) (s : Loop) → client c s ≡ end

-- One handler between the two hooks, on a trace whose latest entry stands first.
abbrev pub around : Config → Callback → List Callback → List Callback
around config c l =
    let before = if config.has_prologue then prologue ∷ l else l in
    if config.has_epilogue then epilogue ∷ c ∷ before else c ∷ before

-- Several handlers, one after the other.
abbrev pub logged : Config → List Callback → List Callback → List Callback
logged config [] l = l
logged config (c ∷ cs) l = logged config cs (around config c l)

pub logged-append :
    (config : Config) (cs ds l : List Callback)
    → logged config (cs ++ ds) l ≡ logged config ds (logged config cs l)
logged-append config [] ds l = refl
logged-append config (c ∷ cs) ds l = logged-append config cs ds (around config c l)

abbrev pub with_trace : Loop → List Callback → Loop
with_trace s l = record s { trace = l }

-- The handlers that a shutdown owes to what is pending, in the order of the four loops.
abbrev pub canceled : Loop → List Callback
canceled s =
    map (λ i. wait_handler i err_canceled) s.wait_list
    ++ (map (λ t. task_handler t.id err_canceled) s.due_list
        ++ (map (λ t. task_handler t.id err_canceled) s.task_list
            ++ map (λ i. exception_handler i err_canceled) s.exception_list))

module _ (k : Kernel) (client : Client) (quiet : IsQuiet client) where
  invoke-quiet :
      (c : Callback) (s : Loop) → invoke k client c s ≡ done tt (with_trace s (c ∷ s.trace))
  unfolding invoke run_script
  invoke-quiet c s = rw (quiet c s) refl

  hook-quiet :
      (b : Bool) (c : Callback) (s : Loop)
      → (if b then invoke k client c s else done tt s)
        ≡ done tt (with_trace s (if b then c ∷ s.trace else s.trace))
  hook-quiet true c s = invoke-quiet c s
  hook-quiet false c s = refl

  pub dispatch-quiet :
      (c : Callback) (s : Loop)
      → dispatch k client c s ≡ done tt (with_trace s (around s.config c s.trace))
  unfolding dispatch invoke_prologue invoke_epilogue
  dispatch-quiet c s =
      let t = if s.config.has_prologue then prologue ∷ s.trace else s.trace in
      ap (λ o. and_then o (λ _. invoke k client c >> invoke_epilogue k client))
        (hook-quiet s.config.has_prologue prologue s)
      ∙ ap (λ o. and_then o (λ _. invoke_epilogue k client)) (invoke-quiet c (with_trace s t))
      ∙ hook-quiet s.config.has_epilogue epilogue (with_trace s (c ∷ t))

  dispatch_wait-quiet :
      (i : ℕ) (status : Status) (s : Loop)
      → dispatch_wait k client i status s
        ≡ done ok (with_trace s (around s.config (wait_handler i status) s.trace))
  unfolding dispatch_wait
  dispatch_wait-quiet i status s =
      ap (λ o. and_then o (λ _. return ok)) (dispatch-quiet (wait_handler i status) s)

  dispatch_exception-quiet :
      (i : ℕ) (status : Status) (s : Loop)
      → dispatch_exception k client i status s
        ≡ done ok (with_trace s (around s.config (exception_handler i status) s.trace))
  unfolding dispatch_exception
  dispatch_exception-quiet i status s =
      ap (λ o. and_then o (λ _. return ok)) (dispatch-quiet (exception_handler i status) s)

  drain_waits-quiet :
      (l : List ℕ) (fuel : ℕ) (s : Loop)
      → length l ≤ fuel
      → drain_waits k client fuel (record s { wait_list = l })
        ≡ done tt (record s {
          wait_list = [];
          trace = logged s.config (map (λ i. wait_handler i err_canceled) l) s.trace;
        })
  unfolding drain_waits
  drain_waits-quiet [] zero s h = refl
  drain_waits-quiet [] (suc fuel) s h = refl
  drain_waits-quiet (i ∷ l) zero s h = absurd (omega arith)
  drain_waits-quiet (i ∷ l) (suc fuel) s h =
      ap (λ o. and_then o (λ _ s'. drain_waits k client fuel s'))
        (dispatch_wait-quiet i err_canceled (record s { wait_list = l }))
      ∙ drain_waits-quiet l fuel
          (with_trace s (around s.config (wait_handler i err_canceled) s.trace)) (omega arith)

  drain_due-quiet :
      (l : List Task) (fuel : ℕ) (s : Loop)
      → length l ≤ fuel
      → drain_due k client fuel (record s { due_list = l })
        ≡ done tt (record s {
          due_list = [];
          trace = logged s.config (map (λ i. task_handler i.id err_canceled) l) s.trace;
        })
  unfolding drain_due dispatch_task
  drain_due-quiet [] zero s h = refl
  drain_due-quiet [] (suc fuel) s h = refl
  drain_due-quiet (i ∷ l) zero s h = absurd (omega arith)
  drain_due-quiet (i ∷ l) (suc fuel) s h =
      ap (λ o. and_then o (λ _ s'. drain_due k client fuel s'))
        (dispatch-quiet (task_handler i.id err_canceled) (record s { due_list = l }))
      ∙ drain_due-quiet l fuel
          (with_trace s (around s.config (task_handler i.id err_canceled) s.trace)) (omega arith)

  drain_tasks-quiet :
      (l : List Task) (fuel : ℕ) (s : Loop)
      → length l ≤ fuel
      → drain_tasks k client fuel (record s { task_list = l })
        ≡ done tt (record s {
          task_list = [];
          trace = logged s.config (map (λ i. task_handler i.id err_canceled) l) s.trace;
        })
  unfolding drain_tasks dispatch_task
  drain_tasks-quiet [] zero s h = refl
  drain_tasks-quiet [] (suc fuel) s h = refl
  drain_tasks-quiet (i ∷ l) zero s h = absurd (omega arith)
  drain_tasks-quiet (i ∷ l) (suc fuel) s h =
      ap (λ o. and_then o (λ _ s'. drain_tasks k client fuel s'))
        (dispatch-quiet (task_handler i.id err_canceled) (record s { task_list = l }))
      ∙ drain_tasks-quiet l fuel
          (with_trace s (around s.config (task_handler i.id err_canceled) s.trace)) (omega arith)

  drain_exceptions-quiet :
      (l : List ℕ) (fuel : ℕ) (s : Loop)
      → length l ≤ fuel
      → drain_exceptions k client fuel (record s { exception_list = l })
        ≡ done tt (record s {
          exception_list = [];
          trace = logged s.config (map (λ i. exception_handler i err_canceled) l) s.trace;
        })
  unfolding drain_exceptions
  drain_exceptions-quiet [] zero s h = refl
  drain_exceptions-quiet [] (suc fuel) s h = refl
  drain_exceptions-quiet (i ∷ l) zero s h = absurd (omega arith)
  drain_exceptions-quiet (i ∷ l) (suc fuel) s h =
      ap (λ o. and_then o (λ _ s'. drain_exceptions k client fuel s'))
        (dispatch_exception-quiet i err_canceled (record s { exception_list = l }))
      ∙ drain_exceptions-quiet l fuel
          (with_trace s (around s.config (exception_handler i err_canceled) s.trace)) (omega arith)

  pub drain-quiet :
      (fuel : ℕ) (s : Loop)
      → pending s ≤ fuel
      → drain k client fuel s
        ≡ done tt (record s {
          wait_list = [];
          due_list = [];
          task_list = [];
          exception_list = [];
          trace = logged s.config (canceled s) s.trace;
        })
  unfolding drain
  drain-quiet fuel s h =
      let w = map (λ i. wait_handler i err_canceled) s.wait_list in
      let d = map (λ (t : Task). task_handler t.id err_canceled) s.due_list in
      let t = map (λ (t : Task). task_handler t.id err_canceled) s.task_list in
      let s₁ = record s { wait_list = []; trace = logged s.config w s.trace } in
      let s₂ = record s₁ { due_list = []; trace = logged s.config d s₁.trace } in
      let s₃ = record s₂ { task_list = []; trace = logged s.config t s₂.trace } in
      ap
        (λ o. and_then o (λ _.
          drain_due k client fuel >> (drain_tasks k client fuel >> drain_exceptions k client fuel)))
        (drain_waits-quiet s.wait_list fuel s (omega arith))
      ∙ ap (λ o. and_then o (λ _. drain_tasks k client fuel >> drain_exceptions k client fuel))
          (drain_due-quiet s.due_list fuel s₁ (omega arith))
      ∙ ap (λ o. and_then o (λ _. drain_exceptions k client fuel))
          (drain_tasks-quiet s.task_list fuel s₂ (omega arith))
      ∙ drain_exceptions-quiet s.exception_list fuel s₃ (omega arith)
      ∙ ap
          (λ l. done tt (record s {
            wait_list = [];
            due_list = [];
            task_list = [];
            exception_list = [];
            trace = l;
          }))
          (sym (in_order w d t (map (λ i. exception_handler i err_canceled) s.exception_list)))
    where
      in_order :
          (w d t x : List Callback)
          → logged s.config (w ++ (d ++ (t ++ x))) s.trace
            ≡ logged s.config x (logged s.config t (logged s.config d (logged s.config w s.trace)))
      in_order w d t x =
          logged-append s.config w (d ++ (t ++ x)) s.trace
          ∙ logged-append s.config d (t ++ x) (logged s.config w s.trace)
          ∙ logged-append s.config t x (logged s.config d (logged s.config w s.trace))
