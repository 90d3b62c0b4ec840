-- ===== src/AsyncLoop/Closed.antt =====
-- The four loops of `async_loop_shutdown` of pkg/async_loop/loop.c, each on its own.
use fuchsia_sdk.Base.{ℕ, zero, suc, ◌≤◌, ◌≡◌, refl, ap, ◌∷◌, [], List, arith, length}
use fuchsia_sdk.AsyncLoop.Types.{
  Status, err_canceled, Loop, Kernel, Outcome, done, out_of_fuel, and_then, shutdown, wait_handler,
  task_handler, exception_handler, return, ok,
}
use fuchsia_sdk.AsyncLoop.Run.{Client, dispatch, dispatch_wait, dispatch_task, dispatch_exception}
use fuchsia_sdk.AsyncLoop.Drive.{drain_waits, drain_due, drain_tasks, drain_exceptions}
use fuchsia_sdk.AsyncLoop.Documented.{IsDocumented}
use fuchsia_sdk.AsyncLoop.Tame.{Tame, Tame-trans}
use fuchsia_sdk.AsyncLoop.Total.{Ends, Ends-map, and_then-Ends, dispatch-Ends, Tame-refl}

pub nil_of_length : {A : Type 0} (l : List A) → length l ≤ 0 → l ≡ []
nil_of_length [] h = refl
nil_of_length (x ∷ l) h = absurd (omega arith)

-- A test of a list for its head.
pub head-Ends :
    {A B : Type 0} (P : A → Loop → Type 0) (l : List B) (x : Outcome A) (f : B → List B → Outcome A)
    → (l ≡ [] → Ends P x)
    → ((b : B) (r : List B) → l ≡ b ∷ r → Ends P (f b r))
    → Ends P (elim l [ [] ↦ x | b ∷ r ↦ f b r ])
head-Ends P [] x f i j = i refl
head-Ends P (b ∷ r) x f i j = j b r refl

-- Shut down and with nothing in the list f.
pub record Drained {A : Type 0} (f : Loop → List A) (s s' : Loop) : Type 0 where
  pub tame : Tame s s'
  pub shut : s'.state ≡ shutdown
  pub empty : f s' ≡ []

module _ (k : Kernel) (doc : IsDocumented k) (client : Client) where
  dispatch_wait-Ends :
      (i : ℕ) (status : Status) (s : Loop)
      → Ends (λ _ s'. Tame s s') (dispatch_wait k client i status s)
  unfolding dispatch_wait
  dispatch_wait-Ends i status s =
      and_then-Ends (λ _ s'. Tame s s') (λ _ s'. Tame s s')
        (dispatch k client (wait_handler i status) s) (λ _. return ok)
        (dispatch-Ends k doc client (wait_handler i status) s) (λ _ s' t. t)

  dispatch_exception-Ends :
      (i : ℕ) (status : Status) (s : Loop)
      → Ends (λ _ s'. Tame s s') (dispatch_exception k client i status s)
  unfolding dispatch_exception
  dispatch_exception-Ends i status s =
      and_then-Ends (λ _ s'. Tame s s') (λ _ s'. Tame s s')
        (dispatch k client (exception_handler i status) s) (λ _. return ok)
        (dispatch-Ends k doc client (exception_handler i status) s) (λ _ s' t. t)

  -- One object has been taken off a list of s, which leaves s₁, and the handler was called.
  Tame-of :
      (s s₁ s' : Loop)
      → s.state ≡ shutdown
      → s₁.state ≡ s.state
      → s₁.config ≡ s.config
      → length s₁.due_list ≤ length s.due_list
      → length s₁.wait_list ≤ length s.wait_list
      → length s₁.task_list ≤ length s.task_list
      → length s₁.exception_list ≤ length s.exception_list
      → Tame s₁ s'
      → Tame s s'
  Tame-of s s₁ s' q e f d w t x u = record {
    due = omega (arith, u.due);
    config_kept = ground arith;
    closing = λ q'.
        let c = u.closing (ground arith) in
        record {
          shut = c.shut;
          waits = omega (arith, c.waits);
          tasks = omega (arith, c.tasks);
          exceptions = omega (arith, c.exceptions);
        };
  }

  pub drain_waits-Ends :
      (fuel : ℕ) (s : Loop)
      → s.state ≡ shutdown
      → length s.wait_list ≤ fuel
      → Ends (λ _ s'. Drained (λ r. r.wait_list) s s') (drain_waits k client fuel s)
  unfolding drain_waits
  drain_waits-Ends zero s q h =
      head-Ends (λ _ s'. Drained (λ r. r.wait_list) s s') s.wait_list (done tt s)
        (λ _ _. out_of_fuel) (λ e. record { tame = Tame-refl s; shut = q; empty = e })
        (λ i l e. absurd (omega (arith, ap length e)))
  drain_waits-Ends (suc fuel) s q h =
      head-Ends (λ _ s'. Drained (λ r. r.wait_list) s s') s.wait_list (done tt s)
        (λ i l.
          and_then (dispatch_wait k client i err_canceled (record s { wait_list = l }))
            (λ _ s'. drain_waits k client fuel s'))
        (λ e. record { tame = Tame-refl s; shut = q; empty = e })
        (λ i l e.
          let s₁ = record s { wait_list = l } in
          let shorter : length s.wait_list ≡ suc (length l) = ap length e in
          and_then-Ends (λ _ s'. Tame s₁ s') (λ _ s'. Drained (λ r. r.wait_list) s s')
            (dispatch_wait k client i err_canceled (record s { wait_list = l }))
            (λ _ s'. drain_waits k client fuel s') (dispatch_wait-Ends i err_canceled s₁)
            (λ _ s' t.
              let u =
                Tame-of s s₁ s' q refl refl (omega arith) (omega arith) (omega arith) (omega arith)
                  t in
              Ends-map (λ _ s''. Drained (λ r. r.wait_list) s' s'')
                (λ _ s''. Drained (λ r. r.wait_list) s s'') (drain_waits k client fuel s')
                (drain_waits-Ends fuel s' (t.closing q).shut (
                  omega (
                    arith,
                    t.due,
                    (t.closing q).waits,
                    (t.closing q).tasks,
                    (t.closing q).exceptions,
                  )))
                (λ _ s'' d. record { tame = Tame-trans u d.tame; shut = d.shut; empty = d.empty })))

  pub drain_due-Ends :
      (fuel : ℕ) (s : Loop)
      → s.state ≡ shutdown
      → length s.due_list ≤ fuel
      → Ends (λ _ s'. Drained (λ r. r.due_list) s s') (drain_due k client fuel s)
  unfolding drain_due dispatch_task
  drain_due-Ends zero s q h =
      head-Ends (λ _ s'. Drained (λ r. r.due_list) s s') s.due_list (done tt s) (λ _ _. out_of_fuel)
        (λ e. record { tame = Tame-refl s; shut = q; empty = e })
        (λ i l e. absurd (omega (arith, ap length e)))
  drain_due-Ends (suc fuel) s q h =
      head-Ends (λ _ s'. Drained (λ r. r.due_list) s s') s.due_list (done tt s)
        (λ i l.
          and_then (dispatch_task k client i err_canceled (record s { due_list = l }))
            (λ _ s'. drain_due k client fuel s'))
        (λ e. record { tame = Tame-refl s; shut = q; empty = e })
        (λ i l e.
          let s₁ = record s { due_list = l } in
          let shorter : length s.due_list ≡ suc (length l) = ap length e in
          and_then-Ends (λ _ s'. Tame s₁ s') (λ _ s'. Drained (λ r. r.due_list) s s')
            (dispatch_task k client i err_canceled (record s { due_list = l }))
            (λ _ s'. drain_due k client fuel s')
            (dispatch-Ends k doc client (task_handler i.id err_canceled) s₁)
            (λ _ s' t.
              let u =
                Tame-of s s₁ s' q refl refl (omega arith) (omega arith) (omega arith) (omega arith)
                  t in
              Ends-map (λ _ s''. Drained (λ r. r.due_list) s' s'')
                (λ _ s''. Drained (λ r. r.due_list) s s'') (drain_due k client fuel s')
                (drain_due-Ends fuel s' (t.closing q).shut (
                  omega (
                    arith,
                    t.due,
                    (t.closing q).waits,
                    (t.closing q).tasks,
                    (t.closing q).exceptions,
                  )))
                (λ _ s'' d. record { tame = Tame-trans u d.tame; shut = d.shut; empty = d.empty })))

  pub drain_tasks-Ends :
      (fuel : ℕ) (s : Loop)
      → s.state ≡ shutdown
      → length s.task_list ≤ fuel
      → Ends (λ _ s'. Drained (λ r. r.task_list) s s') (drain_tasks k client fuel s)
  unfolding drain_tasks dispatch_task
  drain_tasks-Ends zero s q h =
      head-Ends (λ _ s'. Drained (λ r. r.task_list) s s') s.task_list (done tt s)
        (λ _ _. out_of_fuel) (λ e. record { tame = Tame-refl s; shut = q; empty = e })
        (λ i l e. absurd (omega (arith, ap length e)))
  drain_tasks-Ends (suc fuel) s q h =
      head-Ends (λ _ s'. Drained (λ r. r.task_list) s s') s.task_list (done tt s)
        (λ i l.
          and_then (dispatch_task k client i err_canceled (record s { task_list = l }))
            (λ _ s'. drain_tasks k client fuel s'))
        (λ e. record { tame = Tame-refl s; shut = q; empty = e })
        (λ i l e.
          let s₁ = record s { task_list = l } in
          let shorter : length s.task_list ≡ suc (length l) = ap length e in
          and_then-Ends (λ _ s'. Tame s₁ s') (λ _ s'. Drained (λ r. r.task_list) s s')
            (dispatch_task k client i err_canceled (record s { task_list = l }))
            (λ _ s'. drain_tasks k client fuel s')
            (dispatch-Ends k doc client (task_handler i.id err_canceled) s₁)
            (λ _ s' t.
              let u =
                Tame-of s s₁ s' q refl refl (omega arith) (omega arith) (omega arith) (omega arith)
                  t in
              Ends-map (λ _ s''. Drained (λ r. r.task_list) s' s'')
                (λ _ s''. Drained (λ r. r.task_list) s s'') (drain_tasks k client fuel s')
                (drain_tasks-Ends fuel s' (t.closing q).shut (
                  omega (
                    arith,
                    t.due,
                    (t.closing q).waits,
                    (t.closing q).tasks,
                    (t.closing q).exceptions,
                  )))
                (λ _ s'' d. record { tame = Tame-trans u d.tame; shut = d.shut; empty = d.empty })))

  pub drain_exceptions-Ends :
      (fuel : ℕ) (s : Loop)
      → s.state ≡ shutdown
      → length s.exception_list ≤ fuel
      → Ends (λ _ s'. Drained (λ r. r.exception_list) s s') (drain_exceptions k client fuel s)
  unfolding drain_exceptions
  drain_exceptions-Ends zero s q h =
      head-Ends (λ _ s'. Drained (λ r. r.exception_list) s s') s.exception_list (done tt s)
        (λ _ _. out_of_fuel) (λ e. record { tame = Tame-refl s; shut = q; empty = e })
        (λ i l e. absurd (omega (arith, ap length e)))
  drain_exceptions-Ends (suc fuel) s q h =
      head-Ends (λ _ s'. Drained (λ r. r.exception_list) s s') s.exception_list (done tt s)
        (λ i l.
          and_then (dispatch_exception k client i err_canceled (record s { exception_list = l }))
            (λ _ s'. drain_exceptions k client fuel s'))
        (λ e. record { tame = Tame-refl s; shut = q; empty = e })
        (λ i l e.
          let s₁ = record s { exception_list = l } in
          let shorter : length s.exception_list ≡ suc (length l) = ap length e in
          and_then-Ends (λ _ s'. Tame s₁ s') (λ _ s'. Drained (λ r. r.exception_list) s s')
            (dispatch_exception k client i err_canceled (record s { exception_list = l }))
            (λ _ s'. drain_exceptions k client fuel s') (dispatch_exception-Ends i err_canceled s₁)
            (λ _ s' t.
              let u =
                Tame-of s s₁ s' q refl refl (omega arith) (omega arith) (omega arith) (omega arith)
                  t in
              Ends-map (λ _ s''. Drained (λ r. r.exception_list) s' s'')
                (λ _ s''. Drained (λ r. r.exception_list) s s'') (drain_exceptions k client fuel s')
                (drain_exceptions-Ends fuel s' (t.closing q).shut (
                  omega (
                    arith,
                    t.due,
                    (t.closing q).waits,
                    (t.closing q).tasks,
                    (t.closing q).exceptions,
                  )))
                (λ _ s'' d. record { tame = Tame-trans u d.tame; shut = d.shut; empty = d.empty })))
