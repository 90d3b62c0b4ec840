-- ===== src/Fit/Orders.antt =====
-- pkg/fit/scheduler.cpp: a task may be resumed before it is suspended.
use fuchsia_sdk.Base.{
  ℕ, suc, ◌+◌, ◌-◌, ◌<◌, ◌≡◌, refl, ap, ◌∙◌, true, false, Option, none, some, [], ◌∷◌, ◌++◌, arith,
  ltb, ◌==◌, if◌then◌else◌, Bool-cases, inl, inr,
}
use fuchsia_sdk.Fit.Tickets.{TicketRecord, Tickets, find, update, erase, settle}
use fuchsia_sdk.Fit.Scheduler.{
  Scheduler, has_task, with_ticket, finalize_record, finalize_ticket, resume_record,
  resume_task_with_ticket,
}
use fuchsia_sdk.Fit.Counted.{IsCounted, count-small}
use fuchsia_sdk.Fit.Executor.{then_with}

find-update :
    (k : ℕ) (r r' : TicketRecord) (l : Tickets)
    → find k l ≡ some r
    → find k (update k r' l) ≡ some r'
unfolding find update
find-update k r r' [] h = cc
find-update k r r' ((i, x) ∷ l) h = elim (Bool-cases (i == k)) [
  | inl same ↦ rw (same, same) refl
  | inr other ↦ rw (other, other) (find-update k r r' l (ground (arith, h, other)))
]

update-update :
    (k : ℕ) (r r' : TicketRecord) (l : Tickets) → update k r' (update k r l) ≡ update k r' l
unfolding update
update-update k r r' [] = refl
update-update k r r' ((i, x) ∷ l) = elim (Bool-cases (i == k)) [
  | inl same ↦ rw (same, same) refl
  | inr other ↦ rw (other, other) (ap (λ m. (i, x) ∷ m) (update-update k r r' l))
]

erase-update : (k : ℕ) (r : TicketRecord) (l : Tickets) → erase k (update k r l) ≡ erase k l
unfolding update erase
erase-update k r [] = refl
erase-update k r ((i, x) ∷ l) = elim (Bool-cases (i == k)) [
  | inl same ↦ rw (same, same) refl
  | inr other ↦ rw (other, other) (ap (λ m. (i, x) ∷ m) (erase-update k r l))
]

settle-update_lem :
    (k : ℕ) (r r' : TicketRecord) (l : Tickets) → settle k r' (update k r l) ≡ settle k r' l
unfolding settle
settle-update_lem k r r' l = elim (Bool-cases (r'.ref_count == 0)) [
  | inl gone ↦ rw gone (erase-update k r l)
  | inr kept ↦ rw kept (update-update k r r' l)
]

-- A ticket's record as `obtain_ticket` makes it, with so many references.
abbrev unresumed : ℕ → TicketRecord
unresumed n = record { ref_count = n; was_resumed = false; task = none }

abbrev resumed : ℕ → TicketRecord
resumed n = record { ref_count = n; was_resumed = true; task = none }

-- What both orders leave: the task is runnable, once, and two references are gone.
abbrev pub made_runnable : ℕ → ℕ → ℕ → Scheduler → Scheduler
made_runnable k n t s = record s {
  runnable_tasks = s.runnable_tasks ++ t ∷ [];
  tickets = settle k (resumed n) s.tickets;
}

with_ticket-at :
    {A : Type 0} (k : ℕ) (s : Scheduler) (r : TicketRecord) (f : TicketRecord → Option A)
    → find k s.tickets ≡ some r
    → 0 < r.ref_count
    → with_ticket k s f ≡ f r
with_ticket-at k s r f q pos = by_find (find k s.tickets) q
  where
    by_find :
        (o : Option TicketRecord)
        → o ≡ some r
        → (elim o [ none ↦ none | some x ↦ if x.ref_count == 0 then none else f x ]) ≡ f r
    by_find none e = cc
    by_find (some x) e =
        let same : x ≡ r = cc in
        let nonzero : (r.ref_count == 0) ≡ false = ground (arith, pos) in rw (same, nonzero) refl

module _ (k n t : ℕ) (s : Scheduler) (counted : IsCounted s)
    (at : find k s.tickets ≡ some (unresumed (suc (suc n)))) where
  suspended : Scheduler
  suspended = record s {
    suspended_task_count = s.suspended_task_count + 1;
    tickets = update k (record (unresumed (suc n)) { task = some t }) s.tickets;
  }

  finalize_first : finalize_ticket k (some t) s ≡ some (none, suspended)
  unfolding finalize_ticket finalize_record settle suspended
  finalize_first =
      let less : suc (suc n) - 1 ≡ suc n = omega arith in
      let nonzero : (suc n == 0) ≡ false = ground arith in
      let more : ltb 0 (suc n) ≡ true = ground arith in
      with_ticket-at k s (unresumed (suc (suc n)))
        (λ r. if has_task r.task then none else some (finalize_record k (some t) s r)) at
        (omega arith)
      ∙ rw (less, more, nonzero, count-small s counted) refl

  resume_second : resume_task_with_ticket k suspended ≡ some (true, made_runnable k n t s)
  unfolding resume_task_with_ticket resume_record suspended
  resume_second =
      let r = record (unresumed (suc n)) { task = some t } in
      let less : suc n - 1 ≡ n = omega arith in
      let counts : (s.suspended_task_count + 1 == 0) ≡ false = ground arith in
      let back : s.suspended_task_count + 1 - 1 ≡ s.suspended_task_count = omega arith in
      with_ticket-at k suspended r (resume_record k suspended)
        (find-update k (unresumed (suc (suc n))) r s.tickets at) (omega arith)
      ∙ rw (less, counts, back, settle-update_lem k r (resumed n) s.tickets) refl

  resumed_early : Scheduler
  resumed_early = record s { tickets = update k (resumed (suc n)) s.tickets }

  resume_first : resume_task_with_ticket k s ≡ some (false, resumed_early)
  unfolding resume_task_with_ticket resume_record settle resumed_early
  resume_first =
      let less : suc (suc n) - 1 ≡ suc n = omega arith in
      let nonzero : (suc n == 0) ≡ false = ground arith in
      with_ticket-at k s (unresumed (suc (suc n))) (resume_record k s) at (omega arith)
      ∙ rw (less, nonzero) refl

  finalize_second : finalize_ticket k (some t) resumed_early ≡ some (none, made_runnable k n t s)
  unfolding finalize_ticket finalize_record resumed_early
  finalize_second =
      let less : suc n - 1 ≡ n = omega arith in
      with_ticket-at k resumed_early (resumed (suc n))
        (λ r. if has_task r.task then none else some (finalize_record k (some t) resumed_early r))
        (find-update k (unresumed (suc (suc n))) (resumed (suc n)) s.tickets at) (omega arith)
      ∙ rw (less, settle-update_lem k (resumed (suc n)) (resumed n) s.tickets) refl

  -- A task is finalized whose ticket has another reference, and this one is resumed: in either
  -- order both succeed and leave the same scheduler, in which the task is runnable once more, the
  -- count of suspended tasks is as it was and two references are gone. The condition is that the
  -- scheduler is well formed and the ticket has a record that was not resumed.
  pub finalize-resume :
      (then_with (finalize_ticket k (some t) s) (λ x. resume_task_with_ticket k x.1)
        ≡ some (true, made_runnable k n t s))
      × (then_with (resume_task_with_ticket k s) (λ x. finalize_ticket k (some t) x.1)
          ≡ some (none, made_runnable k n t s))
  finalize-resume = (rw finalize_first resume_second, rw resume_first finalize_second)
