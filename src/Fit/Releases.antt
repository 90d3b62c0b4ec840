-- ===== src/Fit/Releases.antt =====
-- pkg/fit/scheduler.cpp: the three operations that consume a reference to a ticket.
use fuchsia_sdk.Base.{
  ℕ, ◌+◌, ◌-◌, ◌%◌, ◌^◌, ◌<◌, ◌≡◌, refl, Bool, true, false, Option, none, some, [], ◌∷◌, ◌++◌,
  arith, ltb, ◌==◌, ==_iff, if◌then◌else◌,
}
use fuchsia_sdk.Fit.Tickets.{
  TicketRecord, find, update, erase, settle, settle-erase, settle-update, total, weight-le-total,
  All-find,
}
use fuchsia_sdk.Fit.Scheduler.{
  PendingTask, Scheduler, has_task, released, finalize_record, finalize_ticket, release_record,
  release_ticket, resume_record, resume_task_with_ticket,
}
use fuchsia_sdk.Fit.Counted.{
  occurs-push, refs_of, held_at, IsReferred, IsCounted, Released, Gives, if-Holds,
  with_ticket-Gives, settle-Released, counted_pos, count-small,
}

finalize_record-Released :
    (k : ℕ) (task : PendingTask) (s : Scheduler) (r : TicketRecord)
    → IsCounted s
    → find k s.tickets ≡ some r
    → 0 < r.ref_count
    → r.task ≡ none
    → Released k task (finalize_record k task s r).0 s (finalize_record k task s r).1
unfolding finalize_record
finalize_record-Released k none s r c q pos empty =
    settle-Released k none none s (record s { tickets = settle k (released r) s.tickets }) r
      (released r) c q pos refl refl refl (λ _. empty) (λ z. empty) (omega arith) refl (λ t. refl)
finalize_record-Released k (some u) s r c q pos empty =
    if-Holds P r.was_resumed pushed (if ltb 0 (r.ref_count - 1) then suspended else abandoned)
      (λ _.
        settle-Released k (some u) none s pushed.1 r (released r) c q pos refl refl refl
          (λ _. empty) (λ z. empty) (omega arith) refl
          (λ t. rw empty (omega (arith, occurs-push t u s.runnable_tasks))))
      (λ waits.
        if-Holds P (ltb 0 (r.ref_count - 1)) suspended abandoned
          (λ referred.
            settle-Released k (some u) none s suspended.1 r (record (released r) { task = some u })
              c q pos refl refl refl (λ z. absurd (ground (arith, z, waits)))
              (λ z. absurd (ground (arith, z, referred))) (omega arith)
              (rw empty (omega (arith, count-small s c))) (λ t. rw empty (omega arith)))
          (λ _.
            settle-Released k (some u) (some u) s abandoned.1 r (released r) c q pos refl refl refl
              (λ _. empty) (λ z. empty) (omega arith) refl (λ t. rw empty (omega arith))))
  where
    P : PendingTask × Scheduler → Type 0
    P x = Released k (some u) x.0 s x.1

    pushed : PendingTask × Scheduler
    pushed = (
      none,
      record s {
        runnable_tasks = s.runnable_tasks ++ u ∷ [];
        tickets = settle k (released r) s.tickets;
      },
    )

    suspended : PendingTask × Scheduler
    suspended = (
      none,
      record s {
        suspended_task_count = (s.suspended_task_count + 1) % 2 ^ 64;
        tickets = settle k (record (released r) { task = some u }) s.tickets;
      },
    )

    abandoned : PendingTask × Scheduler
    abandoned = (some u, record s { tickets = settle k (released r) s.tickets })

-- A task is finalized whose ticket is referred to and has no task.
pub finalize_ticket-Released :
    (k : ℕ) (task : PendingTask) (s : Scheduler)
    → IsCounted s
    → 0 < total (refs_of k) s.tickets
    → total (held_at k) s.tickets ≡ 0
    → Gives (λ x. Released k task x.0 s x.1) (finalize_ticket k task s)
unfolding finalize_ticket
finalize_ticket-Released k task s c h empty =
    with_ticket-Gives (λ x. Released k task x.0 s x.1) k s
      (λ r. if has_task r.task then none else some (finalize_record k task s r)) c h
      (λ r q pos. by_task r q pos r.task refl)
  where
    by_task :
        (r : TicketRecord)
        → find k s.tickets ≡ some r
        → 0 < r.ref_count
        → (o : PendingTask) → r.task ≡ o
        → Gives
            (λ x. Released k task x.0 s x.1)
            (if has_task o then none else some (finalize_record k task s r))
    by_task r q pos none e = finalize_record-Released k task s r c q pos e
    by_task r q pos (some t) e =
        let w : held_at k k r ≡ 1 = rw ((==_iff k k).1 refl, e) refl in
        absurd (omega (arith, empty, w, weight-le-total (held_at k) k r s.tickets q))

resumed_task :
    (k : ℕ) (s : Scheduler) (r : TicketRecord)
    → IsCounted s
    → find k s.tickets ≡ some r
    → r.was_resumed ≡ true
    → r.task ≡ none
resumed_task k s r c q h = (All-find (IsReferred s.next_ticket) k r s.tickets c.referred q).2 h

-- Without its task the record weighs nothing.
abbrev emptied : TicketRecord → TicketRecord
emptied r = record (released r) { task = none }

release_record-Released :
    (k : ℕ) (s : Scheduler) (r : TicketRecord)
    → IsCounted s
    → find k s.tickets ≡ some r
    → 0 < r.ref_count
    → Gives (λ x. Released k none x.0 s x.1) (release_record k s r)
unfolding release_record
release_record-Released k s r c q pos =
    if-Holds (Gives P) (r.ref_count - 1 == 0)
      (if has_task r.task
        then if s.suspended_task_count == 0 then none else some (r.task, given_back)
        else some (none, erased))
      (some (none, record s { tickets = update k (released r) s.tickets }))
      (λ last. by_task r.task refl last)
      (λ more.
        settle-Released k none none s (record s { tickets = update k (released r) s.tickets }) r
          (released r) c q pos refl (settle-update k (released r) s.tickets more) refl again
          (λ z. absurd (ground (arith, z, more))) (omega arith) refl (λ t. refl))
  where
    again : r.was_resumed ≡ true → r.task ≡ none
    again = resumed_task k s r c q

    P : PendingTask × Scheduler → Type 0
    P x = Released k none x.0 s x.1

    erased : Scheduler
    erased = record s { tickets = erase k s.tickets }

    given_back : Scheduler
    given_back = record erased { suspended_task_count = s.suspended_task_count - 1 }

    by_task :
        (o : PendingTask)
        → r.task ≡ o
        → (r.ref_count - 1 == 0) ≡ true
        → Gives P (
            if has_task o
            then if s.suspended_task_count == 0 then none else some (o, given_back)
            else some (none, erased))
    by_task none e last =
        settle-Released k none none s erased r (emptied r) c q pos refl
          (settle-erase k (emptied r) s.tickets last) refl (λ _. refl) (λ z. refl) (omega arith)
          (rw e refl) (λ t. rw e refl)
    by_task (some u) e last =
        let counts = counted_pos k u s r c q e in
        let some_counted : (s.suspended_task_count == 0) ≡ false = ground (arith, counts) in
        rw some_counted (
          settle-Released k none (some u) s given_back r (emptied r) c q pos refl
            (settle-erase k (emptied r) s.tickets last) refl (λ _. refl) (λ z. refl) (omega arith)
            (rw e (omega (arith, counts))) (λ t. rw e (omega arith)))

pub release_ticket-Released :
    (k : ℕ) (s : Scheduler)
    → IsCounted s
    → 0 < total (refs_of k) s.tickets
    → Gives (λ x. Released k none x.0 s x.1) (release_ticket k s)
unfolding release_ticket
release_ticket-Released k s c h =
    with_ticket-Gives (λ x. Released k none x.0 s x.1) k s (release_record k s) c h
      (λ r q pos. release_record-Released k s r c q pos)

resume_record-Released :
    (k : ℕ) (s : Scheduler) (r : TicketRecord)
    → IsCounted s
    → find k s.tickets ≡ some r
    → 0 < r.ref_count
    → Gives (λ x. Released k none none s x.1) (resume_record k s r)
unfolding resume_record
resume_record-Released k s r c q pos =
    if-Holds (Gives P) r.was_resumed (some (false, kept)) (by_task r.task)
      (λ resumed.
        settle-Released k none none s kept r (released r) c q pos refl refl refl again
          (λ z. again resumed) (omega arith) refl (λ t. refl))
      (λ _. by_task_Gives r.task refl)
  where
    again : r.was_resumed ≡ true → r.task ≡ none
    again = resumed_task k s r c q

    P : Bool × Scheduler → Type 0
    P x = Released k none none s x.1

    kept : Scheduler
    kept = record s { tickets = settle k (released r) s.tickets }

    r' : TicketRecord
    r' = record (released r) { was_resumed = true; task = none }

    s' : Scheduler
    s' = record s { tickets = settle k r' s.tickets }

    by_task : PendingTask → Option (Bool × Scheduler)
    by_task o = elim o [
      | none ↦ some (false, s')
      | some t ↦
          if s.suspended_task_count == 0
          then none
          else some (
            true,
            record s' {
              suspended_task_count = s.suspended_task_count - 1;
              runnable_tasks = s.runnable_tasks ++ t ∷ [];
            },
          )
    ]

    by_task_Gives : (o : PendingTask) → r.task ≡ o → Gives P (by_task o)
    by_task_Gives none e =
        settle-Released k none none s s' r r' c q pos refl refl refl (λ _. refl) (λ z. refl)
          (omega arith) (rw e refl) (λ t. rw e refl)
    by_task_Gives (some u) e =
        let counts = counted_pos k u s r c q e in
        let some_counted : (s.suspended_task_count == 0) ≡ false = ground (arith, counts) in
        rw some_counted (
          settle-Released k none none s
            (record s' {
              suspended_task_count = s.suspended_task_count - 1;
              runnable_tasks = s.runnable_tasks ++ u ∷ [];
            })
            r r' c q pos refl refl refl (λ _. refl) (λ z. refl) (omega arith)
            (rw e (omega (arith, counts)))
            (λ t. rw e (omega (arith, occurs-push t u s.runnable_tasks))))

pub resume_task-Released :
    (k : ℕ) (s : Scheduler)
    → IsCounted s
    → 0 < total (refs_of k) s.tickets
    → Gives (λ x. Released k none none s x.1) (resume_task_with_ticket k s)
unfolding resume_task_with_ticket
resume_task-Released k s c h =
    with_ticket-Gives (λ x. Released k none none s x.1) k s (resume_record k s) c h
      (λ r q pos. resume_record-Released k s r c q pos)
