-- ===== src/Fit/Scheduler.antt =====
-- pkg/fit/scheduler.cpp: which tasks can run and which are suspended until a ticket is resumed. An
-- operation whose assertion fails gives none.
use fuchsia_sdk.Base.{
  ℕ, ◌+◌, ◌-◌, ◌%◌, ◌^◌, Bool, true, false, not, ◌&&◌, Option, none, some, List, [], ◌∷◌, ◌++◌, ltb,
  ◌==◌, if◌then◌else◌, is_nil,
}
use fuchsia_sdk.Fit.Tickets.{TicketRecord, Tickets, find, emplace, update, erase, settle}

-- A `pending_task` is the number of its promise, or empty.
abbrev pub PendingTask : Type 0
PendingTask = Option ℕ

pub record Scheduler : Type 0 where
  pub runnable_tasks : List ℕ
  pub tickets : Tickets
  pub suspended_task_count : ℕ
  pub next_ticket : ℕ

abbrev pub new_scheduler : Scheduler
new_scheduler = record {
  runnable_tasks = [];
  tickets = [];
  suspended_task_count = 0;
  next_ticket = 1;
}

abbrev pub has_task : PendingTask → Bool
has_task none = false
has_task (some t) = true

-- `schedule_task`.
unfoldable pub push_task : PendingTask → Scheduler → Option Scheduler
push_task none s = none
push_task (some t) s = some (record s { runnable_tasks = s.runnable_tasks ++ t ∷ [] })

unfoldable pub obtain_ticket : ℕ → Scheduler → ℕ × Scheduler
obtain_ticket initial_refs s =
    let ticket = s.next_ticket in
    let r : TicketRecord = record { ref_count = initial_refs; was_resumed = false; task = none } in
    (ticket, record s { next_ticket = (ticket + 1) % 2 ^ 64; tickets = emplace ticket r s.tickets })

-- What an operation does with the record of its ticket.
abbrev pub with_ticket : {A : Type 0} → ℕ → Scheduler → (TicketRecord → Option A) → Option A
with_ticket k s f = elim (find k s.tickets) [
  | none ↦ none
  | some r ↦ if r.ref_count == 0 then none else f r
]

abbrev pub released : TicketRecord → TicketRecord
released r = record r { ref_count = r.ref_count - 1 }

-- The task that the caller keeps is the first result.
unfoldable pub finalize_record :
    ℕ → PendingTask → Scheduler → TicketRecord → PendingTask × Scheduler
finalize_record k none s r = (none, record s { tickets = settle k (released r) s.tickets })
finalize_record k (some t) s r =
    if r.was_resumed
    then (
      none,
      record s {
        runnable_tasks = s.runnable_tasks ++ t ∷ [];
        tickets = settle k (released r) s.tickets;
      },
    )
    else if ltb 0 (r.ref_count - 1)
    then (
      none,
      record s {
        suspended_task_count = (s.suspended_task_count + 1) % 2 ^ 64;
        tickets = settle k (record (released r) { task = some t }) s.tickets;
      },
    )
    else (some t, record s { tickets = settle k (released r) s.tickets })

unfoldable pub finalize_ticket : ℕ → PendingTask → Scheduler → Option (PendingTask × Scheduler)
finalize_ticket k task s =
    with_ticket k s (λ r. if has_task r.task then none else some (finalize_record k task s r))

unfoldable pub duplicate_ticket : ℕ → Scheduler → Option Scheduler
duplicate_ticket k s = with_ticket k s (λ r.
    let count = (r.ref_count + 1) % 2 ^ 32 in
    if count == 0
    then none
    else some (record s { tickets = update k (record r { ref_count = count }) s.tickets }))

-- The last reference gives the task back.
unfoldable pub release_record : ℕ → Scheduler → TicketRecord → Option (PendingTask × Scheduler)
release_record k s r =
    let erased = record s { tickets = erase k s.tickets } in
    if r.ref_count - 1 == 0
    then if has_task r.task
      then if s.suspended_task_count == 0
        then none
        else some (r.task, record erased { suspended_task_count = s.suspended_task_count - 1 })
      else some (none, erased)
    else some (none, record s { tickets = update k (released r) s.tickets })

unfoldable pub release_ticket : ℕ → Scheduler → Option (PendingTask × Scheduler)
release_ticket k s = with_ticket k s (release_record k s)

unfoldable pub resume_record : ℕ → Scheduler → TicketRecord → Option (Bool × Scheduler)
resume_record k s r =
    if r.was_resumed
    then some (false, record s { tickets = settle k (released r) s.tickets })
    else let r' = record (released r) { was_resumed = true; task = none } in
      let s' = record s { tickets = settle k r' s.tickets } in
      elim r.task [
        | none ↦ some (false, s')
        | some t ↦
            if s.suspended_task_count == 0
            then none
            else some (
              true,
              record s' {
                suspended_task_count = s.suspended_task_count - 1;
                runnable_tasks = s.runnable_tasks ++ t ∷ [];
              },
            )
      ]

unfoldable pub resume_task_with_ticket : ℕ → Scheduler → Option (Bool × Scheduler)
resume_task_with_ticket k s = with_ticket k s (resume_record k s)

-- `take_runnable_tasks`, with the queue that the caller gives.
unfoldable pub take_runnable_tasks : List ℕ → Scheduler → Option (List ℕ × Scheduler)
take_runnable_tasks tasks s =
    if is_nil tasks then some (s.runnable_tasks, record s { runnable_tasks = tasks }) else none

-- The loop of `take_all_tasks` over the tickets: the tasks, the tickets without them and the count.
unfoldable pub take_suspended : Tickets → ℕ → Option (List ℕ × Tickets × ℕ)
take_suspended [] count = some ([], [], count)
take_suspended ((k, r) ∷ l) count =
    let less = if has_task r.task then count - 1 else count in
    let rest = take_suspended l less in
    if has_task r.task && (count == 0) then none else elim rest [
      | none ↦ none
      | some (tasks, l', n) ↦
          some (
            elim r.task [ none ↦ tasks | some t ↦ t ∷ tasks ],
            (k, record r { task = none }) ∷ l',
            n,
          )
    ]

unfoldable pub take_all_tasks : List ℕ → Scheduler → Option (List ℕ × Scheduler)
take_all_tasks tasks s =
    if is_nil tasks
    then if ltb 0 s.suspended_task_count
      then elim (take_suspended s.tickets s.suspended_task_count) [
        | none ↦ none
        | some (more, l, n) ↦ some (
          s.runnable_tasks ++ more,
          record s { runnable_tasks = tasks; tickets = l; suspended_task_count = n },
        )
      ]
      else some (s.runnable_tasks, record s { runnable_tasks = tasks })
    else none

abbrev pub has_runnable_tasks : Scheduler → Bool
has_runnable_tasks s = not (is_nil s.runnable_tasks)

abbrev pub has_suspended_tasks : Scheduler → Bool
has_suspended_tasks s = ltb 0 s.suspended_task_count

abbrev pub has_outstanding_tickets : Scheduler → Bool
has_outstanding_tickets s = not (is_nil s.tickets)
