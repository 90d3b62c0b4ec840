-- ===== src/Fit/Reach.antt =====
-- pkg/fit/single_threaded_executor.cpp under every interleaving of its threads.
use mathlib.Core.Path.{subst}
use fuchsia_sdk.Base.{
  ℕ, ◌+◌, ◌-◌, ◌<◌, ◌≡◌, refl, ap, Bool-cases, inl, inr, Bool, true, false, not, ◌&&◌, Option, none,
  some, List, [], ◌∷◌, arith, ◌==◌, is_nil,
}
use fuchsia_sdk.Fit.Tickets.{total}
use fuchsia_sdk.Fit.Scheduler.{
  has_runnable_tasks, has_suspended_tasks, has_outstanding_tickets, take_runnable_tasks,
}
use fuchsia_sdk.Fit.Counted.{occurs, refs_of, held, task_at, Gives}
use fuchsia_sdk.Fit.Acquires.{is_nil-of-total}
use fuchsia_sdk.Fit.Executor.{
  Executor, new_executor, enter_task, leave_task, Runner, outside, asleep, awake, holding, running,
  Action, scheduling, waiting, entering, suspending, leaving, duplicating, resolving, closing,
  notifies, wakes_up, act, wait, wait_for_runnable_tasks,
}
use fuchsia_sdk.Fit.Sound.{
  IsSound, IsWoken, Allowed, is_running, is_outside, may_enter, taken, owed,
}
use fuchsia_sdk.Fit.Turns.{schedule_task-Sound, wait-Sound, enter_task-Sound, wake-Sound}
use fuchsia_sdk.Fit.Suspends.{
  suspend_current_task-Sound, duplicate-Sound, leave_task-Sound, handle-refs,
}
use fuchsia_sdk.Fit.Resolves.{resolve_ticket-Sound, shut_down-Sound}

new_executor-Sound : IsSound new_executor
unfolding total occurs
new_executor-Sound = record {
  counted = record { counted = refl; referred = tt; few = omega arith; bounded = omega arith };
  accounted = record { refs = λ k. refl; unfinished = λ h. absurd (cc); below = omega arith };
  idle = λ h. refl;
  waits = λ h. absurd (cc);
  woken = λ h. absurd (cc);
  closed = λ h. absurd (cc);
  deletes = refl;
  conserved = λ t. refl;
}

entering-Sound :
    (x : Executor) → IsSound x → may_enter x.runner ≡ true → Gives IsSound (act entering x)
unfolding act
entering-Sound x sound may = by_runner x.runner refl may
  where
    by_runner :
        (r : Runner)
        → x.runner ≡ r
        → may_enter r ≡ true
        → Gives IsSound (elim r [
          | holding l ↦ elim l [ [] ↦ none | t ∷ tasks ↦ enter_task t tasks x ]
          | outside ↦ none
          | asleep ↦ none
          | awake ↦ none
          | running t tasks ↦ none
        ])
    by_runner (holding []) q may = absurd (cc)
    by_runner (holding (t ∷ l)) q may = enter_task-Sound x sound t l q
    by_runner outside q may = absurd (cc)
    by_runner asleep q may = absurd (cc)
    by_runner awake q may = absurd (cc)
    by_runner (running t l) q may = absurd (cc)

leaving-Sound :
    (f : Bool) (x : Executor)
    → IsSound x
    → is_running x.runner ≡ true
    → Gives IsSound (act (leaving f) x)
unfolding act
leaving-Sound f x sound runs = by_runner x.runner refl runs
  where
    by_runner :
        (r : Runner)
        → x.runner ≡ r
        → is_running r ≡ true
        → Gives IsSound (elim r [
          | running t tasks ↦ leave_task f t tasks x
          | outside ↦ none
          | asleep ↦ none
          | awake ↦ none
          | holding l ↦ none
        ])
    by_runner (running t l) q h = leave_task-Sound x sound f t l q
    by_runner outside q h = absurd (cc)
    by_runner asleep q h = absurd (cc)
    by_runner awake q h = absurd (cc)
    by_runner (holding l) q h = absurd (cc)

-- No assertion fails in an action that callers may do, and what it leaves is sound.
act-Sound : (a : Action) (x : Executor) → IsSound x → Allowed a x → Gives IsSound (act a x)
unfolding act
act-Sound (scheduling t) x s h = schedule_task-Sound x s t h
act-Sound waiting x s h = wait-Sound x s h.0 h.1
act-Sound entering x s h = entering-Sound x s h
act-Sound suspending x s h = suspend_current_task-Sound x s h.0 h.1
act-Sound (leaving f) x s h = leaving-Sound f x s h
act-Sound (duplicating k) x s h = duplicate-Sound x s k h.0 h.1
act-Sound (resolving k b) x s h = resolve_ticket-Sound x s k b h
act-Sound closing x s h = shut_down-Sound x s h.0 h.1
act-Sound notifies x s h = wake-Sound x s (x.notifying - 1)
act-Sound wakes_up x s h = wake-Sound x s x.notifying

-- What the threads can make of a new executor, in any order of their actions.
pub data Reach : Executor → Type 0 where
  here : Reach new_executor
  next : (a : Action) {x y : Executor} → Reach x → Allowed a x → act a x ≡ some y → Reach y

Reach-IsSound : (x : Executor) → Reach x → IsSound x
Reach-IsSound x here = new_executor-Sound
Reach-IsSound y (next a {x} r h q) =
    subst (λ (o : Option Executor). Gives IsSound o) q (act-Sound a x (Reach-IsSound x r) h)

-- Over every interleaving of the threads, an action that callers may do passes all assertions of
-- the executor and of its scheduler, and leads to a state that can be reached.
pub Reach-act : (a : Action) (x : Executor) → Reach x → Allowed a x → Gives Reach (act a x)
Reach-act a x r h = by_result (act a x) refl (act-Sound a x (Reach-IsSound x r) h)
  where
    by_result : (o : Option Executor) → act a x ≡ o → Gives IsSound o → Gives Reach o
    by_result none q g = g
    by_result (some y) q g = next a r h q

-- Over every interleaving, each task that was scheduled is in exactly one place, as often as it was
-- scheduled: it is runnable, suspended at a ticket, taken by the thread in `run`, or completed or
-- destroyed.
pub Reach-conserved :
    (x : Executor) (t : ℕ)
    → Reach x
    → occurs t x.scheduler.runnable_tasks
        + total (task_at t) x.scheduler.tickets
        + occurs t (taken x.runner)
        + occurs t x.gone
      ≡ occurs t x.scheduled
Reach-conserved x t r = (Reach-IsSound x r).conserved t

-- Over every interleaving, the count of suspended tasks is the number of tickets that have a task.
pub Reach-counted :
    (x : Executor) → Reach x → x.scheduler.suspended_task_count ≡ total held x.scheduler.tickets
Reach-counted x r = (Reach-IsSound x r).counted.counted

-- Over every interleaving, the references of a ticket are the `suspended_task` objects that hold
-- it, and one more while the task that obtained it runs.
pub Reach-refs :
    (x : Executor) (k : ℕ)
    → Reach x
    → total (refs_of k) x.scheduler.tickets ≡ occurs k x.handles + owed x.current_task_ticket k
Reach-refs x k r = (Reach-IsSound x r).accounted.refs k

-- Over every interleaving, the dispatcher is deleted exactly if the executor is destroyed and no
-- ticket is outstanding.
pub Reach-deleted :
    (x : Executor)
    → Reach x
    → x.deleted ≡ (x.was_shutdown && not (has_outstanding_tickets x.scheduler))
Reach-deleted x r = let s = Reach-IsSound x r in ground (arith, s.deletes)

-- Over every interleaving, once the dispatcher is deleted no task is runnable or suspended, as its
-- destructor asserts, and no `suspended_task` holds a ticket.
pub Reach-destructor :
    (x : Executor) (k : ℕ)
    → Reach x
    → x.deleted ≡ true
    → (has_runnable_tasks x.scheduler ≡ false)
      × (has_suspended_tasks x.scheduler ≡ false)
      × (occurs k x.handles ≡ 0)
Reach-destructor x k r d =
    let s = Reach-IsSound x r in
    let down : x.was_shutdown ≡ true = ground (arith, d, s.deletes) in
    let empty : is_nil x.scheduler.tickets ≡ true = ground (arith, d, s.deletes) in
    (
      rw (s.closed down).none_runnable refl,
      rw (s.closed down).none_counted refl,
      elim (Bool-cases (occurs k x.handles == 0)) [
        | inl nobody ↦ ground (arith, nobody)
        | inr somebody ↦
            let refs = handle-refs x s k (ground (arith, somebody)) in
            absurd (ground (arith, empty, is_nil-of-total (refs_of k) x.scheduler.tickets refs))
      ],
    )

-- Over every interleaving, if a thread sleeps in `run` while tasks are runnable then another thread
-- is about to notify it, and once it has, the next turn of the wait takes these tasks, all of
-- them and in order: no wake-up is lost.
pub Reach-wakes :
    (x : Executor) (t : ℕ) (l : List ℕ)
    → Reach x
    → x.runner ≡ asleep
    → x.scheduler.runnable_tasks ≡ t ∷ l
    → (0 < x.notifying)
      × Gives (λ y. Gives (λ z. z.runner ≡ holding (t ∷ l)) (act waiting y)) (act notifies x)
unfolding act wait wait_for_runnable_tasks take_runnable_tasks
Reach-wakes x t l r sleeps tasks = (notified (s.woken sleeps), wakes)
  where
    s : IsSound x
    s = Reach-IsSound x r

    notified : IsWoken x → 0 < x.notifying
    notified (inl later) = later
    notified (inr w) = absurd (ground (arith, w.1, tasks))

    alive : x.was_shutdown ≡ false
    alive = elim (Bool-cases x.was_shutdown) [
      | inl down ↦ absurd (ground (arith, ap is_outside sleeps, (s.closed down).not_in_run))
      | inr q ↦ q
    ]

    wakes : Gives (λ y. Gives (λ z. z.runner ≡ holding (t ∷ l)) (act waiting y)) (act notifies x)
    wakes = rw (sleeps, alive, tasks) refl
