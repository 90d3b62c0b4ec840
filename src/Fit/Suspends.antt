-- ===== src/Fit/Suspends.antt =====
-- pkg/fit/single_threaded_executor.cpp: making and copying `suspended_task` objects, and the end
-- of a task's run.
use fuchsia_sdk.Base.{
  ℕ, ◌+◌, ◌^◌, ◌≤◌, ◌<◌, ◌≡◌, refl, sym, ap, ◌∙◌, inl, inr, Bool, true, false, not, ◌&&◌, Option,
  none, some, List, [], ◌∷◌, arith, length, ◌==◌, if◌then◌else◌, Bool-cases, is_nil,
}
use fuchsia_sdk.Fit.Tickets.{total}
use fuchsia_sdk.Fit.Scheduler.{
  PendingTask, Scheduler, obtain_ticket, duplicate_ticket, finalize_ticket,
}
use fuchsia_sdk.Fit.Counted.{Released, occurs, refs_of, task_at, Gives, if-Holds}
use fuchsia_sdk.Fit.Releases.{finalize_ticket-Released}
use fuchsia_sdk.Fit.Acquires.{
  Acquired, obtain_ticket-Acquired, duplicate_ticket-Acquired, held_at-fresh, is_nil-of-total,
}
use fuchsia_sdk.Fit.Executor.{
  Executor, Runner, outside, asleep, awake, holding, running, asserting, then_with,
  first_suspension, suspend_current_task, duplicate, drop_task, leave_task,
}
use fuchsia_sdk.Fit.Sound.{
  IsSound, IsWoken, HasRoom, owed, is_running, is_sleeping, is_outside, taken,
}
use fuchsia_sdk.Fit.Turns.{asserting-Gives, not-true}

-- Going on with the result of an operation.
pub then_with-Gives :
    {A B : Type 0} (P : A → Type 0) (Q : B → Type 0) (o : Option A) (f : A → Option B)
    → Gives P o
    → ((a : A) → P a → Gives Q (f a))
    → Gives Q (then_with o f)
then_with-Gives P Q none f g j = g
then_with-Gives P Q (some a) f g j = j a g

occurs-le-length : (k : ℕ) (l : List ℕ) → occurs k l ≤ length l
unfolding occurs
occurs-le-length k [] = omega arith
occurs-le-length k (i ∷ l) = ground (arith, occurs-le-length k l)

owed-le : (current k : ℕ) → owed current k ≤ 1
owed-le current k = ground arith

module _ (x : Executor) (sound : IsSound x) where
  -- A thread is in `run`, so the executor exists.
  pub running-alive : is_running x.runner ≡ true → x.was_shutdown ≡ false
  running-alive h = elim (Bool-cases x.was_shutdown) [
    | inl down ↦ absurd (both x.runner h (sound.closed down).not_in_run)
    | inr alive ↦ alive
  ]
    where
      both : (r : Runner) → is_running r ≡ true → is_outside r ≡ true → ⊥
      both (running t l) h k = cc
      both outside h k = cc
      both asleep h k = cc
      both awake h k = cc
      both (holding l) h k = cc

  -- While the executor exists the dispatcher is not deleted.
  pub alive-deletes : (b : Bool) → x.was_shutdown ≡ false → x.deleted ≡ (x.was_shutdown && b)
  alive-deletes b alive = ground (arith, sound.deletes, alive)

  -- A ticket that an object holds is outstanding.
  pub handle-refs : (k : ℕ) → 0 < occurs k x.handles → 0 < total (refs_of k) x.scheduler.tickets
  handle-refs k h = omega (arith, h, sound.accounted.refs k)

  refs-few : (k : ℕ) → HasRoom x → total (refs_of k) x.scheduler.tickets + 1 < 2 ^ 32
  refs-few k room = omega (
    arith,
    sound.accounted.refs k,
    room.handles,
    occurs-le-length k x.handles,
    owed-le x.current_task_ticket k,
  )

  Acquired-Sound :
      (k : ℕ) (s : Scheduler)
      → 0 < total (refs_of k) x.scheduler.tickets
      → Acquired k 1 x.scheduler s
      → IsSound (record x { scheduler = s; handles = k ∷ x.handles })
  unfolding occurs
  Acquired-Sound k s h a = record {
    counted = a.counted;
    accounted = record {
      refs = λ i. ground (arith, a.refs i, sound.accounted.refs i);
      unfinished = λ n. a.elsewhere x.current_task_ticket ∙ sound.accounted.unfinished n;
      below = omega (arith, sound.accounted.below, a.grown);
    };
    idle = sound.idle;
    waits = sound.waits;
    woken = λ q. woken (sound.woken q);
    closed = λ q. record {
      none_runnable = a.runnable ∙ (sound.closed q).none_runnable;
      none_counted = a.count ∙ (sound.closed q).none_counted;
      not_in_run = (sound.closed q).not_in_run;
    };
    deletes = sound.deletes ∙ ap (λ b. x.was_shutdown && b) same_nil;
    conserved = λ t. rw a.runnable (omega (arith, a.tasks t, sound.conserved t));
  }
    where
      same_nil : is_nil x.scheduler.tickets ≡ is_nil s.tickets
      same_nil =
          is_nil-of-total (refs_of k) x.scheduler.tickets h
          ∙ sym (is_nil-of-total (refs_of k) s.tickets (omega (arith, a.refs k, h)))

      woken : IsWoken x → IsWoken (record x { scheduler = s; handles = k ∷ x.handles })
      woken (inl later) = inl later
      woken (inr w) = inr (w.0, a.runnable ∙ w.1, omega (arith, a.count, w.2))

  pub duplicate-Sound : (k : ℕ) → 0 < occurs k x.handles → HasRoom x → Gives IsSound (duplicate k x)
  unfolding duplicate
  duplicate-Sound k h room =
      let r = handle-refs k h in
      then_with-Gives (Acquired k 1 x.scheduler) IsSound (duplicate_ticket k x.scheduler)
        (λ s. some (record x { scheduler = s; handles = k ∷ x.handles }))
        (duplicate_ticket-Acquired k x.scheduler sound.counted r (refs-few k room))
        (λ s a. Acquired-Sound k s r a)

  -- The ticket of the task that runs is outstanding.
  owed-refs :
      (x.current_task_ticket == 0) ≡ false
      → 0 < total (refs_of x.current_task_ticket) x.scheduler.tickets
  owed-refs later =
      let k = x.current_task_ticket in
      let same : (k == k) ≡ true = ground arith in
      let mine : owed k k ≡ 1 = rw (later, same) refl in omega (arith, sound.accounted.refs k, mine)

  first_suspension-Sound :
      is_running x.runner ≡ true
      → x.current_task_ticket ≡ 0
      → HasRoom x
      → IsSound (first_suspension x)
  unfolding first_suspension occurs obtain_ticket
  first_suspension-Sound run none_yet room =
      let k = x.scheduler.next_ticket in
      let s = (obtain_ticket 2 x.scheduler).1 in
      let a = obtain_ticket-Acquired 2 x.scheduler sound.counted (omega arith) room.tickets in
      record {
        counted = a.counted;
        accounted = record {
          refs = λ i.
              ground (arith, a.refs i, sound.accounted.refs i, none_yet, sound.accounted.below);
          unfinished =
              λ n. a.elsewhere k ∙ held_at-fresh k x.scheduler.tickets sound.counted.referred;
          below = a.above;
        };
        idle = λ q. absurd (ground (arith, q, run));
        waits = sound.waits;
        woken = λ q. absurd (ground (arith, ap is_running q, run));
        closed = λ q. absurd (ground (arith, q, running-alive run));
        deletes = alive-deletes (is_nil s.tickets) (running-alive run);
        conserved = λ t. rw a.runnable (omega (arith, a.tasks t, sound.conserved t));
      }

  pub suspend_current_task-Sound :
      is_running x.runner ≡ true → HasRoom x → Gives IsSound (suspend_current_task x)
  unfolding suspend_current_task
  suspend_current_task-Sound run room =
      asserting-Gives IsSound (not x.was_shutdown)
        (if x.current_task_ticket == 0 then some (first_suspension x) else again)
        (not-true x.was_shutdown (running-alive run))
        (if-Holds (Gives IsSound) (x.current_task_ticket == 0) (some (first_suspension x)) again
          (λ first. first_suspension-Sound run (ground (arith, first)) room)
          (λ later.
            let r : 0 < total (refs_of k) x.scheduler.tickets = owed-refs later in
            then_with-Gives (Acquired k 1 x.scheduler) IsSound (duplicate_ticket k x.scheduler)
              (λ s. some (record x { scheduler = s; handles = k ∷ x.handles }))
              (duplicate_ticket-Acquired k x.scheduler sound.counted r (refs-few k room))
              (λ s a. Acquired-Sound k s r a)))
    where
      k : ℕ
      k = x.current_task_ticket

      again : Option Executor
      again =
          then_with (duplicate_ticket k x.scheduler)
            (λ s. some (record x { scheduler = s; handles = k ∷ x.handles }))

  leave_task-pending :
      (f : Bool) (t : ℕ) (l : List ℕ) (left : PendingTask) (s : Scheduler)
      → x.runner ≡ running t l
      → (x.current_task_ticket == 0) ≡ false
      → Released x.current_task_ticket (if f then none else some t) left x.scheduler s
      → IsSound (record x {
        scheduler = s;
        current_task_ticket = 0;
        runner = holding l;
        gone = drop_task left (if f then t ∷ x.gone else x.gone);
      })
  unfolding occurs
  leave_task-pending f t l left s q has r =
      let alive = running-alive (ap is_running q) in
      record {
        counted = r.counted;
        accounted = record {
          refs = λ i. ground (arith, r.refs i, sound.accounted.refs i, has);
          unfinished = λ n. absurd (cc);
          below = omega (arith, r.counted.few);
        };
        idle = λ _. refl;
        waits = λ h. absurd (ground (arith, sound.waits h, ap is_sleeping q));
        woken = λ h. absurd (cc);
        closed = λ h. absurd (ground (arith, h, alive));
        deletes = alive-deletes (is_nil s.tickets) alive;
        conserved = λ u. moved u f left r;
      }
    where
      before :
          (u : ℕ)
          → occurs u x.scheduler.runnable_tasks
              + total (task_at u) x.scheduler.tickets
              + occurs u (t ∷ l)
              + occurs u x.gone
            ≡ occurs u x.scheduled
      before u = rw (ap taken q) at sound.conserved u

      moved :
          (u : ℕ) (f : Bool) (left : PendingTask)
          → Released x.current_task_ticket (if f then none else some t) left x.scheduler s
          → occurs u s.runnable_tasks
              + total (task_at u) s.tickets
              + occurs u l
              + occurs u (drop_task left (if f then t ∷ x.gone else x.gone))
            ≡ occurs u x.scheduled
      moved u false none r = ground (arith, before u, r.tasks u)
      moved u false (some v) r = ground (arith, before u, r.tasks u)
      moved u true none r = ground (arith, before u, r.tasks u)
      moved u true (some v) r = ground (arith, before u, r.tasks u)

  pub leave_task-Sound :
      (f : Bool) (t : ℕ) (l : List ℕ) → x.runner ≡ running t l → Gives IsSound (leave_task f t l x)
  unfolding leave_task occurs
  leave_task-Sound f t l q =
      if-Holds (Gives IsSound) (x.current_task_ticket == 0)
        (some (record x { runner = holding l; gone = t ∷ x.gone })) suspended
        (λ unsuspended. record {
          counted = sound.counted;
          accounted = record {
            refs = sound.accounted.refs;
            unfinished = sound.accounted.unfinished;
            below = sound.accounted.below;
          };
          idle = λ h. ground (arith, unsuspended);
          waits = λ h. absurd (ground (arith, sound.waits h, ap is_sleeping q));
          woken = λ h. absurd (cc);
          closed = λ h. absurd (ground (arith, h, running-alive (ap is_running q)));
          deletes = sound.deletes;
          conserved = λ u. ground (arith, before u);
        })
        (λ has.
          asserting-Gives IsSound (not x.was_shutdown)
            (then_with (finalize_ticket k (if f then none else some t) x.scheduler) kept)
            (not-true x.was_shutdown (running-alive (ap is_running q)))
            (then_with-Gives (λ y. Released k (if f then none else some t) y.0 x.scheduler y.1)
              IsSound (finalize_ticket k (if f then none else some t) x.scheduler) kept
              (finalize_ticket-Released k (if f then none else some t) x.scheduler sound.counted
                (owed-refs has) (sound.accounted.unfinished has))
              (λ y r. leave_task-pending f t l y.0 y.1 q has r)))
    where
      before :
          (u : ℕ)
          → occurs u x.scheduler.runnable_tasks
              + total (task_at u) x.scheduler.tickets
              + occurs u (t ∷ l)
              + occurs u x.gone
            ≡ occurs u x.scheduled
      before u = rw (ap taken q) at sound.conserved u

      k : ℕ
      k = x.current_task_ticket

      kept : PendingTask × Scheduler → Option Executor
      kept (left, s) = some (record x {
        scheduler = s;
        current_task_ticket = 0;
        runner = holding l;
        gone = drop_task left (if f then t ∷ x.gone else x.gone);
      })

      suspended : Option Executor
      suspended =
          asserting (not x.was_shutdown)
            (then_with (finalize_ticket k (if f then none else some t) x.scheduler) kept)
