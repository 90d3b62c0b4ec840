-- ===== src/Fit/Resolves.antt =====
-- pkg/fit/single_threaded_executor.cpp: resolving tickets, and the end of the executor.
use fuchsia_sdk.Base.{
  ℕ, suc, ◌+◌, ◌<◌, ◌≡◌, refl, ap, ◌∙◌, inl, inr, Bool, true, false, not, ◌&&◌, ◌||◌, Option, none,
  some, List, [], ◌∷◌, ◌++◌, arith, ◌==◌, ==_iff, if◌then◌else◌, Bool-cases, is_nil,
}
use fuchsia_sdk.Fit.Tickets.{Tickets, total}
use fuchsia_sdk.Fit.Scheduler.{
  PendingTask, Scheduler, resume_task_with_ticket, release_ticket, take_all_tasks,
  has_outstanding_tickets, has_runnable_tasks, has_suspended_tasks,
}
use fuchsia_sdk.Fit.Counted.{
  Released, occurs, occurs_in, occurs-append, held, holds, refs_of, task_at, Gives, if-Holds,
}
use fuchsia_sdk.Fit.Releases.{release_ticket-Released, resume_task-Released}
use fuchsia_sdk.Fit.Acquires.{is_nil-of-total, task-le-held, Taken, take_all_tasks-Taken}
use fuchsia_sdk.Fit.Executor.{
  Executor, Runner, outside, asleep, awake, holding, running, asserting, then_with, notify_later,
  drop_task, drop_handle, after_resolve, resolve_ticket, shut_down,
}
use fuchsia_sdk.Fit.Sound.{IsSound, IsWoken, is_running, is_sleeping, is_outside, taken}
use fuchsia_sdk.Fit.Turns.{asserting-Gives, not-true, nil_of}
use fuchsia_sdk.Fit.Suspends.{then_with-Gives, handle-refs}

occurs-drop_handle :
    (k i : ℕ) (l : List ℕ)
    → 0 < occurs k l
    → occurs i (drop_handle k l) + (if k == i then 1 else 0) ≡ occurs i l
unfolding occurs
occurs-drop_handle k i [] h = absurd (omega (arith, h))
occurs-drop_handle k i (j ∷ l) h = elim (Bool-cases (j == k)) [
  | inl same ↦ let e : j ≡ k = (==_iff j k).0 same in rw same (ground (arith, e))
  | inr other ↦
      let rest : 0 < occurs k l = ground (arith, h, other) in
      rw other (ground (arith, occurs-drop_handle k i l rest))
]

nil_of_occurs : (l : List ℕ) → ((t : ℕ) → occurs t l ≡ 0) → l ≡ []
unfolding occurs
nil_of_occurs [] h = refl
nil_of_occurs (t ∷ l) h = let here : occurs t (t ∷ l) ≡ 0 = h t in absurd (ground (arith, here))

held_of_tasks : (l : Tickets) → ((t : ℕ) → total (task_at t) l ≡ 0) → total held l ≡ 0
unfolding total
held_of_tasks [] h = refl
held_of_tasks ((k, r) ∷ l) h = by_task r.task (λ t. h t) (held_of_tasks l (λ t. omega (arith, h t)))
  where
    by_task :
        (o : PendingTask)
        → ((t : ℕ) → occurs_in t o + total (task_at t) l ≡ 0)
        → total held l ≡ 0
        → holds o + total held l ≡ 0
    by_task none g i = omega (arith, i)
    by_task (some t) g i = let here = g t in absurd (ground (arith, here))

is_sleeping-outside : (r : Runner) → is_outside r ≡ true → is_sleeping r ≡ false
is_sleeping-outside outside h = refl
is_sleeping-outside asleep h = absurd (cc)
is_sleeping-outside awake h = absurd (cc)
is_sleeping-outside (holding l) h = refl
is_sleeping-outside (running t l) h = refl

module _ (x : Executor) (sound : IsSound x) where
  -- After `shutdown`, what consumes a reference finds no task.
  Released-IsClosed :
      (k : ℕ) (left : PendingTask) (s : Scheduler)
      → Released k none left x.scheduler s
      → x.was_shutdown ≡ true
      → (s.runnable_tasks ≡ []) × (s.suspended_task_count ≡ 0)
  unfolding occurs
  Released-IsClosed k left s r down =
      let closed = sound.closed down in
      let nothing : (t : ℕ)
          → occurs t s.runnable_tasks + total (task_at t) s.tickets + occurs_in t left ≡ 0 =
        λ t.
          let runs : occurs t x.scheduler.runnable_tasks ≡ 0 = rw closed.none_runnable refl in
          omega (
            arith,
            r.tasks t,
            runs,
            closed.none_counted,
            sound.counted.counted,
            task-le-held t x.scheduler.tickets,
          ) in
      (
        nil_of_occurs s.runnable_tasks (λ t. omega (arith, nothing t)),
        r.counted.counted ∙ held_of_tasks s.tickets (λ t. omega (arith, nothing t)),
      )

  module _ (k : ℕ) (left : PendingTask) (s : Scheduler) (some_handle : 0 < occurs k x.handles)
      (r : Released k none left x.scheduler s) where
    resolved : Executor
    resolved = record x {
      handles = drop_handle k x.handles;
      scheduler = s;
      gone = drop_task left x.gone;
    }

    resolved-Sound :
        (b : Bool) (n : ℕ) (d : Bool)
        → (b ≡ true → x.need_wake ≡ true)
        → (x.runner ≡ asleep → IsWoken (record resolved { need_wake = b; notifying = n }))
        → d ≡ (x.was_shutdown && is_nil s.tickets)
        → IsSound (record resolved { need_wake = b; notifying = n; deleted = d })
    unfolding resolved occurs
    resolved-Sound b n d asks woken deletes = record {
      counted = r.counted;
      accounted = record {
        refs = λ i.
            omega (
              arith,
              r.refs i,
              sound.accounted.refs i,
              occurs-drop_handle k i x.handles some_handle,
            );
        unfinished =
            λ h. ground (arith, r.unheld x.current_task_ticket, sound.accounted.unfinished h);
        below = omega (arith, sound.accounted.below, r.same_next);
      };
      idle = sound.idle;
      waits = λ h. sound.waits (asks h);
      woken = woken;
      closed = λ down. record {
        none_runnable = (Released-IsClosed k left s r down).0;
        none_counted = (Released-IsClosed k left s r down).1;
        not_in_run = (sound.closed down).not_in_run;
      };
      deletes = deletes;
      conserved = λ t. moved t left r;
    }
      where
        moved :
            (t : ℕ) (left : PendingTask)
            → Released k none left x.scheduler s
            → occurs t s.runnable_tasks
                + total (task_at t) s.tickets
                + occurs t (taken x.runner)
                + occurs t (drop_task left x.gone)
              ≡ occurs t x.scheduled
        moved t none r = omega (arith, r.tasks t, sound.conserved t)
        moved t (some u) r = ground (arith, r.tasks t, sound.conserved t)

    after_resolve-Sound : Gives IsSound (after_resolve resolved)
    unfolding after_resolve resolved
    after_resolve-Sound =
        if-Holds (Gives IsSound) x.was_shutdown ended going (λ down. ended-Sound down)
          (λ alive.
            if-Holds (Gives IsSound)
              (x.need_wake && (has_runnable_tasks s || not (has_suspended_tasks s)))
              (some (notify_later resolved)) (some resolved)
              (λ _.
                resolved-Sound false (suc x.notifying) x.deleted (λ h. absurd (cc))
                  (λ _. inl (omega arith)) (ground (arith, sound.deletes, alive)))
              (λ still.
                resolved-Sound x.need_wake x.notifying x.deleted (λ h. h)
                  (λ q. waiting_still still (sound.woken q))
                  (ground (arith, sound.deletes, alive))))
      where
        ended : Option Executor
        ended = asserting (not x.need_wake) (
            if has_outstanding_tickets s
            then some resolved
            else some (record resolved { deleted = true }))

        going : Option Executor
        going =
            if x.need_wake && (has_runnable_tasks s || not (has_suspended_tasks s))
            then some (notify_later resolved)
            else some resolved

        waiting_still :
            (x.need_wake && (has_runnable_tasks s || not (has_suspended_tasks s))) ≡ false
            → IsWoken x
            → IsWoken resolved
        waiting_still still (inl later) = inl later
        waiting_still still (inr w) =
            inr (
              w.0,
              nil_of s.runnable_tasks (ground (arith, still, w.0)),
              ground (arith, still, w.0),
            )

        outstanding : is_nil x.scheduler.tickets ≡ false
        outstanding =
            is_nil-of-total (refs_of k) x.scheduler.tickets (handle-refs x sound k some_handle)

        ended-Sound : x.was_shutdown ≡ true → Gives IsSound ended
        ended-Sound down =
            let asleep_none = is_sleeping-outside x.runner (sound.closed down).not_in_run in
            let awake_none : x.runner ≡ asleep → IsWoken resolved =
              λ q. absurd (ground (arith, ap is_sleeping q, asleep_none)) in
            let unasked : x.need_wake ≡ false = elim (Bool-cases x.need_wake) [
              | inl asked ↦ absurd (ground (arith, sound.waits asked, asleep_none))
              | inr q ↦ q
            ] in
            asserting-Gives IsSound (not x.need_wake)
              (if has_outstanding_tickets s
                then some resolved
                else some (record resolved { deleted = true }))
              (not-true x.need_wake unasked)
              (if-Holds (Gives IsSound) (has_outstanding_tickets s) (some resolved)
                (some (record resolved { deleted = true }))
                (λ h.
                  resolved-Sound x.need_wake x.notifying x.deleted (λ b. b) awake_none
                    (ground (arith, sound.deletes, outstanding, h)))
                (λ h.
                  resolved-Sound x.need_wake x.notifying true (λ b. b) awake_none
                    (ground (arith, down, h))))

  pub resolve_ticket-Sound :
      (k : ℕ) (b : Bool) → 0 < occurs k x.handles → Gives IsSound (resolve_ticket k b x)
  unfolding resolve_ticket resolved
  resolve_ticket-Sound k b h =
      let refs = handle-refs x sound k h in
      let x' = record x { handles = drop_handle k x.handles } in
      if-Holds (Gives IsSound) b
        (then_with (resume_task_with_ticket k x.scheduler)
          (λ (did_resume, s). after_resolve (record x' { scheduler = s })))
        (then_with (release_ticket k x.scheduler) (λ (abandoned_task, s).
          after_resolve (record x' { scheduler = s; gone = drop_task abandoned_task x.gone })))
        (λ _.
          then_with-Gives (λ y. Released k none none x.scheduler y.1) IsSound
            (resume_task_with_ticket k x.scheduler)
            (λ (did_resume, s). after_resolve (record x' { scheduler = s }))
            (resume_task-Released k x.scheduler sound.counted refs)
            (λ y r. after_resolve-Sound k none y.1 h r))
        (λ _.
          then_with-Gives (λ y. Released k none y.0 x.scheduler y.1) IsSound
            (release_ticket k x.scheduler)
            (λ (abandoned_task, s).
              after_resolve (record x' { scheduler = s; gone = drop_task abandoned_task x.gone }))
            (release_ticket-Released k x.scheduler sound.counted refs)
            (λ y r. after_resolve-Sound k y.0 y.1 h r))

  shut_down-Taken :
      (tasks : List ℕ) (s : Scheduler) (d : Bool)
      → is_outside x.runner ≡ true
      → Taken x.scheduler tasks s
      → d ≡ is_nil s.tickets
      → IsSound
          (record x { scheduler = s; was_shutdown = true; gone = tasks ++ x.gone; deleted = d })
  unfolding occurs
  shut_down-Taken tasks s d out t deletes =
      let no_ticket : x.current_task_ticket ≡ 0 = sound.idle (not_running x.runner out) in
      record {
        counted = t.counted;
        accounted = record {
          refs = λ i. t.refs i ∙ sound.accounted.refs i;
          unfinished = λ h. absurd (ground (arith, h, no_ticket));
          below = omega (arith, no_ticket, t.counted.few);
        };
        idle = sound.idle;
        waits = sound.waits;
        woken = λ q. absurd (ground (arith, ap is_outside q, out));
        closed = λ _. record {
          none_runnable = t.none_runnable;
          none_counted = t.none_counted;
          not_in_run = out;
        };
        deletes = deletes;
        conserved = λ u.
            let runs : occurs u s.runnable_tasks ≡ 0 = ap (occurs u) t.none_runnable in
            omega
              (arith, runs, t.all u, t.empty u, sound.conserved u, occurs-append u tasks x.gone);
      }
    where
      not_running : (r : Runner) → is_outside r ≡ true → is_running r ≡ false
      not_running outside h = refl
      not_running asleep h = refl
      not_running awake h = refl
      not_running (holding l) h = refl
      not_running (running t l) h = absurd (cc)

  pub shut_down-Sound :
      x.was_shutdown ≡ false → is_outside x.runner ≡ true → Gives IsSound (shut_down x)
  unfolding shut_down
  shut_down-Sound alive out =
      asserting-Gives IsSound (not x.was_shutdown) (then_with (take_all_tasks [] x.scheduler) close)
        (not-true x.was_shutdown alive)
        (then_with-Gives (λ (y : List ℕ × Scheduler). Taken x.scheduler y.0 y.1) IsSound
          (take_all_tasks [] x.scheduler) close (take_all_tasks-Taken x.scheduler sound.counted)
          (λ y t.
            if-Holds IsSound (has_outstanding_tickets y.1) (closing_with y.0 y.1)
              (record (closing_with y.0 y.1) { deleted = true })
              (λ h.
                shut_down-Taken y.0 y.1 x.deleted out t (ground (arith, sound.deletes, alive, h)))
              (λ h. shut_down-Taken y.0 y.1 true out t (ground (arith, h)))))
    where
      closing_with : List ℕ → Scheduler → Executor
      closing_with tasks s = record x { scheduler = s; was_shutdown = true; gone = tasks ++ x.gone }

      close : List ℕ × Scheduler → Option Executor
      close (tasks, s) = some (
          if has_outstanding_tickets s
          then closing_with tasks s
          else record (closing_with tasks s) { deleted = true })
