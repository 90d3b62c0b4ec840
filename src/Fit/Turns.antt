-- ===== src/Fit/Turns.antt =====
-- pkg/fit/single_threaded_executor.cpp: scheduling tasks, and the waits of the thread in `run`.
use fuchsia_sdk.Base.{
  ℕ, suc, ◌+◌, ◌≡◌, ◌≢◌, refl, sym, ap, ◌∙◌, inl, inr, Bool, true, false, not, Option, none, some,
  List, [], ◌∷◌, ◌++◌, arith, ◌==◌, if◌then◌else◌, is_nil,
}
use fuchsia_sdk.Fit.Tickets.{total}
use fuchsia_sdk.Fit.Scheduler.{Scheduler, push_task, take_runnable_tasks, has_suspended_tasks}
use fuchsia_sdk.Fit.Counted.{occurs, occurs-push, task_at, Gives, if-Holds}
use fuchsia_sdk.Fit.Executor.{
  Executor, asserting, Runner, outside, asleep, awake, holding, running, notify_later,
  schedule_task, wait, wait_for_runnable_tasks, enter_task, wake_runner,
}
use fuchsia_sdk.Fit.Sound.{IsSound, IsWoken, is_running, is_sleeping, is_outside, may_wait, taken}

-- An assertion that holds.
pub asserting-Gives :
    {A : Type 0} (P : A → Type 0) (b : Bool) (o : Option A)
    → b ≡ true
    → Gives P o
    → Gives P (asserting b o)
asserting-Gives P true o h g = g
asserting-Gives P false o h g = absurd (cc)

pub not-true : (b : Bool) → b ≡ false → not b ≡ true
not-true b h = rw h refl

pub nil_of : (l : List ℕ) → not (is_nil l) ≡ false → l ≡ []
nil_of [] h = refl
nil_of (t ∷ l) h = absurd (cc)

module _ (x : Executor) (sound : IsSound x) where
  pub schedule_task-Sound : (t : ℕ) → x.was_shutdown ≡ false → Gives IsSound (schedule_task t x)
  unfolding schedule_task push_task occurs
  schedule_task-Sound t alive =
      asserting-Gives IsSound (not x.was_shutdown)
        (some (if x.need_wake then notify_later pushed else pushed)) (not-true x.was_shutdown alive)
        (if-Holds IsSound x.need_wake (notify_later pushed) pushed
          (λ _. pushed-Sound false (suc x.notifying) (λ q. absurd (cc)) (λ q. inl (omega arith)))
          (λ asked.
            pushed-Sound x.need_wake x.notifying sound.waits (λ q. notified asked (sound.woken q))))
    where
      s : Scheduler
      s = record x.scheduler { runnable_tasks = x.scheduler.runnable_tasks ++ t ∷ [] }

      pushed : Executor
      pushed = record x { scheduler = s; scheduled = t ∷ x.scheduled }

      notified : x.need_wake ≡ false → IsWoken x → IsWoken pushed
      notified asked (inl later) = inl later
      notified asked (inr h) = absurd (ground (arith, h.0, asked))

      pushed-Sound :
          (b : Bool) (n : ℕ)
          → (b ≡ true → is_sleeping x.runner ≡ true)
          → (x.runner ≡ asleep → IsWoken (record pushed { need_wake = b; notifying = n }))
          → IsSound (record pushed { need_wake = b; notifying = n })
      pushed-Sound b n waits woken = record {
        counted = record {
          counted = sound.counted.counted;
          referred = sound.counted.referred;
          few = sound.counted.few;
          bounded = sound.counted.bounded;
        };
        accounted = record {
          refs = sound.accounted.refs;
          unfinished = sound.accounted.unfinished;
          below = sound.accounted.below;
        };
        idle = sound.idle;
        waits = waits;
        woken = woken;
        closed = λ q. absurd (ground (arith, q, alive));
        deletes = sound.deletes;
        conserved =
            λ u. ground (arith, sound.conserved u, occurs-push u t x.scheduler.runnable_tasks);
      }

  -- The wait of a thread that comes from outside, was notified or has run all it took.
  wait_for_runnable_tasks-Sound :
      (b : Bool)
      → x.was_shutdown ≡ false
      → taken x.runner ≡ []
      → x.current_task_ticket ≡ 0
      → (b ≡ true → ⊥)
      → Gives IsSound (wait_for_runnable_tasks (record x { need_wake = b }))
  unfolding wait_for_runnable_tasks take_runnable_tasks occurs
  wait_for_runnable_tasks-Sound b alive none_taken no_ticket unasked =
      asserting-Gives IsSound (not x.was_shutdown)
        (if not (is_nil x.scheduler.runnable_tasks)
          then some (record waiter { runner = holding x.scheduler.runnable_tasks })
          else if not (has_suspended_tasks s)
          then some (record waiter { runner = outside })
          else some (record waiter { runner = asleep; need_wake = true }))
        (not-true x.was_shutdown alive)
        (if-Holds (Gives IsSound) (not (is_nil x.scheduler.runnable_tasks))
          (some (record waiter { runner = holding x.scheduler.runnable_tasks }))
          (if not (has_suspended_tasks s)
            then some (record waiter { runner = outside })
            else some (record waiter { runner = asleep; need_wake = true }))
          (λ _.
            waiter-Sound (holding x.scheduler.runnable_tasks) b (λ q. absurd (unasked q))
              (λ q. absurd (cc)) refl (λ u. refl))
          (λ nil.
            if-Holds (Gives IsSound) (not (has_suspended_tasks s))
              (some (record waiter { runner = outside }))
              (some (record waiter { runner = asleep; need_wake = true }))
              (λ _.
                waiter-Sound outside b (λ q. absurd (unasked q)) (λ q. absurd (cc)) refl
                  (λ u. sym (ap (occurs u) (nil_of x.scheduler.runnable_tasks nil))))
              (λ some_suspended.
                waiter-Sound asleep true (λ q. refl)
                  (λ q. inr (refl, refl, ground (arith, some_suspended))) refl
                  (λ u. sym (ap (occurs u) (nil_of x.scheduler.runnable_tasks nil))))))
    where
      s : Scheduler
      s = record x.scheduler { runnable_tasks = [] }

      waiter : Executor
      waiter = record x { need_wake = b; scheduler = s }

      waiter-Sound :
          (r : Runner) (n : Bool)
          → (n ≡ true → is_sleeping r ≡ true)
          → (r ≡ asleep → IsWoken (record waiter { runner = r; need_wake = n }))
          → is_running r ≡ false
          → ((u : ℕ) → occurs u (taken r) ≡ occurs u x.scheduler.runnable_tasks)
          → IsSound (record waiter { runner = r; need_wake = n })
      waiter-Sound r n waits woken idle moved = record {
        counted = record {
          counted = sound.counted.counted;
          referred = sound.counted.referred;
          few = sound.counted.few;
          bounded = sound.counted.bounded;
        };
        accounted = record {
          refs = sound.accounted.refs;
          unfinished = sound.accounted.unfinished;
          below = sound.accounted.below;
        };
        idle = λ _. no_ticket;
        waits = waits;
        woken = woken;
        closed = λ q. absurd (ground (arith, q, alive));
        deletes = sound.deletes;
        conserved = λ u.
            let before : occurs u x.scheduler.runnable_tasks
                  + total (task_at u) x.scheduler.tickets
                  + occurs u []
                  + occurs u x.gone
                ≡ occurs u x.scheduled =
              rw none_taken at sound.conserved u in
            omega (arith, before, moved u);
      }

  pub wait-Sound : x.was_shutdown ≡ false → may_wait x.runner ≡ true → Gives IsSound (wait x)
  unfolding wait
  wait-Sound alive may = by_runner x.runner refl may
    where
      idle : (r : Runner) → x.runner ≡ r → is_running r ≡ false → x.current_task_ticket ≡ 0
      idle r q n = sound.idle (ap is_running q ∙ n)

      unasked : (r : Runner) → x.runner ≡ r → is_sleeping r ≡ false → x.need_wake ≡ true → ⊥
      unasked r q n asked = ground (arith, sound.waits asked, ap is_sleeping q, n)

      by_runner :
          (r : Runner)
          → x.runner ≡ r
          → may_wait r ≡ true
          → Gives IsSound (elim r [
            | outside ↦ wait_for_runnable_tasks x
            | asleep ↦ none
            | awake ↦ wait_for_runnable_tasks (record x { need_wake = false })
            | holding tasks ↦ if is_nil tasks then wait_for_runnable_tasks x else none
            | running t tasks ↦ none
          ])
      by_runner outside q may =
          wait_for_runnable_tasks-Sound x.need_wake alive (ap taken q) (idle outside q refl)
            (unasked outside q refl)
      by_runner asleep q may = absurd (cc)
      by_runner awake q may =
          wait_for_runnable_tasks-Sound false alive (ap taken q) (idle awake q refl)
            (λ h. absurd (cc))
      by_runner (holding []) q may =
          wait_for_runnable_tasks-Sound x.need_wake alive (ap taken q) (idle (holding []) q refl)
            (unasked (holding []) q refl)
      by_runner (holding (t ∷ l)) q may = absurd (cc)
      by_runner (running t l) q may = absurd (cc)

  -- The first of the tasks that were taken is entered.
  pub enter_task-Sound :
      (t : ℕ) (l : List ℕ) → x.runner ≡ holding (t ∷ l) → Gives IsSound (enter_task t l x)
  unfolding enter_task
  enter_task-Sound t l q =
      let no_ticket : x.current_task_ticket ≡ 0 = sound.idle (ap is_running q) in
      asserting-Gives IsSound (x.current_task_ticket == 0)
        (some (record x { runner = running t l })) (ground (arith, no_ticket))
        (record {
          counted = sound.counted;
          accounted = record {
            refs = sound.accounted.refs;
            unfinished = sound.accounted.unfinished;
            below = sound.accounted.below;
          };
          idle = λ h. no_ticket;
          waits = λ h. absurd (ground (arith, sound.waits h, ap is_sleeping q));
          woken = λ h. absurd (cc);
          closed = λ h. absurd (ground (arith, (sound.closed h).not_in_run, ap is_outside q));
          deletes = sound.deletes;
          conserved = λ u.
              ap
                (λ m.
                  occurs u x.scheduler.runnable_tasks
                  + total (task_at u) x.scheduler.tickets
                  + occurs u m
                  + occurs u x.gone)
                (sym (ap taken q))
              ∙ sound.conserved u;
        })

  -- The sleeping thread is woken, if there is one.
  pub wake-Sound : (n : ℕ) → IsSound (record x { runner = wake_runner x.runner; notifying = n })
  wake-Sound n = record {
    counted = sound.counted;
    accounted = record {
      refs = sound.accounted.refs;
      unfinished = sound.accounted.unfinished;
      below = sound.accounted.below;
    };
    idle = λ h. sound.idle (sym (same_running x.runner) ∙ h);
    waits = λ h. same_sleeping x.runner ∙ sound.waits h;
    woken = λ h. absurd (not_asleep x.runner h);
    closed = λ h. record {
      none_runnable = (sound.closed h).none_runnable;
      none_counted = (sound.closed h).none_counted;
      not_in_run = same_outside x.runner ∙ (sound.closed h).not_in_run;
    };
    deletes = sound.deletes;
    conserved = λ u.
        ap
          (λ m.
            occurs u x.scheduler.runnable_tasks
            + total (task_at u) x.scheduler.tickets
            + occurs u m
            + occurs u x.gone)
          (same_taken x.runner)
        ∙ sound.conserved u;
  }
    where
      same_running : (r : Runner) → is_running (wake_runner r) ≡ is_running r
      same_running outside = refl
      same_running asleep = refl
      same_running awake = refl
      same_running (holding l) = refl
      same_running (running t l) = refl

      same_sleeping : (r : Runner) → is_sleeping (wake_runner r) ≡ is_sleeping r
      same_sleeping outside = refl
      same_sleeping asleep = refl
      same_sleeping awake = refl
      same_sleeping (holding l) = refl
      same_sleeping (running t l) = refl

      same_outside : (r : Runner) → is_outside (wake_runner r) ≡ is_outside r
      same_outside outside = refl
      same_outside asleep = refl
      same_outside awake = refl
      same_outside (holding l) = refl
      same_outside (running t l) = refl

      same_taken : (r : Runner) → taken (wake_runner r) ≡ taken r
      same_taken outside = refl
      same_taken asleep = refl
      same_taken awake = refl
      same_taken (holding l) = refl
      same_taken (running t l) = refl

      not_asleep : (r : Runner) → wake_runner r ≢ asleep
      not_asleep outside h = cc
      not_asleep asleep h = cc
      not_asleep awake h = cc
      not_asleep (holding l) h = cc
      not_asleep (running t l) h = cc
