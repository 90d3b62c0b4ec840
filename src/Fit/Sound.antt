-- ===== src/Fit/Sound.antt =====
-- pkg/fit/single_threaded_executor.cpp: what holds of the dispatcher whatever the threads do, and
-- what the threads may do.
use fuchsia_sdk.Base.{
  ℕ, ◌+◌, ◌^◌, ◌<◌, ◌≡◌, ◌⊎◌, Bool, true, false, not, ◌&&◌, List, [], ◌∷◌, length, ◌==◌,
  if◌then◌else◌, is_nil,
}
use fuchsia_sdk.Fit.Tickets.{total}
use fuchsia_sdk.Fit.Counted.{IsCounted, occurs, refs_of, held_at, task_at}
use fuchsia_sdk.Fit.Executor.{
  Executor, Runner, outside, asleep, awake, holding, running, Action, scheduling, waiting, entering,
  suspending, leaving, duplicating, resolving, closing, notifies, wakes_up,
}

-- The task that runs refers to its ticket until it is finalized.
abbrev pub owed : ℕ → ℕ → ℕ
owed current k = if current == 0 then 0 else if current == k then 1 else 0

-- Every reference to a ticket is an object's or the running task's, which is not suspended yet.
pub record IsAccounted (x : Executor) : Type 0 where
  pub refs :
      (k : ℕ)
      → total (refs_of k) x.scheduler.tickets ≡ occurs k x.handles + owed x.current_task_ticket k
  pub unfinished :
      (x.current_task_ticket == 0) ≡ false
      → total (held_at x.current_task_ticket) x.scheduler.tickets ≡ 0
  pub below : x.current_task_ticket < x.scheduler.next_ticket

abbrev pub is_running : Runner → Bool
is_running outside = false
is_running asleep = false
is_running awake = false
is_running (holding l) = false
is_running (running t l) = true

abbrev pub is_sleeping : Runner → Bool
is_sleeping outside = false
is_sleeping asleep = true
is_sleeping awake = true
is_sleeping (holding l) = false
is_sleeping (running t l) = false

abbrev pub is_outside : Runner → Bool
is_outside outside = true
is_outside asleep = false
is_outside awake = false
is_outside (holding l) = false
is_outside (running t l) = false

-- Tasks that the thread in `run` has taken.
abbrev pub taken : Runner → List ℕ
taken outside = []
taken asleep = []
taken awake = []
taken (holding l) = l
taken (running t l) = t ∷ l

-- A thread that sleeps has nothing to do, and will be woken when it has, or is about to be.
abbrev pub IsWoken : Executor → Type 0
IsWoken x =
    (0 < x.notifying)
    ⊎ ((x.need_wake ≡ true)
        × (x.scheduler.runnable_tasks ≡ [])
        × (0 < x.scheduler.suspended_task_count))

-- After `shutdown` no task is left and no thread is in `run`.
pub record IsClosed (x : Executor) : Type 0 where
  pub none_runnable : x.scheduler.runnable_tasks ≡ []
  pub none_counted : x.scheduler.suspended_task_count ≡ 0
  pub not_in_run : is_outside x.runner ≡ true

pub record IsSound (x : Executor) : Type 0 where
  pub counted : IsCounted x.scheduler
  pub accounted : IsAccounted x
  pub idle : is_running x.runner ≡ false → x.current_task_ticket ≡ 0
  pub waits : x.need_wake ≡ true → is_sleeping x.runner ≡ true
  pub woken : x.runner ≡ asleep → IsWoken x
  pub closed : x.was_shutdown ≡ true → IsClosed x
  pub deletes : x.deleted ≡ (x.was_shutdown && is_nil x.scheduler.tickets)
  pub conserved :
      (t : ℕ)
      → occurs t x.scheduler.runnable_tasks
          + total (task_at t) x.scheduler.tickets
          + occurs t (taken x.runner)
          + occurs t x.gone
        ≡ occurs t x.scheduled

-- Fewer than 2^64 tickets are obtained, and fewer than 2^32 - 1 objects exist at any time.
pub record HasRoom (x : Executor) : Type 0 where
  pub tickets : x.scheduler.next_ticket + 1 < 2 ^ 64
  pub handles : length x.handles + 2 < 2 ^ 32

abbrev pub may_wait : Runner → Bool
may_wait outside = true
may_wait asleep = false
may_wait awake = true
may_wait (holding l) = is_nil l
may_wait (running t l) = false

abbrev pub may_enter : Runner → Bool
may_enter outside = false
may_enter asleep = false
may_enter awake = false
may_enter (holding l) = not (is_nil l)
may_enter (running t l) = false

-- What the comments in the headers ask of callers: the executor is not used after its destruction,
-- which only happens outside of `run`; a `suspended_task` is copied or resolved while it holds a
-- ticket; and there is room for what is made.
abbrev pub Allowed : Action → Executor → Type 0
Allowed (scheduling t) x = x.was_shutdown ≡ false
Allowed waiting x = (x.was_shutdown ≡ false) × (may_wait x.runner ≡ true)
Allowed entering x = may_enter x.runner ≡ true
Allowed suspending x = (is_running x.runner ≡ true) × HasRoom x
Allowed (leaving finished) x = is_running x.runner ≡ true
Allowed (duplicating k) x = (0 < occurs k x.handles) × HasRoom x
Allowed (resolving k resume_task) x = 0 < occurs k x.handles
Allowed closing x = (x.was_shutdown ≡ false) × (is_outside x.runner ≡ true)
Allowed notifies x = 0 < x.notifying
Allowed wakes_up x = Unit
