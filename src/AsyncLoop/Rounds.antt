-- ===== src/AsyncLoop/Rounds.antt =====
-- A whole call of `async_loop_dispatch_tasks` of pkg/async_loop/loop.c, on a loop as many threads
-- may have left it.
use fuchsia_sdk.Base.{◌≡◌, refl, false}
use fuchsia_sdk.AsyncLoop.Types.{Loop, Kernel, Config, Outcome, done, fault, out_of_fuel}
use fuchsia_sdk.AsyncLoop.Run.{Client, dispatch_tasks}
use fuchsia_sdk.AsyncLoop.Drive.{new_loop}
use fuchsia_sdk.AsyncLoop.Documented.{IsDocumented}
use fuchsia_sdk.AsyncLoop.Total.{Ends, dispatch_tasks-Ends}
use fuchsia_sdk.AsyncLoop.Queue.{IsSorted}
use fuchsia_sdk.AsyncLoop.Timer.{IsCovered}
use fuchsia_sdk.AsyncLoop.Steps.{Reach}
use fuchsia_sdk.AsyncLoop.Refine.{dispatch_tasks-Reach, Reach-trans, at_loop}
use fuchsia_sdk.AsyncLoop.Spent.{IsSpent, dispatch_tasks-IsSpent}
use fuchsia_sdk.AsyncLoop.Wakeups.{Reach-IsTimed}

-- What holds wherever an operation ends, with what is known of where it does.
Ends-with :
    {A : Type 0} (P Q : A → Loop → Type 0) (o : Outcome A)
    → Ends P o
    → ((a : A) (s : Loop) → o ≡ done a s → P a s → Q a s)
    → Ends Q o
Ends-with P Q (done a s) e h = h a s refl e
Ends-with P Q fault e h = absurd e
Ends-with P Q out_of_fuel e h = absurd e

-- What a round leaves: no thread that dispatches tasks, no task that is due unless the loop is no
-- longer to run, the queue in order, and the timer set for every task that is pending.
pub record Settled (s : Loop) : Type 0 where
  pub idle : s.dispatching_tasks ≡ false
  pub spent : IsSpent s
  pub sorted : IsSorted s.task_list
  pub covered : IsCovered s

-- From any loop that threads have reached from a new one, where no thread dispatches tasks and one
-- timer packet is under way, and on a kernel that answers as documented: the call of
-- async_loop_dispatch_tasks for that packet comes to its end, whatever the handlers call. It leaves
-- no thread dispatching tasks, no task on the due list unless the loop has quit or is shut down,
-- the queue in order of the deadlines, and the timer set for every task that is still pending, those
-- that the handlers posted included.
pub dispatch_tasks-Settled :
    (k : Kernel) (doc : IsDocumented k) (client : Client) (config : Config) (s : Loop)
    → Reach k (at_loop (new_loop config) 0) (at_loop s 1)
    → s.dispatching_tasks ≡ false
    → Ends (λ _ s'. Settled s') (dispatch_tasks k client s)
dispatch_tasks-Settled k doc client config s r q =
    Ends-with (λ _ s'. s'.dispatching_tasks ≡ false) (λ _ s'. Settled s')
      (dispatch_tasks k client s) (dispatch_tasks-Ends k doc client s q)
      (λ status s' e f.
        let v =
          Reach-IsTimed k config (Reach-trans r (dispatch_tasks-Reach k client 0 s s' status e)) in
        record {
          idle = f;
          spent = dispatch_tasks-IsSpent k client s s' status q e;
          sorted = v.sorted;
          covered = v.quiet f refl;
        })
