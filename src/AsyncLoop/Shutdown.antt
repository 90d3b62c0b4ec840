-- ===== src/AsyncLoop/Shutdown.antt =====
-- `async_loop_shutdown` of pkg/async_loop/loop.c as a whole.
use fuchsia_sdk.Base.{ℕ, ◌≤◌, ◌≡◌, refl, ap, true, false, [], List, arith, length}
use fuchsia_sdk.AsyncLoop.Types.{Loop, Kernel, done, ◌>>◌, shutdown, is_shutdown}
use fuchsia_sdk.AsyncLoop.Ops.{wake_threads}
use fuchsia_sdk.AsyncLoop.Run.{Client}
use fuchsia_sdk.AsyncLoop.Drive.{
  drain_waits, drain_due, drain_tasks, drain_exceptions, drain, pending, join_threads,
  clear_default, shutdown_loop,
}
use fuchsia_sdk.AsyncLoop.Documented.{IsDocumented, wake_threads-IsDone}
use fuchsia_sdk.AsyncLoop.Tame.{SameLists, wake_threads-SameLists}
use fuchsia_sdk.AsyncLoop.Total.{Ends, Ends-of, Ends-map, and_then-Ends, test-Ends}
use fuchsia_sdk.AsyncLoop.Closed.{
  Drained, nil_of_length, drain_waits-Ends, drain_due-Ends, drain_tasks-Ends, drain_exceptions-Ends,
}

-- The loop is shut down and nothing is pending on it.
pub record IsEmptied (s : Loop) : Type 0 where
  pub shut : s.state ≡ shutdown
  pub waits : s.wait_list ≡ []
  pub due : s.due_list ≡ []
  pub tasks : s.task_list ≡ []
  pub exceptions : s.exception_list ≡ []

still_nil : {A : Type 0} (l r : List A) → length l ≤ length r → r ≡ [] → l ≡ []
still_nil l r h e = nil_of_length l (omega (arith, ap length e))

module _ (k : Kernel) (doc : IsDocumented k) (client : Client) where
  drain-Ends :
      (fuel : ℕ) (s : Loop)
      → s.state ≡ shutdown
      → pending s ≤ fuel
      → Ends (λ _ s'. IsEmptied s' × (s'.config ≡ s.config)) (drain k client fuel s)
  unfolding drain
  drain-Ends fuel s q h =
      and_then-Ends (λ _ s'. Drained (λ r. r.wait_list) s s')
        (λ _ s'. IsEmptied s' × (s'.config ≡ s.config)) (drain_waits k client fuel s)
        (λ _.
          drain_due k client fuel >> (drain_tasks k client fuel >> drain_exceptions k client fuel))
        (drain_waits-Ends k doc client fuel s q (omega arith))
        (λ _ a da.
          and_then-Ends (λ _ s'. Drained (λ r. r.due_list) a s')
            (λ _ s'. IsEmptied s' × (s'.config ≡ s.config)) (drain_due k client fuel a)
            (λ _. drain_tasks k client fuel >> drain_exceptions k client fuel)
            (drain_due-Ends k doc client fuel a da.shut (omega (arith, da.tame.due)))
            (λ _ b db.
              and_then-Ends (λ _ s'. Drained (λ r. r.task_list) b s')
                (λ _ s'. IsEmptied s' × (s'.config ≡ s.config)) (drain_tasks k client fuel b)
                (λ _. drain_exceptions k client fuel)
                (drain_tasks-Ends k doc client fuel b db.shut
                  (omega (arith, (da.tame.closing q).tasks, (db.tame.closing da.shut).tasks)))
                (λ _ c dc.
                  Ends-map (λ _ s'. Drained (λ r. r.exception_list) c s')
                    (λ _ s'. IsEmptied s' × (s'.config ≡ s.config))
                    (drain_exceptions k client fuel c)
                    (drain_exceptions-Ends k doc client fuel c dc.shut (
                      omega (
                        arith,
                        (da.tame.closing q).exceptions,
                        (db.tame.closing da.shut).exceptions,
                        (dc.tame.closing db.shut).exceptions,
                      )))
                    (λ _ e de. (
                      emptied a b c e da db dc de,
                      ground (
                        arith, da.tame.config_kept, db.tame.config_kept, dc.tame.config_kept,
                        de.tame.config_kept,
                      ),
                    )))))
    where
      emptied :
          (a b c e : Loop)
          → Drained (λ r. r.wait_list) s a
          → Drained (λ r. r.due_list) a b
          → Drained (λ r. r.task_list) b c
          → Drained (λ r. r.exception_list) c e
          → IsEmptied e
      emptied a b c e da db dc de =
          let tb = db.tame.closing da.shut in
          let tc = dc.tame.closing db.shut in
          let te = de.tame.closing dc.shut in
          record {
            shut = de.shut;
            waits =
                still_nil e.wait_list a.wait_list (omega (arith, tb.waits, tc.waits, te.waits))
                  da.empty;
            due =
                still_nil e.due_list b.due_list (omega (arith, dc.tame.due, de.tame.due)) db.empty;
            tasks = still_nil e.task_list c.task_list te.tasks dc.empty;
            exceptions = de.empty;
          }

  -- What is so once the loop is shut down.
  abbrev pub Finished : Loop → Loop → Type 0
  Finished s s' =
      IsEmptied s' × (s.config.make_default_for_current_thread ≡ true → s'.is_default ≡ false)

  -- Shutting down a loop that is not shut down yet comes to its end, on a kernel that answers as
  -- documented and whatever the handlers that it calls do: the loop is then shut down, all of its
  -- four lists are empty, and it is no longer the thread's default dispatcher if it was made so.
  pub shutdown_loop-Ends :
      (s : Loop)
      → is_shutdown s.state ≡ false
      → Ends (λ _ s'. Finished s s') (shutdown_loop k client s)
  unfolding shutdown_loop join_threads
  shutdown_loop-Ends s up =
      let s₁ = record s { state = shutdown } in
      rw up (
        and_then-Ends (λ _ s'. SameLists s₁ s') (λ _ s'. Finished s s')
          (wake_threads k s.active_threads s₁)
          (λ _. join_threads >> (drain k client (pending s) >> clear_default))
          (Ends-of (λ _ s'. SameLists s₁ s') (wake_threads k s.active_threads s₁)
            (wake_threads-IsDone k doc s.active_threads s₁)
            (λ _ s' e. wake_threads-SameLists k s.active_threads s₁ s' e))
          (λ _ a e.
            let a₁ = record a { thread_list = [] } in
            and_then-Ends (λ _ s'. IsEmptied s' × (s'.config ≡ a₁.config)) (λ _ s'. Finished s s')
              (drain k client (pending s) a₁) (λ _. clear_default)
              (drain-Ends (pending s) a₁ (ground arith) (ground arith))
              (λ _ b f.
                test-Ends (λ _ s'. Finished s s') b.config.make_default_for_current_thread
                  (done tt (record b { is_default = false })) (done tt b)
                  (λ _. (cleared b f.0, λ _. refl))
                  (λ q. (f.0, λ m. absurd (clash b q (ground arith) m))))))
    where
      cleared : (b : Loop) → IsEmptied b → IsEmptied (record b { is_default = false })
      cleared b f = record {
        shut = f.shut;
        waits = f.waits;
        due = f.due;
        tasks = f.tasks;
        exceptions = f.exceptions;
      }

      clash :
          (b : Loop)
          → b.config.make_default_for_current_thread ≡ false
          → b.config ≡ s.config
          → s.config.make_default_for_current_thread ≡ true
          → ⊥
      clash b q e m = ground arith
