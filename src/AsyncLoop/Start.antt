-- ===== src/AsyncLoop/Start.antt =====
-- The rest of a loop's life in pkg/async_loop/loop.c: its threads, and its destruction.
use fuchsia_sdk.Base.{
  ℕ, ◌≡◌, refl, Bool, true, false, List, [], ◌∷◌, ◌++◌, if◌then◌else◌, Bool-cases, inl, inr,
}
use fuchsia_sdk.AsyncLoop.Types.{
  Status, ok, err_bad_state, err_no_memory, Loop, LoopState, Kernel, Outcome, done, tick,
  is_shutdown, runnable, quit, shutdown, ◌>>◌,
}
use fuchsia_sdk.AsyncLoop.Run.{Client, PortAnswer}
use fuchsia_sdk.AsyncLoop.Drive.{RunResult, run, shutdown_loop}
use fuchsia_sdk.AsyncLoop.Documented.{IsDocumented}
use fuchsia_sdk.AsyncLoop.Total.{Ends, and_then-Ends}
use fuchsia_sdk.AsyncLoop.Shutdown.{Finished, shutdown_loop-Ends}

-- `async_loop_start_thread`, from whether `calloc` gave memory and the thread could be created.
unfoldable pub start_thread : Bool → Bool → ℕ → Loop → Status × Loop
start_thread memory created thread s =
    if is_shutdown s.state
    then (err_bad_state, s)
    else if memory
    then if created
      then (ok, record s { thread_list = s.thread_list ++ thread ∷ [] })
      else (err_no_memory, s)
    else (err_no_memory, s)

-- `async_loop_run_thread`, whose default dispatcher is its own.
unfoldable pub run_thread : Kernel → Client → List PortAnswer → Loop → Outcome RunResult
run_thread k client = run k client false

-- `async_loop_destroy` closes the port and the timer behind the shutdown.
unfoldable pub destroy : Kernel → Client → Loop → Outcome (Unit {0})
destroy k client = shutdown_loop k client >> (λ s. done tt (tick (tick s)))

-- Destroying a loop comes to its end on a kernel that answers as documented, whatever the handlers
-- that it calls do, and the loop is shut down then.
pub destroy-Ends :
    (k : Kernel) (doc : IsDocumented k) (client : Client) (s : Loop)
    → Ends (λ _ s'. s'.state ≡ shutdown) (destroy k client s)
unfolding destroy shutdown_loop
destroy-Ends k doc client s = elim (Bool-cases (is_shutdown s.state)) [
  | inl down ↦
      and_then-Ends (λ _ s'. s'.state ≡ shutdown) (λ _ s'. s'.state ≡ shutdown)
        (shutdown_loop k client s) (λ _ s'. done tt (tick (tick s'))) (again down) (λ _ s' e. e)
  | inr up ↦
      and_then-Ends (λ _ s'. Finished k doc client s s') (λ _ s'. s'.state ≡ shutdown)
        (shutdown_loop k client s) (λ _ s'. done tt (tick (tick s')))
        (shutdown_loop-Ends k doc client s up) (λ _ s' f. f.0.shut)
]
  where
    is_down : (state : LoopState) → is_shutdown state ≡ true → state ≡ shutdown
    is_down runnable h = absurd (cc)
    is_down quit h = absurd (cc)
    is_down shutdown h = refl

    again :
        is_shutdown s.state ≡ true → Ends (λ _ s'. s'.state ≡ shutdown) (shutdown_loop k client s)
    again down = rw down (is_down s.state down)
