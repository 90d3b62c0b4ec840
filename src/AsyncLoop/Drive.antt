-- ===== src/AsyncLoop/Drive.antt =====
-- The life of a loop in pkg/async_loop/loop.c: creating it, running it round after round, and
-- shutting it down.
use fuchsia_sdk.Base.{
  ℕ, zero, suc, ◌+◌, ◌-◌, Bool, false, Option, none, some, List, [], ◌∷◌, if◌then◌else◌, length,
}
use fuchsia_sdk.AsyncLoop.Types.{
  Status, ok, err_no_memory, err_timed_out, err_canceled, is_ok, Loop, Kernel, runnable, shutdown,
  is_shutdown, Config, Outcome, done, and_then, fault, out_of_fuel, return, ◌>>=◌, ◌>>◌,
}
use fuchsia_sdk.AsyncLoop.Ops.{wake_threads}
use fuchsia_sdk.AsyncLoop.Run.{
  Client, PortAnswer, run_once, dispatch_wait, dispatch_task, dispatch_exception,
}

-- The loop that `async_loop_create` has made once the port and the timer are there.
unfoldable pub new_loop : Config → Loop
new_loop config = record {
  config = config;
  state = runnable;
  active_threads = 0;
  dispatching_tasks = false;
  wait_list = [];
  task_list = [];
  due_list = [];
  thread_list = [];
  exception_list = [];
  timer = none;
  queued = [];
  is_default = config.make_default_for_current_thread;
  trace = [];
  syscalls = 3;
}

-- `async_loop_create`, from whether `calloc` gave memory and what the three system calls answered;
-- a loop that could not be set up is destroyed again.
unfoldable pub create : Config → Bool → Status → Status → Status → Status × Option Loop
create config memory port timer wait_async =
    if memory
    then if is_ok port
      then if is_ok timer
        then if is_ok wait_async then (wait_async, some (new_loop config)) else (wait_async, none)
        else (timer, none)
      else (port, none)
    else (err_no_memory, none)

-- A run that the port has nothing more to give waits in `zx_port_wait`.
pub data RunResult : Type 0 where
  returned : Status → RunResult
  waiting : RunResult

abbrev pub leave : RunResult → Loop → Outcome RunResult
leave (returned status) s =
    done (returned status) (record s { active_threads = s.active_threads - 1 })
leave waiting s = done waiting s

abbrev pub idle_status : RunResult → RunResult
idle_status (returned err_timed_out) = returned ok
idle_status r = r

-- All objects that are pending: enough fuel for each of the four loops.
abbrev pub pending : Loop → ℕ
pending s = length s.wait_list + length s.due_list + length s.task_list + length s.exception_list

-- `async_loop_join_threads`, whose threads have ended.
unfoldable pub join_threads : Loop → Outcome (Unit {0})
join_threads s = done tt (record s { thread_list = [] })

abbrev pub clear_default : Loop → Outcome (Unit {0})
clear_default s =
    if s.config.make_default_for_current_thread
    then done tt (record s { is_default = false })
    else done tt s

module _ (k : Kernel) (client : Client) where
  -- The `do … while (status == ZX_OK && !once)` of `async_loop_run`, over what the port answers.
  unfoldable pub run_rounds : Bool → List PortAnswer → Loop → Outcome RunResult
  run_rounds once [] s = done waiting s
  run_rounds once (answer ∷ answers) s = elim (run_once k client answer s) [
    | done status s' ↦
        let rest = run_rounds once answers s' in
        if is_ok status
        then (if once then done (returned status) s' else rest)
        else done (returned status) s'
    | fault ↦ fault
    | out_of_fuel ↦ out_of_fuel
  ]

  unfoldable pub run : Bool → List PortAnswer → Loop → Outcome RunResult
  run once answers s =
      (run_rounds once answers >>= leave) (record s { active_threads = s.active_threads + 1 })

  unfoldable pub run_until_idle : List PortAnswer → Loop → Outcome RunResult
  run_until_idle answers = run false answers >>= λ r. return (idle_status r)

  -- The four loops of `async_loop_shutdown`: `list_remove_head` until the list is empty.
  unfoldable pub drain_waits : ℕ → Loop → Outcome (Unit {0})
  drain_waits zero s = elim s.wait_list [ [] ↦ done tt s | _ ↦ out_of_fuel ]
  drain_waits (suc fuel) s = elim s.wait_list [
    | [] ↦ done tt s
    | i ∷ l ↦
        and_then (dispatch_wait k client i err_canceled (record s { wait_list = l }))
          λ _ s'. drain_waits fuel s'
  ]

  unfoldable pub drain_due : ℕ → Loop → Outcome (Unit {0})
  drain_due zero s = elim s.due_list [ [] ↦ done tt s | _ ↦ out_of_fuel ]
  drain_due (suc fuel) s = elim s.due_list [
    | [] ↦ done tt s
    | t ∷ l ↦
        and_then (dispatch_task k client t err_canceled (record s { due_list = l }))
          λ _ s'. drain_due fuel s'
  ]

  unfoldable pub drain_tasks : ℕ → Loop → Outcome (Unit {0})
  drain_tasks zero s = elim s.task_list [ [] ↦ done tt s | _ ↦ out_of_fuel ]
  drain_tasks (suc fuel) s = elim s.task_list [
    | [] ↦ done tt s
    | t ∷ l ↦
        and_then (dispatch_task k client t err_canceled (record s { task_list = l }))
          λ _ s'. drain_tasks fuel s'
  ]

  unfoldable pub drain_exceptions : ℕ → Loop → Outcome (Unit {0})
  drain_exceptions zero s = elim s.exception_list [ [] ↦ done tt s | _ ↦ out_of_fuel ]
  drain_exceptions (suc fuel) s = elim s.exception_list [
    | [] ↦ done tt s
    | i ∷ l ↦
        and_then (dispatch_exception k client i err_canceled (record s { exception_list = l }))
          λ _ s'. drain_exceptions fuel s'
  ]

  unfoldable pub drain : ℕ → Loop → Outcome (Unit {0})
  drain fuel = drain_waits fuel >> (drain_due fuel >> (drain_tasks fuel >> drain_exceptions fuel))

  unfoldable pub shutdown_loop : Loop → Outcome (Unit {0})
  shutdown_loop s =
      if is_shutdown s.state
      then done tt s
      else (wake_threads k s.active_threads
            >> (join_threads >> (drain (pending s) >> clear_default)))
          (record s { state = shutdown })
