-- ===== src/AsyncLoop/Types.antt =====
-- The data of pkg/async_loop/loop.c: the loop itself, the tasks on its lists, the packets that it
-- reads from its port, and the system calls that it makes.
use fuchsia_sdk.Base.{ℕ, suc, ◌-◌, ◌^◌, Bool, true, false, Option, List}

-- `zx_status_t`: the codes that the loop tests or returns, and all the others.
pub data Status : Type 0 where
  ok err_internal err_not_supported err_no_memory err_invalid_args err_out_of_range : Status
  err_bad_state err_timed_out err_canceled err_not_found err_already_exists : Status
  err_access_denied err_wrong_type : Status
  other : ℕ → Status

abbrev pub is_ok : Status → Bool
is_ok ok = true
is_ok _ = false

-- `zx_time_t` is an `int64_t`; the time t is the number t + 2^63, whose order is that of t.
abbrev pub time_zero : ℕ
time_zero = 2 ^ 63

-- `ZX_TIME_INFINITE`, INT64_MAX.
abbrev pub time_infinite : ℕ
time_infinite = 2 ^ 64 - 1

-- `async_task_t`: its address and its deadline.
pub record Task : Type 0 where
  pub id : ℕ
  pub deadline : ℕ

-- `async_loop_state_t`.
pub data LoopState : Type 0 where
  runnable quit shutdown : LoopState

abbrev pub is_runnable : LoopState → Bool
is_runnable runnable = true
is_runnable _ = false

abbrev pub is_shutdown : LoopState → Bool
is_shutdown shutdown = true
is_shutdown _ = false

-- The calls out of the loop into client code: the two hooks of `async_loop_config_t`, and the
-- handlers of the objects that were registered, by the object's address.
pub data Callback : Type 0 where
  prologue epilogue : Callback
  wait_handler : ℕ → Status → Callback
  task_handler : ℕ → Status → Callback
  receiver_handler : ℕ → Status → Callback
  trap_handler : ℕ → Status → Callback
  exception_handler : ℕ → Status → Callback

-- `async_loop_config_t`: whether each hook is set, and whether the loop is the thread's default.
pub record Config : Type 0 where
  pub make_default_for_current_thread : Bool
  pub has_prologue : Bool
  pub has_epilogue : Bool

-- `async_loop_t`. An intrusive list is the sequence of its nodes' owners from the head on. Beside
-- the fields of the struct stand the deadline last given to `zx_timer_set` while it has not
-- expired, the user packets that the loop has queued on its port (by key), the thread's default
-- dispatcher, the calls made into client code, the latest first, and the number of system calls.
pub record Loop : Type 0 where
  pub config : Config
  pub state : LoopState
  pub active_threads : ℕ
  pub dispatching_tasks : Bool
  pub wait_list : List ℕ
  pub task_list : List Task
  pub due_list : List Task
  pub thread_list : List ℕ
  pub exception_list : List ℕ
  pub timer : Option ℕ
  pub queued : List ℕ
  pub is_default : Bool
  pub trace : List Callback
  pub syscalls : ℕ

-- What the kernel answers. The first argument is the number of the system call.
pub record Kernel : Type 0 where
  pub now : ℕ → ℕ
  pub timer_set : ℕ → ℕ → Status
  pub wait_async : ℕ → ℕ → Status
  pub port_cancel : ℕ → ℕ → Status
  pub port_queue : ℕ → ℕ → Status
  pub set_trap : ℕ → ℕ → Status
  pub bind_exception_port : ℕ → ℕ → Status
  pub unbind_exception_port : ℕ → ℕ → Status
  pub resume_from_exception : ℕ → ℕ → Status

-- The end of an operation: its value and the loop, a failed `ZX_ASSERT` or a null dereference,
-- or a bound on the rounds of a loop that was too small.
pub data Outcome (A : Type 0) : Type 0 where
  done : A → Loop → Outcome A
  fault : Outcome A
  out_of_fuel : Outcome A

abbrev pub and_then : {A B : Type 0} → Outcome A → (A → Loop → Outcome B) → Outcome B
and_then (done a s) f = f a s
and_then fault f = fault
and_then out_of_fuel f = out_of_fuel

infixl 5 ◌>>=◌ ◌>>◌
abbrev pub ◌>>=◌ : {A B : Type 0} → (Loop → Outcome A) → (A → Loop → Outcome B) → Loop → Outcome B
◌>>=◌ m f s = and_then (m s) f

abbrev pub ◌>>◌ : {A B : Type 0} → (Loop → Outcome A) → (Loop → Outcome B) → Loop → Outcome B
◌>>◌ m k = m >>= λ _. k

abbrev pub return : {A : Type 0} → A → Loop → Outcome A
return a s = done a s

-- One more system call has been made.
abbrev pub tick : Loop → Loop
tick s = record s { syscalls = suc s.syscalls }
