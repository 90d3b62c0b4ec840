-- ===== src/AsyncLoop/Run.antt =====
-- The functions of pkg/async_loop/loop.c that call into client code: the dispatch of callbacks,
-- the rounds of the loop, and shutting it down.
use fuchsia_sdk.Base.{ℕ, zero, suc, ◌+◌, Bool, Option, none, some, ◌∷◌, ◌==◌, if◌then◌else◌, length}
use fuchsia_sdk.AsyncLoop.Types.{
  Status, ok, err_bad_state, err_canceled, err_internal, Task, Loop, Kernel, runnable, quit,
  shutdown, Callback, prologue, epilogue, wait_handler, task_handler, receiver_handler,
  trap_handler, exception_handler, Outcome, done, and_then, fault, out_of_fuel, return, tick, ◌>>=◌,
  ◌>>◌,
}
use fuchsia_sdk.AsyncLoop.Dispatch.{dispatch_begin, dispatch_resume}
use fuchsia_sdk.AsyncLoop.Ops.{Script, run_script, key_control, has_node, delete_node}

-- `zx_port_packet_t`, as far as the loop reads it: `timer_signaled` is
-- `signal.observed & ZX_TIMER_SIGNALED`.
pub data PacketKind : Type 0 where
  user signal_one signal_rep guest_bell exception unknown : PacketKind

pub record Packet : Type 0 where
  pub key : ℕ
  pub kind : PacketKind
  pub status : Status
  pub timer_signaled : Bool

-- What `zx_port_wait` returns.
pub data PortAnswer : Type 0 where
  failed : Status → PortAnswer
  received : Packet → PortAnswer

-- The client gives each callback its body, which may depend on the whole state at that moment.
abbrev pub Client : Type 0
Client = Callback → Loop → Script

module _ (k : Kernel) (client : Client) where
  -- One call into client code.
  unfoldable pub invoke : Callback → Loop → Outcome (Unit {0})
  invoke c s = run_script k (client c s) (record s { trace = c ∷ s.trace })

  unfoldable pub invoke_prologue : Loop → Outcome (Unit {0})
  invoke_prologue s = if s.config.has_prologue then invoke prologue s else done tt s

  unfoldable pub invoke_epilogue : Loop → Outcome (Unit {0})
  invoke_epilogue s = if s.config.has_epilogue then invoke epilogue s else done tt s

  -- The five `async_loop_dispatch_*` functions but for the tasks' own differ in the handler only.
  unfoldable pub dispatch : Callback → Loop → Outcome (Unit {0})
  dispatch c = invoke_prologue >> (invoke c >> invoke_epilogue)

  unfoldable pub dispatch_wait : ℕ → Status → Loop → Outcome Status
  dispatch_wait i status = dispatch (wait_handler i status) >> return ok

  unfoldable pub dispatch_task : Task → Status → Loop → Outcome (Unit {0})
  dispatch_task t status = dispatch (task_handler t.id status)

  unfoldable pub dispatch_packet : ℕ → Status → Loop → Outcome Status
  dispatch_packet i status = dispatch (receiver_handler i status) >> return ok

  unfoldable pub dispatch_guest_bell_trap : ℕ → Status → Loop → Outcome Status
  dispatch_guest_bell_trap i status = dispatch (trap_handler i status) >> return ok

  unfoldable pub dispatch_exception : ℕ → Status → Loop → Outcome Status
  dispatch_exception i status = dispatch (exception_handler i status) >> return ok

  -- The `while` of `async_loop_dispatch_tasks`, given the task taken from the due list.
  unfoldable pub dispatch_rounds : ℕ → Option Task → Loop → Outcome Status
  dispatch_rounds fuel none s = done ok s
  dispatch_rounds zero (some t) s = out_of_fuel
  dispatch_rounds (suc fuel) (some t) s =
      and_then ((dispatch_task t ok >> dispatch_resume k) s) λ next s'. dispatch_rounds fuel next s'

  -- A round dispatches the tasks that are due when it begins: one more than all pending tasks is
  -- enough fuel.
  unfoldable pub dispatch_tasks : Loop → Outcome Status
  dispatch_tasks s =
      (dispatch_begin k >>= dispatch_rounds (suc (length s.due_list + length s.task_list))) s

  abbrev pub control_packet : Packet → Loop → Outcome Status
  control_packet p s = elim p.kind [
    | user ↦ done ok s
    | signal_rep ↦
        if p.timer_signaled then dispatch_tasks (record s { timer = none }) else done err_internal s
    | _ ↦ done err_internal s
  ]

  abbrev pub object_packet : Packet → Loop → Outcome Status
  object_packet p s = elim p.kind [
    | signal_one ↦
        if has_node p.key s.wait_list
        then dispatch_wait p.key p.status (record s { wait_list = delete_node p.key s.wait_list })
        else fault
    | user ↦ dispatch_packet p.key p.status s
    | guest_bell ↦ dispatch_guest_bell_trap p.key p.status s
    | exception ↦ dispatch_exception p.key p.status s
    | signal_rep ↦ done err_internal s
    | unknown ↦ done err_internal s
  ]

  unfoldable pub run_once : PortAnswer → Loop → Outcome Status
  run_once answer s = elim s.state [
    | shutdown ↦ done err_bad_state s
    | quit ↦ done err_canceled s
    | runnable ↦ elim answer [
      | failed status ↦ done status (tick s)
      | received p ↦
          if p.key == key_control then control_packet p (tick s) else object_packet p (tick s)
    ]
  ]
