-- ===== src/AsyncLoop/Threads.antt =====
-- pkg/async_loop/loop.c: the threads in `async_loop_run` and those that make them leave. An access
-- to an atomic variable, and a system call, is one step, and the steps of all threads come in any
-- order.
use fuchsia_sdk.Base.{ℕ, suc, ◌+◌, ◌-◌, ◌%◌, ◌^◌, ◌<◌, ◌≡◌, ◌≢◌, ◌⊎◌, List, [], ◌∷◌, ◌++◌, length}
use fuchsia_sdk.AsyncLoop.Types.{LoopState, runnable, quit, shutdown}

-- Where a thread in `async_loop_run` is: about to load the loop's state, behind that in or before
-- `zx_port_wait`, with a packet, or about to be counted out.
pub data Phase : Type 0 where
  checking waits handling leaving : Phase

-- A thread in `async_loop_wake_threads`: about to load the count of active threads, or with so many
-- packets still to queue.
pub data Waker : Type 0 where
  flagged : Waker
  waking : ℕ → Waker

-- The variables, the threads, the wake-up packets on the port, and the threads that have found no
-- thread active in `async_loop_reset_quit`.
pub record Pool : Type 0 where
  pub state : LoopState
  pub active_threads : ℕ
  pub threads : List Phase
  pub wakers : List Waker
  pub controls : ℕ
  pub resetting : ℕ

abbrev pub new_pool : Pool
new_pool = record {
  state = runnable;
  active_threads = 0;
  threads = [];
  wakers = [];
  controls = 0;
  resetting = 0;
}

-- What `async_loop_run_once` does with the state it has loaded.
abbrev pub after_check : LoopState → Phase
after_check runnable = waits
after_check quit = leaving
after_check shutdown = leaving

-- The test of the loop of `async_loop_run` after a packet: another round, or an end.
abbrev pub IsNextRound : Phase → Type 0
IsNextRound p = (p ≡ checking) ⊎ (p ≡ leaving)

pub data PoolStep (a b : Pool) : Type 0 where
  -- `async_loop_run` starts, on one of fewer than 2^32 threads.
  enters :
      length a.threads + 1 < 2 ^ 32
      → b ≡ record a {
        active_threads = (a.active_threads + 1) % 2 ^ 32;
        threads = checking ∷ a.threads;
      }
      → PoolStep a b
  checks :
      (l r : List Phase)
      → a.threads ≡ l ++ checking ∷ r
      → b ≡ record a { threads = l ++ after_check a.state ∷ r }
      → PoolStep a b
  -- `zx_port_wait` gives a wake-up packet, another packet, or none.
  woken_up :
      (l r : List Phase) (p : Phase) (n : ℕ)
      → a.threads ≡ l ++ waits ∷ r
      → a.controls ≡ suc n
      → IsNextRound p
      → b ≡ record a { threads = l ++ p ∷ r; controls = n }
      → PoolStep a b
  served :
      (l r : List Phase)
      → a.threads ≡ l ++ waits ∷ r
      → b ≡ record a { threads = l ++ handling ∷ r }
      → PoolStep a b
  failed :
      (l r : List Phase)
      → a.threads ≡ l ++ waits ∷ r
      → b ≡ record a { threads = l ++ leaving ∷ r }
      → PoolStep a b
  handled :
      (l r : List Phase) (p : Phase)
      → a.threads ≡ l ++ handling ∷ r
      → IsNextRound p
      → b ≡ record a { threads = l ++ p ∷ r }
      → PoolStep a b
  leaves :
      (l r : List Phase)
      → a.threads ≡ l ++ leaving ∷ r
      → b ≡ record a { threads = l ++ r; active_threads = a.active_threads - 1 }
      → PoolStep a b
  -- `async_loop_quit` and `async_loop_shutdown` change the state and go on to wake the threads.
  quits :
      a.state ≡ runnable → b ≡ record a { state = quit; wakers = flagged ∷ a.wakers } → PoolStep a b
  shuts_down :
      a.state ≢ shutdown
      → b ≡ record a { state = shutdown; wakers = flagged ∷ a.wakers }
      → PoolStep a b
  -- `async_loop_wake_threads`.
  counts :
      (l r : List Waker)
      → a.wakers ≡ l ++ flagged ∷ r
      → b ≡ record a { wakers = l ++ waking a.active_threads ∷ r }
      → PoolStep a b
  queues :
      (l r : List Waker) (n : ℕ)
      → a.wakers ≡ l ++ waking (suc n) ∷ r
      → b ≡ record a { wakers = l ++ waking n ∷ r; controls = suc a.controls }
      → PoolStep a b
  returns :
      (l r : List Waker)
      → a.wakers ≡ l ++ waking 0 ∷ r
      → b ≡ record a { wakers = l ++ r }
      → PoolStep a b
  -- `async_loop_reset_quit` loads the count, and then exchanges the state if it is `quit`.
  finds_idle : a.active_threads ≡ 0 → b ≡ record a { resetting = suc a.resetting } → PoolStep a b
  resets :
      (n : ℕ)
      → a.resetting ≡ suc n
      → a.state ≡ quit
      → b ≡ record a { resetting = n; state = runnable }
      → PoolStep a b
  resets_not :
      (n : ℕ) → a.resetting ≡ suc n → a.state ≢ quit → b ≡ record a { resetting = n } → PoolStep a b

pub data PoolReach : Pool → Type 0 where
  here : PoolReach new_pool
  next : {a b : Pool} → PoolReach a → PoolStep a b → PoolReach b
