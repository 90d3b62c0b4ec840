-- ===== src/AsyncLoop/PoolExamples.antt =====
-- pkg/async_loop/loop.c: one thread runs the loop while another quits it.
use fuchsia_sdk.Base.{◌≤◌, refl, [], ◌∷◌, arith}
use fuchsia_sdk.AsyncLoop.Types.{quit}
use fuchsia_sdk.AsyncLoop.Threads.{
  Pool, new_pool, waits, PoolReach, here, next, enters, checks, quits, counts, queues, returns,
}
use fuchsia_sdk.AsyncLoop.Leaving.{blocked, PoolReach-woken}

abbrev one_waits : Pool
one_waits = record new_pool { active_threads = 1; threads = waits ∷ [] }

PoolReach-one_waits : PoolReach one_waits
PoolReach-one_waits = next (next here (enters (omega arith) refl)) (checks [] [] refl refl)

abbrev one_woken : Pool
one_woken = record one_waits { state = quit; controls = 1 }

PoolReach-one_woken : PoolReach one_woken
PoolReach-one_woken =
    next
      (next (next (next PoolReach-one_waits (quits refl refl)) (counts [] [] refl refl))
        (queues [] [] 0 refl refl))
      (returns [] [] refl refl)

PoolReach-woken_example : blocked one_woken ≤ one_woken.controls
PoolReach-woken_example = PoolReach-woken one_woken PoolReach-one_woken (λ q. cc) refl
