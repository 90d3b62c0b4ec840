-- ===== src/Fit.antt =====
-- pkg/fit: the scheduler of suspended tasks, and the executor that runs tasks on one thread while
-- other threads schedule and resume them.
pub mod Tickets
pub mod Scheduler
pub mod Executor
pub mod Counted
pub mod Releases
pub mod Acquires
pub mod Sound
pub mod Turns
pub mod Suspends
pub mod Resolves
pub mod Reach
mod Examples
pub mod Orders
