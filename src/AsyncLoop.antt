-- ===== src/AsyncLoop.antt =====
-- pkg/async_loop/loop.c and the structures of its headers.
pub mod Types
pub mod Tasks
pub mod Queue
pub mod Dispatch
pub mod Ops
pub mod Run
pub mod Drive
pub mod Steps
pub mod Threads
pub mod Leaving
pub mod Keeps
pub mod Timer
pub mod Timed
pub mod Wakeups
pub mod Documented
pub mod Tame
pub mod Total
pub mod Closed
pub mod Shutdown
pub mod Start
pub mod Refine
pub mod Lifecycle
pub mod Quiet
pub mod Due
pub mod Handlers
pub mod Spent
pub mod Rounds
pub mod Roundtrip
mod Examples
mod PoolExamples
