-- ===== src/Fidl.antt =====
-- pkg/fidl: the coding tables, the walker over a message, and the three classes derived from it,
-- which validate, decode and encode a message in place.
pub mod Tables
pub mod Memory
pub mod Frames
pub mod Visitor
pub mod Claims
pub mod Stack
pub mod Steps
pub mod Table
pub mod Walk
pub mod Rules
pub mod Turns
pub mod Typed
pub mod Work
pub mod Safe
pub mod SafeTurns
pub mod SafeVectors
pub mod SafeTables
pub mod Returns
pub mod Builder
pub mod StringTurns
pub mod TableTurns
pub mod Walks
pub mod Storage
pub mod Bounds
pub mod Accepted
pub mod TableFaults
pub mod DoubleClose
mod Examples
