-- ===== src/Tests.antt =====
-- Concrete inputs and runs.
pub mod Data
mod Allocation
mod Storage
mod Requests
mod Tokens
mod Grants
mod Moves
mod Settings
mod Services
mod Interleaved
mod Load
