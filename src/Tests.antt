-- ===== src/Tests.antt =====
-- Runs at concrete inputs: the theorems applied to messages, directories and sessions.
pub mod Wire
pub mod Table
pub mod Sessions
pub mod Snapshots
pub mod Routes
pub mod Chunks
pub mod Exchange
pub mod Client
pub mod Paths
pub mod Cache
pub mod Endpoint
pub mod Service
