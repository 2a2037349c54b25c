-- ===== src/Operations.antt =====
-- internal/operationstore: operations, the leases under which workers run
-- them, the events that record them and what they spend.
pub mod Types
pub mod Store
pub mod Moves
pub mod Writes
pub mod Updates
pub mod Calls
pub mod Spend
pub mod Reads
pub mod Run
pub mod Log
pub mod Resume
pub mod Follows
pub mod Fence
pub mod Leases
pub mod Keys
pub mod Idempotent
pub mod SpendKept
