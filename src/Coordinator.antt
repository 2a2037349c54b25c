-- ===== src/Coordinator.antt =====
-- internal/operations/coordinator.go: what an intent must be, how attempts end and what follows a lost worker.
pub mod Credentials
pub mod CredentialKeys
pub mod Intents
pub mod Attempts
pub mod Writer
pub mod Reconcile
pub mod Endings
pub mod Spending
pub mod Spent
pub mod Ledger
pub mod Accepts
pub mod Attempting
pub mod Bounds
pub mod Requeues
pub mod Outcomes
pub mod Lost
pub mod Steps
pub mod Holding
pub mod Reached
