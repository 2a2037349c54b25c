-- ===== src/Derivation.antt =====
-- internal/harness/derivation.go and derivation_status.go: the state machine that turns one
-- session's raw event stream into its state, status, usage, spend and turn summaries.
pub mod State
pub mod Question
pub mod Turns
pub mod TurnQueue
pub mod Status
pub mod Spend
pub mod Machine
pub mod Derive
pub mod Run
pub mod Transitions
pub mod Held
pub mod Tools
pub mod OpenTurns
pub mod Account
pub mod Spent
pub mod Estimate
pub mod Sums
pub mod UsageTotals
pub mod Approvals
pub mod Outlived
