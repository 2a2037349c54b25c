-- ===== src/Tests.antt =====
-- Runs of the model on concrete inputs, and each theorem at an input that meets its hypotheses.
pub mod Samples
pub mod DerivationRuns
pub mod LogQueueRuns
pub mod SpendRuns
pub mod AttachHubRuns
pub mod OneShotRuns
pub mod CompactionRuns
pub mod OperationRuns
pub mod CoordinatorRuns
pub mod AttemptRuns
