-- ===== src/Tests.antt =====
-- A small database, and runs on it.
pub mod Data
mod Runs
mod Keys
mod Batches
mod Drafts
mod Completion
mod References
mod Deletions
mod Rates
mod Months
mod Jobs
