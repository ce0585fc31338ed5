-- ===== src/Reconciliation.antt =====
-- dike-services/src/jobs/reconciliation.ts: what the contracts report is written to the tables.
pub mod Environment
pub mod Values
pub mod Rows
pub mod Summaries
pub mod Requests
pub mod Markets
pub mod Positions
pub mod Governance
pub mod Saves
pub mod Frame
pub mod Accepted
pub mod Filled
pub mod Projected
pub mod Elsewhere
pub mod Reported
pub mod Sample
mod Tests
pub mod Shown
