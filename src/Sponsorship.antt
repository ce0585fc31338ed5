-- ===== src/Sponsorship.antt =====
-- Fee sponsorship: dike-services/src/sponsorship.
pub mod Types
pub mod Sdk
pub mod Fees
pub mod Allowlist
pub mod Validator
pub mod Signature
pub mod Quota
pub mod Replay
pub mod FeeBump
pub mod Submitter
pub mod Request
pub mod Service
mod Tests
