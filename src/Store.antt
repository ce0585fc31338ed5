-- ===== src/Store.antt =====
-- The database behind the services: dike-services/src/db/repositories/state-repository.ts. A statement
-- is a function of the tables that it reads and writes; `updated_at` and the failures of the database
-- itself are not modelled.
pub mod Values
pub mod Tables
pub mod Framed
pub mod Bootstrap
pub mod Listings
pub mod Upserts
pub mod Database
pub mod Governance
pub mod Events
mod Tests
