-- ===== src/Indexer.antt =====
-- dike-services/src/indexer: the source of a contract's events and the worker that processes them.
pub mod Source
pub mod Codecs
pub mod Dispatcher
pub mod Handlers
pub mod Worker
mod Tests
