-- ===== src/Indexer.antt =====
-- The Go package `indexer`, with indexer/db/bbolt.
pub mod Data
pub mod Utils
pub mod Database
pub mod BlockIndexer
pub mod Bbolt
pub mod Runner
