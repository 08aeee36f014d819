-- ===== src/Indexer.antt =====
-- What a block is processed to, src/inscriptions/indexer.rs.
pub mod Rows
pub mod Ids
pub mod Load
pub mod Block
mod Tests
