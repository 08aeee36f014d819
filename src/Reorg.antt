-- ===== src/Reorg.antt =====
-- What is written of a block and how it is taken back, src/reorg.rs and
-- src/inscriptions/process_data.rs.
pub mod Tables
pub mod Entry
pub mod Cache
pub mod Write
pub mod Undo
pub mod UndoOrdinals
pub mod Written
pub mod Handle
pub mod Restore
pub mod Back
pub mod Bounds
pub mod Index
pub mod Follows
mod Tests
