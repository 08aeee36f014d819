-- ===== src/Storage.antt =====
-- The tables of the storage, packages/rocksdb-wrapper.
pub mod Table
pub mod Undo
