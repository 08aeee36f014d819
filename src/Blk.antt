-- ===== src/Blk.antt =====
-- The reader of blocks, packages/new-blk-parser.
pub mod Reader
pub mod VarUint
pub mod Tx
pub mod ReadTx
pub mod TxTrip
pub mod Merkle
pub mod CheckPoint
pub mod Chain
pub mod Block
pub mod BlockTrip
mod Tests
