-- ===== src/Db.antt =====
-- The keys and values of the storage tables, src/db/structs.rs.
pub mod TokenId
pub mod TokenMeta
pub mod AddressTokenId
pub mod AddressToken
pub mod TxPrevout
pub mod BlockInfo
pub mod Consensus
pub mod AddressLocation
pub mod Search
pub mod Partials
pub mod History
mod Tests
