-- ===== src/Tokens.antt =====
-- The token engine of src/tokens: its data, the state machine over the parsed actions, the
-- registry of holders, and what is proved of them.
pub mod Types
pub mod Holders
pub mod Proto
pub mod Parse
pub mod Accept
pub mod Process
pub mod Measure
pub mod Sound
pub mod Steps
pub mod Terms
pub mod Spent
pub mod Load
pub mod Needs
pub mod Ledger
pub mod Queue
pub mod Sets
pub mod Registry
pub mod Samples
mod Tests
