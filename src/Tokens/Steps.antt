-- ===== src/Tokens/Steps.antt =====
-- Each kind of action of src/tokens/parser.rs keeps the invariant and accounts for every amount.
pub mod Credit
pub mod Mint
pub mod Deploy
pub mod Lock
pub mod Settle
