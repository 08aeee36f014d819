-- ===== src/Reorg/Tables.antt =====
-- The tables of src/db/mod.rs, in the groups that the two kinds of entries of a reorganisation
-- write to. A table of one row, whose key is (), is an optional value.
use bel_20_indexer.Prelude.{ℕ, Option, List}
use bel_20_indexer.Storage.Table.{Table}
use bel_20_indexer.Tokens.Types.{
  FullHash, LowerCaseTokenTick, OutPoint, AddressToken, TokenBalance, TransferProtoDb,
}
use bel_20_indexer.Db.TokenId.{TokenId}
use bel_20_indexer.Db.TokenMeta.{TokenMetaDb}
use bel_20_indexer.Db.AddressTokenId.{AddressTokenIdDb}
use bel_20_indexer.Db.AddressLocation.{AddressLocation}
use bel_20_indexer.Db.TxPrevout.{TxPrevout}
use bel_20_indexer.Db.BlockInfo.{BlockInfo}
use bel_20_indexer.Db.Partials.{Partials}
use bel_20_indexer.Db.History.{HistoryValue}

pub record TokenTables (F : Type 0) : Type 0 where
  pub token_to_meta : Table LowerCaseTokenTick (TokenMetaDb F)
  pub address_location_to_transfer : Table AddressLocation (TransferProtoDb F)
  pub address_token_to_balance : Table AddressToken (TokenBalance F)
  pub address_token_to_history : Table AddressTokenIdDb (HistoryValue F)
  pub last_history_id : Option ℕ
  pub block_events : Table ℕ (List AddressTokenIdDb)
  pub outpoint_to_event : Table OutPoint AddressTokenIdDb
  pub token_id_to_event : Table TokenId AddressTokenIdDb

pub record OrdinalTables : Type 0 where
  pub prevouts : Table OutPoint TxPrevout
  pub outpoint_to_partials : Table OutPoint Partials
  -- A set of offsets is a list.
  pub outpoint_to_inscription_offsets : Table OutPoint (List ℕ)

-- A hash is the number of its bytes; an address is the list of its bytes.
pub record Db (F : Type 0) : Type 0 where
  pub token_tables : TokenTables F
  pub ordinal_tables : OrdinalTables
  pub block_info : Table ℕ BlockInfo
  pub last_block : Option ℕ
  pub proof_of_history : Table ℕ ℕ
  pub fullhash_to_address : Table FullHash (List ℕ)
