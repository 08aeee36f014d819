-- ===== src/Reorg/Entry.antt =====
-- The entries of a reorganisation in src/reorg.rs, and what `proceed` does with them.
use bel_20_indexer.Prelude.{ℕ, some, List, [], ◌∷◌, nat_eq, list_eq}
use bel_20_indexer.Storage.Table.{remove, extend, remove_batch}
use bel_20_indexer.Tokens.Types.{
  LowerCaseTokenTick, OutPoint, outpoint_eq, AddressToken, address_token_eq, TokenBalance,
  TransferProtoDb,
}
use bel_20_indexer.Db.TokenId.{TokenId, token_id_eq}
use bel_20_indexer.Db.TokenMeta.{TokenMetaDb}
use bel_20_indexer.Db.AddressTokenId.{AddressTokenIdDb, address_token_id_eq}
use bel_20_indexer.Db.AddressLocation.{AddressLocation, address_location_eq}
use bel_20_indexer.Db.TxPrevout.{TxPrevout}
use bel_20_indexer.Db.Partials.{Partials}
use bel_20_indexer.Reorg.Tables.{TokenTables, OrdinalTables}

pub data TokenHistoryEntry (F : Type 0) : Type 0 where
  balances_before : List (AddressToken × TokenBalance F) → TokenHistoryEntry F
  balances_to_remove : List AddressToken → TokenHistoryEntry F
  deploys_to_remove : List LowerCaseTokenTick → TokenHistoryEntry F
  deploys_to_restore : List (LowerCaseTokenTick × TokenMetaDb F) → TokenHistoryEntry F
  restore_transfers : List (AddressLocation × TransferProtoDb F) → TokenHistoryEntry F
  remove_transfers : List AddressLocation → TokenHistoryEntry F
  remove_history :
      (to_remove : List AddressTokenIdDb) (last_history_id : ℕ) (outpoint_to_event : List OutPoint)
      (height : ℕ) (token_id_to_event : List TokenId)
      → TokenHistoryEntry F

pub data OrdinalsEntry : Type 0 where
  restore_offsets : List (OutPoint × List ℕ) → OrdinalsEntry
  remove_offsets : List OutPoint → OrdinalsEntry
  restore_prevouts : List (OutPoint × TxPrevout) → OrdinalsEntry
  restore_partial : List (OutPoint × Partials) → OrdinalsEntry
  remove_partials : List OutPoint → OrdinalsEntry

unfoldable pub proceed_token : {F : Type 0} → TokenHistoryEntry F → TokenTables F → TokenTables F
proceed_token (TokenHistoryEntry.deploys_to_remove to_remove) db = record db {
  token_to_meta = remove_batch to_remove db.token_to_meta;
}
proceed_token (TokenHistoryEntry.deploys_to_restore items) db = record db {
  token_to_meta = extend items db.token_to_meta;
}
proceed_token (TokenHistoryEntry.balances_before items) db = record db {
  address_token_to_balance = extend items db.address_token_to_balance;
}
proceed_token (TokenHistoryEntry.balances_to_remove address_tokens) db = record db {
  address_token_to_balance = remove_batch address_tokens db.address_token_to_balance;
}
proceed_token (TokenHistoryEntry.restore_transfers items) db = record db {
  address_location_to_transfer = extend items db.address_location_to_transfer;
}
proceed_token (TokenHistoryEntry.remove_transfers address_locations) db = record db {
  address_location_to_transfer = remove_batch address_locations db.address_location_to_transfer;
}
proceed_token
      (TokenHistoryEntry.remove_history to_remove last_history_id outpoints height token_ids) db =
    record db {
      last_history_id = some last_history_id;
      block_events = remove height db.block_events;
      address_token_to_history = remove_batch to_remove db.address_token_to_history;
      outpoint_to_event = remove_batch outpoints db.outpoint_to_event;
      token_id_to_event = remove_batch token_ids db.token_id_to_event;
    }

unfoldable pub proceed_ordinals : OrdinalsEntry → OrdinalTables → OrdinalTables
proceed_ordinals (OrdinalsEntry.restore_offsets items) db = record db {
  outpoint_to_inscription_offsets = extend items db.outpoint_to_inscription_offsets;
}
proceed_ordinals (OrdinalsEntry.remove_offsets outpoints) db = record db {
  outpoint_to_inscription_offsets = remove_batch outpoints db.outpoint_to_inscription_offsets;
}
proceed_ordinals (OrdinalsEntry.restore_prevouts items) db = record db {
  prevouts = extend items db.prevouts;
}
proceed_ordinals (OrdinalsEntry.restore_partial items) db = record db {
  outpoint_to_partials = extend items db.outpoint_to_partials;
}
proceed_ordinals (OrdinalsEntry.remove_partials outpoints) db = record db {
  outpoint_to_partials = remove_batch outpoints db.outpoint_to_partials;
}

-- The loops of `restore` over the entries of a block, in which an entry is proceeded with after
-- those that were pushed later.
unfoldable pub undo_tokens :
    {F : Type 0} → List (TokenHistoryEntry F) → TokenTables F → TokenTables F
undo_tokens [] db = db
undo_tokens (entry ∷ entries) db = proceed_token entry (undo_tokens entries db)

unfoldable pub undo_ordinals : List OrdinalsEntry → OrdinalTables → OrdinalTables
undo_ordinals [] db = db
undo_ordinals (entry ∷ entries) db = proceed_ordinals entry (undo_ordinals entries db)
