-- ===== src/Reorg/Write.antt =====
-- `ProcessedData` of src/inscriptions/process_data.rs and `write`: what is written of a block, and
-- the entries that are pushed to take it back. A `HashMap` is the list of its entries.
use bel_20_indexer.Prelude.{
  ℕ, Option, none, some, List, [], ◌∷◌, nat_eq, list_eq, leb, if◌then◌else◌, ◌>>=◌,
}
use bel_20_indexer.Map.{Map, lookup}
use bel_20_indexer.Storage.Table.{
  Table, set, extend, remove_batch, multi_get_kv, multi_get_all, keys, new_keys,
}
use bel_20_indexer.Tokens.Types.{
  FullHash, LowerCaseTokenTick, OutPoint, outpoint_eq, AddressToken, address_token_eq, TokenBalance,
  TransferProtoDb,
}
use bel_20_indexer.Db.TokenId.{TokenId, token_id_eq}
use bel_20_indexer.Db.TokenMeta.{TokenMetaDb}
use bel_20_indexer.Db.AddressTokenId.{AddressTokenIdDb, address_token_id_eq}
use bel_20_indexer.Db.AddressLocation.{AddressLocation, address_location_eq}
use bel_20_indexer.Db.TxPrevout.{TxPrevout}
use bel_20_indexer.Db.BlockInfo.{BlockInfo}
use bel_20_indexer.Db.Partials.{Partials}
use bel_20_indexer.Db.History.{HistoryValue, outpoint}
use bel_20_indexer.Reorg.Tables.{TokenTables, OrdinalTables, Db}
use bel_20_indexer.Reorg.Entry.{TokenHistoryEntry, OrdinalsEntry}
use bel_20_indexer.Reorg.Cache.{ReorgCache, Blocks, push_token_entry, push_ordinals_entry}

pub data ProcessedData (F : Type 0) : Type 0 where
  info : (block_number : ℕ) (block_info : BlockInfo) (block_proof : ℕ) → ProcessedData F
  prevouts : (to_write : Map OutPoint TxPrevout) (to_remove : List OutPoint) → ProcessedData F
  full_hash : (addresses : List (FullHash × List ℕ)) → ProcessedData F
  history :
      (block_number last_history_id : ℕ) (history : List (AddressTokenIdDb × HistoryValue F))
      → ProcessedData F
  tokens :
      (metas : List (LowerCaseTokenTick × TokenMetaDb F))
      (balances : List (AddressToken × TokenBalance F))
      (transfers_to_write : List (AddressLocation × TransferProtoDb F))
      (transfers_to_remove : List AddressLocation)
      → ProcessedData F
  inscription_partials : (to_remove to_write : List (OutPoint × Partials)) → ProcessedData F
  inscription_offset : (to_remove to_write : List (OutPoint × List ℕ)) → ProcessedData F

-- The insertion of a key behind those whose number is not greater, and `sorted_unstable_by_key`.
unfoldable pub insert_by_id : AddressTokenIdDb → List AddressTokenIdDb → List AddressTokenIdDb
insert_by_id key [] = key ∷ []
insert_by_id key (k ∷ ks) =
    let behind = insert_by_id key ks in if leb k.id key.id then k ∷ behind else key ∷ (k ∷ ks)

unfoldable pub sorted_by_id : List AddressTokenIdDb → List AddressTokenIdDb
sorted_by_id [] = []
sorted_by_id (k ∷ ks) = insert_by_id k (sorted_by_id ks)

module _ {F : Type 0} where
  unfoldable pub outpoint_events :
      List (AddressTokenIdDb × HistoryValue F) → List (OutPoint × AddressTokenIdDb)
  outpoint_events [] = []
  outpoint_events (h ∷ hs) = (outpoint h.1.action, h.0) ∷ outpoint_events hs

  unfoldable pub token_id_events :
      List (AddressTokenIdDb × HistoryValue F) → List (TokenId × AddressTokenIdDb)
  token_id_events [] = []
  token_id_events (h ∷ hs) = (record { token = h.0.token; id = h.0.id }, h.0) ∷ token_id_events hs

-- What the removed outputs were, those of this block included; `none` is a panic.
unfoldable pub prevouts_before :
    Table OutPoint TxPrevout
    → Map OutPoint TxPrevout
    → List OutPoint
    → Option (List (OutPoint × TxPrevout))
prevouts_before table to_write [] = some []
prevouts_before table to_write (k ∷ ks) = do
  v ← elim (table k) [ some v ↦ some v | none ↦ lookup k to_write ]
  rest ← prevouts_before table to_write ks
  some ((k, v) ∷ rest)

unfoldable pub or_zero : Option ℕ → ℕ
or_zero none = 0
or_zero (some n) = n

module _ {F : Type 0} where
  -- The entries for the tables of tokens, in the order in which they are pushed.
  unfoldable pub token_entries :
      ProcessedData F → TokenTables F → Option (List (TokenHistoryEntry F))
  unfolding outpoint_events token_id_events new_keys or_zero
  token_entries (ProcessedData.history block_number _ events) db = some (
      TokenHistoryEntry.remove_history (keys events) (or_zero db.last_history_id)
        (keys (outpoint_events events)) block_number (keys (token_id_events events))
      ∷ [])
  token_entries (ProcessedData.tokens metas balances to_write to_remove) db = do
    to_restore ← multi_get_all db.address_location_to_transfer to_remove
    let deploys = multi_get_kv db.token_to_meta (keys metas)
    let balances_before = multi_get_kv db.address_token_to_balance (keys balances)
    some (
        TokenHistoryEntry.deploys_to_remove (new_keys deploys (keys metas))
        ∷ (TokenHistoryEntry.deploys_to_restore deploys
            ∷ (TokenHistoryEntry.balances_before balances_before
                ∷ (TokenHistoryEntry.balances_to_remove (new_keys balances_before (keys balances))
                    ∷ (TokenHistoryEntry.restore_transfers to_restore
                        ∷ (TokenHistoryEntry.remove_transfers (keys to_write) ∷ []))))))
  token_entries _ db = some []

  unfoldable pub ordinals_entries : ProcessedData F → OrdinalTables → Option (List OrdinalsEntry)
  unfolding prevouts_before
  ordinals_entries (ProcessedData.prevouts to_write to_remove) db = do
    before ← prevouts_before db.prevouts to_write to_remove
    some (OrdinalsEntry.restore_prevouts before ∷ [])
  ordinals_entries (ProcessedData.inscription_partials to_remove to_write) db = some (
      OrdinalsEntry.restore_partial to_remove
      ∷ (OrdinalsEntry.remove_partials (keys to_write) ∷ []))
  ordinals_entries (ProcessedData.inscription_offset to_remove to_write) db = some (
      OrdinalsEntry.restore_offsets to_remove ∷ (OrdinalsEntry.remove_offsets (keys to_write) ∷ []))
  ordinals_entries _ db = some []

  unfoldable pub store_tokens : ProcessedData F → TokenTables F → TokenTables F
  unfolding outpoint_events token_id_events sorted_by_id insert_by_id
  store_tokens (ProcessedData.history block_number last_history_id events) db = record db {
    token_id_to_event = extend (token_id_events events) db.token_id_to_event;
    block_events = set block_number (sorted_by_id (keys events)) db.block_events;
    last_history_id = some last_history_id;
    outpoint_to_event = extend (outpoint_events events) db.outpoint_to_event;
    address_token_to_history = extend events db.address_token_to_history;
  }
  store_tokens (ProcessedData.tokens metas balances to_write to_remove) db = record db {
    token_to_meta = extend metas db.token_to_meta;
    address_token_to_balance = extend balances db.address_token_to_balance;
    address_location_to_transfer =
        extend to_write (remove_batch to_remove db.address_location_to_transfer);
  }
  store_tokens _ db = db

  unfoldable pub store_ordinals : ProcessedData F → OrdinalTables → OrdinalTables
  store_ordinals (ProcessedData.prevouts to_write to_remove) db = record db {
    prevouts = remove_batch to_remove (extend to_write db.prevouts);
  }
  store_ordinals (ProcessedData.inscription_partials to_remove to_write) db = record db {
    outpoint_to_partials = extend to_write (remove_batch (keys to_remove) db.outpoint_to_partials);
  }
  store_ordinals (ProcessedData.inscription_offset to_remove to_write) db = record db {
    outpoint_to_inscription_offsets =
        extend to_write (remove_batch (keys to_remove) db.outpoint_to_inscription_offsets);
  }
  store_ordinals _ db = db

  unfoldable pub store_info : ProcessedData F → Db F → Db F
  store_info (ProcessedData.info block_number block_info block_proof) db = record db {
    last_block = some block_number;
    block_info = set block_number block_info db.block_info;
    proof_of_history = set block_number block_proof db.proof_of_history;
  }
  store_info (ProcessedData.full_hash addresses) db = record db {
    fullhash_to_address = extend addresses db.fullhash_to_address;
  }
  store_info _ db = db

  -- The writes alone.
  unfoldable pub store : ProcessedData F → Db F → Db F
  unfolding store_tokens store_ordinals store_info
  store item db = record (store_info item db) {
    token_tables = store_tokens item db.token_tables;
    ordinal_tables = store_ordinals item db.ordinal_tables;
  }

  unfoldable pub push_token_entries : List (TokenHistoryEntry F) → Blocks F → Option (Blocks F)
  push_token_entries [] blocks = some blocks
  push_token_entries (e ∷ es) blocks = do
    pushed ← push_token_entry e blocks
    push_token_entries es pushed

  unfoldable pub push_ordinals_entries : List OrdinalsEntry → Blocks F → Option (Blocks F)
  push_ordinals_entries [] blocks = some blocks
  push_ordinals_entries (e ∷ es) blocks = do
    pushed ← push_ordinals_entry e blocks
    push_ordinals_entries es pushed

  unfoldable pub write :
      ProcessedData F → Db F → Option (ReorgCache F) → Option (Db F × Option (ReorgCache F))
  write item db none = some (store item db, none)
  write item db (some cache) = do
    of_tokens ← token_entries item db.token_tables
    of_ordinals ← ordinals_entries item db.ordinal_tables
    pushed ← push_token_entries of_tokens cache.blocks
    blocks ← push_ordinals_entries of_ordinals pushed
    some (store item db, some (record cache { blocks = blocks }))

  -- The loop of `InscriptionIndexer::handle` over what a block is processed to.
  unfoldable pub write_all :
      List (ProcessedData F) → Db F → Option (ReorgCache F) → Option (Db F × Option (ReorgCache F))
  write_all [] db cache = some (db, cache)
  write_all (item ∷ rest) db cache = do
    written ← write item db cache
    write_all rest written.0 written.1
