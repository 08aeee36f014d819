-- ===== src/Reorg/Tests.antt =====
-- Blocks on small tables, for the theorems of src/reorg.rs.
use bel_20_indexer.Prelude.{
  ℕ, ◌≡◌, refl, none, some, List, [], ◌∷◌, arith, Returns, inl, nat_eq, list_eq, ◌==◌,
  if◌then◌else◌,
}
use bel_20_indexer.Storage.Table.{set, extend, remove_batch, remove}
use bel_20_indexer.Tokens.Types.{
  OutPoint, outpoint_eq, location_eq, AddressToken, address_token_eq, TokenBalance, TransferProtoDb,
}
use bel_20_indexer.Db.TokenId.{token_id_eq}
use bel_20_indexer.Db.AddressTokenId.{AddressTokenIdDb, address_token_id_eq}
use bel_20_indexer.Db.AddressLocation.{AddressLocation, address_location_eq}
use bel_20_indexer.Db.TxPrevout.{TxPrevout}
use bel_20_indexer.Db.History.{TokenHistoryDb, outpoint}
use bel_20_indexer.Reorg.Tables.{Db}
use bel_20_indexer.Reorg.Cache.{
  ReorgCache, restore, new_cache, new_block, new_history_block, reorg_cache_max_len,
}
use bel_20_indexer.Reorg.Write.{
  ProcessedData, store, store_tokens, store_ordinals, store_info, outpoint_events, token_id_events,
}
use bel_20_indexer.Reorg.Restore.{Undone, Below}
use bel_20_indexer.Reorg.Handle.{handle_blocks}
use bel_20_indexer.Reorg.Back.{FitsBlocks, restore-Undone}
use bel_20_indexer.Reorg.Bounds.{IsCache, new_block-IsCache, up_to, restore-up_to}
use bel_20_indexer.Reorg.Index.{BlockEvent, IndexState, index_step, take_back}
use bel_20_indexer.Reorg.Follows.{Row, index_step-Row}

abbrev outpoint_at : ℕ → OutPoint
outpoint_at txid = record { txid = txid; vout = 0 }

abbrev transfer_at : ℕ → AddressLocation
transfer_at txid = record {
  address = 7;
  location = record { outpoint = outpoint_at txid; offset = 0 };
}

abbrev account : AddressToken
account = record { address = 7; token = 5 }

abbrev event_key : AddressTokenIdDb
event_key = record { address = 7; token = 5; id = 1 }

abbrev output_of : ℕ → TxPrevout
output_of value = record { script_hash = 7; value = value }

abbrev a_transfer : TransferProtoDb ℕ
a_transfer = record { tick = 5; amt = 3; height = 9 }

abbrev a_balance : ℕ → TokenBalance ℕ
a_balance n = record { balance = n; transferable_balance = 3; transfers_count = 1 }

-- One output, one balance and one pending transfer are stored.
abbrev small_db : Db ℕ
small_db = record {
  token_tables = record {
    token_to_meta = λ _. none;
    address_location_to_transfer = λ k. if k == transfer_at 1 then some a_transfer else none;
    address_token_to_balance = λ k. if k == account then some (a_balance 4) else none;
    address_token_to_history = λ _. none;
    last_history_id = none;
    block_events = λ _. none;
    outpoint_to_event = λ _. none;
    token_id_to_event = λ _. none;
  };
  ordinal_tables = record {
    prevouts = λ k. if k == outpoint_at 1 then some (output_of 50) else none;
    outpoint_to_partials = λ _. none;
    outpoint_to_inscription_offsets = λ k. if k == outpoint_at 1 then some (0 ∷ []) else none;
  };
  block_info = λ _. none;
  last_block = some 9;
  proof_of_history = λ _. none;
  fullhash_to_address = λ _. none;
}

-- The pending transfer moves with the output that it lies in.
abbrev moved : List (ProcessedData ℕ)
moved =
    ProcessedData.prevouts ((outpoint_at 2, output_of 50) ∷ []) (outpoint_at 1 ∷ [])
    ∷ (ProcessedData.inscription_offset ((outpoint_at 1, 0 ∷ []) ∷ [])
          ((outpoint_at 2, 0 ∷ []) ∷ [])
        ∷ (ProcessedData.history 10 1
              ((event_key, record { height = 10; action = TokenHistoryDb.send_receive 3 2 0 }) ∷ [])
            ∷ (ProcessedData.tokens [] ((account, a_balance 7) ∷ []) [] (transfer_at 1 ∷ [])
                ∷ (ProcessedData.info 10 (record { hash = 1; created = 2 }) 3 ∷ []))))

abbrev two_blocks : List (List (ProcessedData ℕ))
two_blocks = moved ∷ ((ProcessedData.info 11 (record { hash = 2; created = 3 }) 4 ∷ []) ∷ [])

small_fits : FitsBlocks 9 two_blocks small_db
unfolding store store_tokens store_ordinals store_info extend set remove_batch remove
    outpoint_events token_id_events outpoint
small_fits = (
  (
    tt,
    ((inl (output_of 50, refl), tt), (inl refl, tt)),
    tt,
    (
      tt,
      ((refl, tt), (inl refl, tt)),
      tt,
      (
        ((inl refl, tt), (inl refl, tt), (inl refl, tt), refl),
        tt,
        tt,
        ((((a_transfer, refl), tt), tt), tt, tt, (tt, tt, refl, tt)),
      ),
    ),
  ),
  refl,
  refl,
  ((tt, tt, refl, tt), refl, refl, tt),
)

restore-Undone_example :
    Returns
      (handle_blocks 10 two_blocks small_db new_cache)
      (λ r. Undone small_db (restore 9 r.1 r.0).1 × Below 10 (restore 9 r.1 r.0).0.blocks)
unfolding new_cache reorg_cache_max_len
restore-Undone_example = restore-Undone 9 two_blocks small_db new_cache tt (ground arith) small_fits

-- A cache with room for two two_blocks, both taken.
abbrev full_cache : ReorgCache ℕ
full_cache = record { blocks = (9, new_history_block) ∷ ((8, new_history_block) ∷ []); len = 2 }

full_cache-IsCache : IsCache full_cache
full_cache-IsCache = record { descends = ((ground arith, tt), (tt, tt)); bounded = ground arith }

new_block-IsCache_example : IsCache (new_block 10 full_cache)
new_block-IsCache_example = new_block-IsCache 10 full_cache (ground arith) full_cache-IsCache

restore-up_to_example :
    (restore 8 full_cache small_db).0 ≡ record { blocks = up_to 8 full_cache.blocks; len = 2 }
restore-up_to_example = restore-up_to 8 full_cache small_db full_cache-IsCache

abbrev next_event : BlockEvent ℕ
next_event = record { processed = moved; height = 10; tip = 35; reorg_len = 0 }

abbrev at_nine : IndexState ℕ
at_nine = record { db = small_db; reorg_cache = full_cache; prev_height = some 9 }

index_step-Row_example :
    Returns
      (index_step next_event at_nine)
      (λ next. (next.prev_height ≡ some 10) × Row 10 next.reorg_cache.blocks)
unfolding take_back
index_step-Row_example =
    index_step-Row next_event at_nine 9 refl (refl, (refl, tt)) (ground arith) refl (ground arith)
      (λ _. (small_fits.0, refl, refl))
