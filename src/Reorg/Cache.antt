-- ===== src/Reorg/Cache.antt =====
-- `ReorgCache` of src/reorg.rs. The `BTreeMap` of blocks is the list of its entries, from the
-- greatest height down.
use bel_20_indexer.Prelude.{
  ℕ, ◌-◌, Option, none, some, List, [], ◌∷◌, ◌++◌, ◌==◌, nat_eq, ltb, if◌then◌else◌, length,
}
use bel_20_indexer.Storage.Table.{remove}
use bel_20_indexer.Reorg.Tables.{Db}
use bel_20_indexer.Reorg.Entry.{TokenHistoryEntry, OrdinalsEntry, undo_tokens, undo_ordinals}

unfoldable pub reorg_cache_max_len : ℕ
reorg_cache_max_len = 30

pub record ReorgHistoryBlock (F : Type 0) : Type 0 where
  pub token_history : List (TokenHistoryEntry F)
  pub ordinals_history : List OrdinalsEntry

pub record ReorgCache (F : Type 0) : Type 0 where
  pub blocks : List (ℕ × ReorgHistoryBlock F)
  pub len : ℕ

abbrev pub Blocks : Type 0 → Type 0
Blocks F = List (ℕ × ReorgHistoryBlock F)

module _ {F : Type 0} where
  unfoldable pub new_history_block : ReorgHistoryBlock F
  new_history_block = record { token_history = []; ordinals_history = [] }

  unfoldable pub new_cache : ReorgCache F
  unfolding reorg_cache_max_len
  new_cache = record { blocks = []; len = reorg_cache_max_len }

  -- `BTreeMap::pop_first`
  unfoldable pub pop_first : Blocks F → Blocks F
  pop_first [] = []
  pop_first (b ∷ []) = []
  pop_first (b ∷ (c ∷ bs)) = b ∷ pop_first (c ∷ bs)

  -- `BTreeMap::insert`
  unfoldable pub insert_block : ℕ → ReorgHistoryBlock F → Blocks F → Blocks F
  insert_block height block [] = (height, block) ∷ []
  insert_block height block (b ∷ bs) =
      let below = insert_block height block bs in
      if ltb b.0 height
      then (height, block) ∷ (b ∷ bs)
      else if b.0 == height
      then (height, block) ∷ bs
      else b ∷ below

  unfoldable pub new_block : ℕ → ReorgCache F → ReorgCache F
  unfolding pop_first insert_block new_history_block
  new_block block_height cache =
      let kept =
        if length cache.blocks == cache.len then pop_first cache.blocks else cache.blocks in
      record cache { blocks = insert_block block_height new_history_block kept }

  -- A push to the block of the greatest height; without a block it panics, which is `none`.
  unfoldable pub push_token_entry : TokenHistoryEntry F → Blocks F → Option (Blocks F)
  push_token_entry entry [] = none
  push_token_entry entry (b ∷ bs) =
      some ((b.0, record b.1 { token_history = b.1.token_history ++ (entry ∷ []) }) ∷ bs)

  unfoldable pub push_ordinals_entry : OrdinalsEntry → Blocks F → Option (Blocks F)
  push_ordinals_entry entry [] = none
  push_ordinals_entry entry (b ∷ bs) =
      some ((b.0, record b.1 { ordinals_history = b.1.ordinals_history ++ (entry ∷ []) }) ∷ bs)

  -- One turn of the loop of `restore`. A height above another is positive, so that nothing wraps.
  unfoldable pub undo_block : ℕ → ReorgHistoryBlock F → Db F → Db F
  unfolding undo_tokens undo_ordinals
  undo_block height block db = record db {
    last_block = some (height - 1);
    block_info = remove height db.block_info;
    token_tables = undo_tokens block.token_history db.token_tables;
    ordinal_tables = undo_ordinals block.ordinals_history db.ordinal_tables;
  }

  -- The loop of `restore`, which takes the blocks above `block_height` from the last one down.
  unfoldable pub restore_blocks : ℕ → Blocks F → Db F → Blocks F × Db F
  restore_blocks block_height [] db = ([], db)
  restore_blocks block_height (b ∷ bs) db =
      let rest = restore_blocks block_height bs (undo_block b.0 b.1 db) in
      if ltb block_height b.0 then rest else (b ∷ bs, db)

  unfoldable pub restore : ℕ → ReorgCache F → Db F → ReorgCache F × Db F
  restore block_height cache db =
      let restored = restore_blocks block_height cache.blocks db in
      (record cache { blocks = restored.0 }, restored.1)

  unfoldable pub restore_all : ReorgCache F → Db F → ReorgCache F × Db F
  restore_all cache db = restore 0 cache db
