-- ===== src/Reorg/Index.antt =====
-- The loop of `Indexer::index` in src/inscriptions/mod.rs. A block is given by what it is processed
-- to; progress, events and the cancellation of the server are left out.
use bel_20_indexer.Prelude.{
  ℕ, ◌+◌, ◌-◌, ◌%◌, ◌^◌, Option, none, some, List, [], ◌∷◌, Bool, true, false, ◌>>=◌, if◌then◌else◌,
  ltb, ◌==◌, nat_eq,
}
use bel_20_indexer.Reorg.Tables.{Db}
use bel_20_indexer.Reorg.Cache.{ReorgCache, Blocks, restore, reorg_cache_max_len}
use bel_20_indexer.Reorg.Write.{ProcessedData}
use bel_20_indexer.Reorg.Handle.{handle}

pub record BlockEvent (F : Type 0) : Type 0 where
  pub processed : List (ProcessedData F)
  pub height : ℕ
  pub tip : ℕ
  pub reorg_len : ℕ

pub record IndexState (F : Type 0) : Type 0 where
  pub db : Db F
  pub reorg_cache : ReorgCache F
  pub prev_height : Option ℕ

-- `id.height > tip - REORG_CACHE_MAX_LEN`, where the difference wraps
unfoldable pub handles_reorgs : ℕ → ℕ → Bool
unfolding reorg_cache_max_len
handles_reorgs height tip = ltb ((tip + 2 ^ 64 - reorg_cache_max_len) % 2 ^ 64) height

unfoldable pub or_default_height : Option ℕ → ℕ
or_default_height none = 0
or_default_height (some height) = height

module _ {F : Type 0} where
  unfoldable pub clear_cache : Bool → ReorgCache F → ReorgCache F
  clear_cache true cache = cache
  clear_cache false cache = record cache { blocks = [] }

  unfoldable pub take_back : ℕ → Option ℕ → ReorgCache F → Db F → ReorgCache F × Db F
  take_back reorg_len prev_height cache db =
      if ltb 0 reorg_len
      then restore ((or_default_height prev_height - reorg_len) % 2 ^ 32) cache db
      else (cache, db)

  -- The test that the block is the one behind the last block of the cache.
  unfoldable pub follows_tip : ℕ → Blocks F → Bool
  follows_tip height [] = true
  follows_tip height (b ∷ bs) = (b.0 + 1) % 2 ^ 32 == height % 2 ^ 32

  -- A turn of the loop; `none` is an error or a panic.
  unfoldable pub index_step : BlockEvent F → IndexState F → Option (IndexState F)
  index_step event state =
      let handle_reorgs = handles_reorgs event.height event.tip in
      let cleared = clear_cache handle_reorgs state.reorg_cache in
      let back = take_back event.reorg_len state.prev_height cleared state.db in
      elim (follows_tip event.height back.0.blocks) [
        | false ↦ none
        | true ↦ do
          next ← handle (event.height % 2 ^ 32) event.processed handle_reorgs back.1 back.0
          some (record { db = next.0; reorg_cache = next.1; prev_height = some event.height })
      ]
