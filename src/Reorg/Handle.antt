-- ===== src/Reorg/Handle.antt =====
-- `InscriptionIndexer::handle` of src/inscriptions/indexer.rs on what a block is processed to, and
-- the step of the loop of `Indexer::index` in src/inscriptions/mod.rs.
use bel_20_indexer.Prelude.{
  ℕ, ◌+◌, Option, none, some, List, [], ◌∷◌, Bool, true, ◌>>=◌, if◌then◌else◌, nat_eq,
}
use bel_20_indexer.Reorg.Tables.{Db}
use bel_20_indexer.Reorg.Cache.{ReorgCache, new_block}
use bel_20_indexer.Reorg.Write.{ProcessedData, write_all}

module _ {F : Type 0} where
  -- The cache is shared: it stays where it is when the writes do not push to it.
  unfoldable pub or_cache : ReorgCache F → Option (ReorgCache F) → ReorgCache F
  or_cache cache none = cache
  or_cache cache (some written) = written

  -- `none` is a panic.
  unfoldable pub handle :
      ℕ → List (ProcessedData F) → Bool → Db F → ReorgCache F → Option (Db F × ReorgCache F)
  handle block_height processed handle_reorgs db cache =
      let opened = if handle_reorgs then new_block block_height cache else cache in
      do
        written ← write_all processed db (if handle_reorgs then some opened else none)
        some (written.0, or_cache opened written.1)

  -- Blocks that are handled one after another, with reorganisations.
  unfoldable pub handle_blocks :
      ℕ → List (List (ProcessedData F)) → Db F → ReorgCache F → Option (Db F × ReorgCache F)
  handle_blocks block_height [] db cache = some (db, cache)
  handle_blocks block_height (items ∷ blocks) db cache = do
    next ← handle block_height items true db cache
    handle_blocks (block_height + 1) blocks next.0 next.1
