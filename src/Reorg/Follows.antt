-- ===== src/Reorg/Follows.antt =====
-- The loop of src/inscriptions/mod.rs goes on: the blocks of the cache are the last ones in a row,
-- also after a reorganisation.
use bel_20_indexer.Prelude.{
  ℕ, zero, suc, ◌+◌, ◌-◌, ◌%◌, ◌^◌, ◌≤◌, ◌<◌, ◌≡◌, refl, sym, Option, none, some, List, [], ◌∷◌,
  arith, Bool, true, false, length, ltb, Bool-cases, inl, inr, ◌==◌, nat_eq, Returns, Returns-bind,
  Returns-mono, subst, eq_self,
}
use bel_20_indexer.Reorg.Tables.{Db}
use bel_20_indexer.Reorg.Cache.{
  ReorgHistoryBlock, ReorgCache, Blocks, undo_block, restore_blocks, restore, pop_first,
}
use bel_20_indexer.Reorg.Write.{ProcessedData, write, write_all, store}
use bel_20_indexer.Reorg.Written.{FitsAll, store_all}
use bel_20_indexer.Reorg.Restore.{Below}
use bel_20_indexer.Reorg.Handle.{handle, or_cache}
use bel_20_indexer.Reorg.Back.{handle_undone, kept}
use bel_20_indexer.Reorg.Index.{
  BlockEvent, IndexState, handles_reorgs, or_default_height, clear_cache, take_back, follows_tip,
  index_step,
}

add_one : (n : ℕ) → n + 1 ≡ suc n
add_one n = omega arith

module _ {F : Type 0} where
  -- The blocks are at the height and at those right below it.
  abbrev pub Row : ℕ → Blocks F → Type 0
  Row height [] = Unit
  Row zero (b ∷ bs) = (b.0 ≡ 0) × (bs ≡ [])
  Row (suc low) (b ∷ bs) = (b.0 ≡ suc low) × Row low bs

  Row-head :
      (height : ℕ) (b : ℕ × ReorgHistoryBlock F) (bs : Blocks F)
      → Row height (b ∷ bs)
      → b.0 ≡ height
  Row-head zero b bs h = h.0
  Row-head (suc low) b bs h = h.0

  Row-Below : (height bound : ℕ) (bs : Blocks F) → height < bound → Row height bs → Below bound bs
  Row-Below height bound [] lt h = tt
  Row-Below zero bound (b ∷ bs) lt h = (omega (arith, lt, h.0), subst (Below bound) (sym h.1) tt)
  Row-Below (suc low) bound (b ∷ bs) lt h =
      (omega (arith, lt, h.0), Row-Below low bound bs (omega (arith, lt)) h.1)

  pop_first-Row : (height : ℕ) (bs : Blocks F) → Row height bs → Row height (pop_first bs)
  unfolding pop_first
  pop_first-Row height [] h = tt
  pop_first-Row height (b ∷ []) h = tt
  pop_first-Row zero (b ∷ (c ∷ bs)) h = absurd cc
  pop_first-Row (suc low) (b ∷ (c ∷ bs)) h = (h.0, pop_first-Row low (c ∷ bs) h.1)

  kept-Row : (height len : ℕ) (bs : Blocks F) → Row height bs → Row height (kept len bs)
  kept-Row height len bs h = elim (Bool-cases (length bs == len)) [
    | inl full ↦ rw full (pop_first-Row height bs h)
    | inr spare ↦ rw spare h
  ]

  stays :
      (low height : ℕ) (b : ℕ × ReorgHistoryBlock F) (bs : Blocks F)
      → low ≤ height
      → ltb low b.0 ≡ false
      → Row height (b ∷ bs)
      → Row low (b ∷ bs)
  stays low height b bs le under h =
      subst (λ n. Row n (b ∷ bs)) (ground (arith, le, under, Row-head height b bs h)) h

  restored-Row :
      (low height : ℕ) (bs : Blocks F) (db : Db F)
      → low ≤ height
      → Row height bs
      → Row low (restore_blocks low bs db).0
  unfolding restore_blocks
  restored-Row low height [] db le h = tt
  restored-Row low zero (b ∷ bs) db le h =
      let under : ltb low b.0 ≡ false = ground (arith, le, h.0) in
      rw under (stays low zero b bs le under h)
  restored-Row low (suc high) (b ∷ bs) db le h = elim (Bool-cases (ltb low b.0)) [
    | inl above ↦
        rw above (restored-Row low high bs (undo_block b.0 b.1 db) (ground (arith, above, h.0)) h.1)
    | inr under ↦ rw under (stays low (suc high) b bs le under h)
  ]

  take_back-Row :
      (reorg_len prev : ℕ) (cache : ReorgCache F) (db : Db F)
      → reorg_len ≤ prev
      → prev < 2 ^ 32
      → Row prev cache.blocks
      → Row (prev - reorg_len) (take_back reorg_len (some prev) cache db).0.blocks
  unfolding take_back or_default_height restore
  take_back-Row reorg_len prev cache db le fits h = elim (Bool-cases (ltb 0 reorg_len)) [
    | inl some_back ↦
        let small : (prev - reorg_len) % 2 ^ 32 ≡ prev - reorg_len = omega (arith, fits) in
        rw (some_back, small) (restored-Row (prev - reorg_len) prev cache.blocks db (omega arith) h)
    | inr none_back ↦ rw none_back (subst (λ n. Row n cache.blocks) (ground (arith, none_back)) h)
  ]

  clear_cache-Row :
      (handle_reorgs : Bool) (height : ℕ) (cache : ReorgCache F)
      → Row height cache.blocks
      → Row height (clear_cache handle_reorgs cache).blocks
  unfolding clear_cache
  clear_cache-Row true height cache h = h
  clear_cache-Row false height cache h = tt

  follows-Row : (low : ℕ) (bs : Blocks F) → Row low bs → follows_tip (suc low) bs ≡ true
  unfolding follows_tip
  follows-Row low [] h = refl
  follows-Row low (b ∷ bs) h = rw (Row-head low b bs h, add_one low) (eq_self (suc low % 2 ^ 32))

  write_all-none :
      (items : List (ProcessedData F)) (db : Db F)
      → write_all items db none ≡ some (store_all items db, none)
  unfolding write_all write
  write_all-none [] db = refl
  write_all-none (item ∷ items) db = write_all-none items (store item db)

  -- What the next block needs where it is written with its entries.
  abbrev pub FitsNext : ℕ → List (ProcessedData F) → Db F → Type 0
  FitsNext low items db =
      FitsAll (suc low) items db × (db.block_info (suc low) ≡ none) × (db.last_block ≡ some low)

  handle-Row :
      (low : ℕ) (items : List (ProcessedData F)) (handle_reorgs : Bool) (db : Db F)
      (cache : ReorgCache F)
      → Row low cache.blocks
      → (handle_reorgs ≡ false → cache.blocks ≡ [])
      → (handle_reorgs ≡ true → FitsNext low items db)
      → Returns (handle (suc low) items handle_reorgs db cache) (λ r. Row (suc low) r.1.blocks)
  handle-Row low items true db cache h empty fits =
      let k = kept-Row low cache.len cache.blocks h in
      let f = fits refl in
      Returns-mono (handle (suc low) items true db cache) (λ r w. rw w.in_cache (refl, k))
        (handle_undone low cache.len items (kept cache.len cache.blocks) cache.blocks db refl
          (Row-Below low (suc low) (kept cache.len cache.blocks) (omega arith) k) f.0 f.1 f.2)
  handle-Row low items false db cache h empty fits =
      unfold handle or_cache in rw (Returns, write_all-none items db) (rw (empty refl) tt)

  cleared_empty :
      (handle_reorgs : Bool) (reorg_len : ℕ) (prev : Option ℕ) (cache : ReorgCache F) (db : Db F)
      → handle_reorgs ≡ false
      → (take_back reorg_len prev (clear_cache handle_reorgs cache) db).0.blocks ≡ []
  unfolding take_back clear_cache restore restore_blocks
  cleared_empty handle_reorgs reorg_len prev cache db h = rw h (ground arith)

  -- The cache and the tables that a block is handled with.
  abbrev pub before_block : BlockEvent F → IndexState F → ReorgCache F × Db F
  before_block event state =
      take_back event.reorg_len state.prev_height
        (clear_cache (handles_reorgs event.height event.tip) state.reorg_cache) state.db

  -- Where the blocks of the cache are the last ones in a row and an event takes back no more blocks
  -- than there are, for the block that comes next, the turn of the loop ends without an error if
  -- its writes fit, where they are pushed to the cache, and the blocks of the cache are a row again.
  pub index_step-Row :
      (event : BlockEvent F) (state : IndexState F) (prev : ℕ)
      → state.prev_height ≡ some prev
      → Row prev state.reorg_cache.blocks
      → event.reorg_len ≤ prev
      → event.height ≡ suc (prev - event.reorg_len)
      → prev + 1 < 2 ^ 32
      → (handles_reorgs event.height event.tip ≡ true
          → FitsNext (prev - event.reorg_len) event.processed (before_block event state).1)
      → Returns (index_step event state) (λ next.
        (next.prev_height ≡ some event.height) × Row event.height next.reorg_cache.blocks)
  unfolding index_step
  index_step-Row event state prev is_prev row le next_height fits items_fit =
      let reorgs = handles_reorgs event.height event.tip in
      let cleared = clear_cache reorgs state.reorg_cache in
      let low = prev - event.reorg_len in
      let back : Row low (before_block event state).0.blocks = rw is_prev (
        take_back-Row event.reorg_len prev cleared state.db le (omega (arith, fits))
          (clear_cache-Row reorgs prev state.reorg_cache row)) in
      let small : event.height % 2 ^ 32 ≡ suc low = omega (arith, next_height, fits) in
      let b = before_block event state in
      let follows : follows_tip event.height b.0.blocks ≡ true =
        subst (λ n. follows_tip n b.0.blocks ≡ true) (sym next_height)
          (follows-Row low b.0.blocks back) in
      let handled : Returns (handle (event.height % 2 ^ 32) event.processed reorgs b.1 b.0)
          (λ r. Row (suc low) r.1.blocks) =
        subst
          (λ n. Returns (handle n event.processed reorgs b.1 b.0) (λ r. Row (suc low) r.1.blocks))
          (sym small)
          (handle-Row low event.processed reorgs b.1 b.0 back
            (cleared_empty reorgs event.reorg_len state.prev_height state.reorg_cache state.db)
            items_fit) in
      rw (Returns, follows)
        (Returns-bind _ _ _ (handle (event.height % 2 ^ 32) event.processed reorgs b.1 b.0) handled
          (λ r next_row. (refl, subst (λ n. Row n r.1.blocks) (sym next_height) next_row)))
