-- ===== src/Reorg/Bounds.antt =====
-- The cache of src/reorg.rs keeps its bound and its order, and a restore removes exactly the blocks
-- above a height.
use bel_20_indexer.Prelude.{
  ℕ, suc, ◌+◌, ◌≤◌, ◌<◌, ◌≡◌, refl, ap, [], ◌∷◌, arith, length, ltb, if◌then◌else◌, Bool-cases, inl,
  inr, ◌==◌, nat_eq, sym,
}
use bel_20_indexer.Reorg.Tables.{Db}
use bel_20_indexer.Reorg.Cache.{
  ReorgHistoryBlock, ReorgCache, Blocks, undo_block, restore_blocks, restore, new_history_block,
  new_block, insert_block, pop_first,
}
use bel_20_indexer.Reorg.Restore.{Below, pop_first-Below, length-pop_first}

module _ {F : Type 0} where
  abbrev pub Descends : Blocks F → Type 0
  Descends [] = Unit
  Descends (b ∷ bs) = Below b.0 bs × Descends bs

  -- The blocks stand in the order of their heights, and are no more than the bound.
  pub record IsCache (cache : ReorgCache F) : Type 0 where
    pub descends : Descends cache.blocks
    pub bounded : length cache.blocks ≤ cache.len

  pop_first-Descends : (bs : Blocks F) → Descends bs → Descends (pop_first bs)
  unfolding pop_first
  pop_first-Descends [] h = tt
  pop_first-Descends (b ∷ []) h = tt
  pop_first-Descends (b ∷ (c ∷ bs)) h =
      (pop_first-Below b.0 (c ∷ bs) h.0, pop_first-Descends (c ∷ bs) h.1)

  insert_block-Below :
      (bound height : ℕ) (b : ReorgHistoryBlock F) (bs : Blocks F)
      → height < bound
      → Below bound bs
      → Below bound (insert_block height b bs)
  unfolding insert_block
  insert_block-Below bound height b [] lt h = (lt, tt)
  insert_block-Below bound height b (c ∷ bs) lt h =
      ground (arith, lt, h.0, h.1, insert_block-Below bound height b bs lt h.1)

  Below-weaken : (low high : ℕ) (bs : Blocks F) → low ≤ high → Below low bs → Below high bs
  Below-weaken low high [] le h = tt
  Below-weaken low high (b ∷ bs) le h = (omega (arith, h.0), Below-weaken low high bs le h.1)

  insert_block-Descends :
      (height : ℕ) (b : ReorgHistoryBlock F) (bs : Blocks F)
      → Descends bs
      → Descends (insert_block height b bs)
  unfolding insert_block
  insert_block-Descends height b [] h = (tt, tt)
  insert_block-Descends height b (c ∷ bs) h = ground (
    arith,
    h.0,
    h.1,
    insert_block-Below c.0 height b bs,
    Below-weaken c.0 height bs,
    insert_block-Descends height b bs h.1,
  )

  length-insert_block :
      (height : ℕ) (b : ReorgHistoryBlock F) (bs : Blocks F)
      → length (insert_block height b bs) ≤ length bs + 1
  unfolding insert_block
  length-insert_block height b [] = omega arith
  length-insert_block height b (c ∷ bs) = ground (arith, length-insert_block height b bs)

  -- Opening a block keeps the order of the cache and its bound, whatever its height is.
  pub new_block-IsCache :
      (height : ℕ) (cache : ReorgCache F)
      → 0 < cache.len
      → IsCache cache
      → IsCache (new_block height cache)
  unfolding new_block
  new_block-IsCache height cache pos h = elim (Bool-cases (length cache.blocks == cache.len)) [
    | inl full ↦ rw full (record {
      descends =
          insert_block-Descends height new_history_block (pop_first cache.blocks)
            (pop_first-Descends cache.blocks h.descends);
      bounded = ground (
        arith,
        full,
        pos,
        length-insert_block height new_history_block (pop_first cache.blocks),
        length-pop_first cache.blocks,
      );
    })
    | inr spare ↦ rw spare (record {
      descends = insert_block-Descends height new_history_block cache.blocks h.descends;
      bounded =
          ground
            (arith, spare, h.bounded, length-insert_block height new_history_block cache.blocks);
    })
  ]

  -- The blocks that are not above a height.
  abbrev pub up_to : ℕ → Blocks F → Blocks F
  up_to height [] = []
  up_to height (b ∷ bs) = if ltb height b.0 then up_to height bs else b ∷ up_to height bs

  up_to-all : (height : ℕ) (bs : Blocks F) → Below (suc height) bs → up_to height bs ≡ bs
  up_to-all height [] h = refl
  up_to-all height (b ∷ bs) h = ground (arith, h.0, up_to-all height bs h.1)

  restored-blocks :
      (height : ℕ) (bs : Blocks F) (db : Db F)
      → Descends bs
      → (restore_blocks height bs db).0 ≡ up_to height bs
  unfolding restore_blocks
  restored-blocks height [] db h = refl
  restored-blocks height (b ∷ bs) db h = elim (Bool-cases (ltb height b.0)) [
    | inl above ↦ ground (arith, above, restored-blocks height bs (undo_block b.0 b.1 db) h.1)
    | inr under ↦ rw under (
        ap (λ cs. b ∷ cs)
          (sym
            (up_to-all height bs (Below-weaken b.0 (suc height) bs (ground (arith, under)) h.0))))
  ]

  -- A restore takes exactly the blocks above the height from the cache.
  pub restore-up_to :
      (height : ℕ) (cache : ReorgCache F) (db : Db F)
      → IsCache cache
      → (restore height cache db).0 ≡ record cache { blocks = up_to height cache.blocks }
  unfolding restore
  restore-up_to height cache db h = rw (restored-blocks height cache.blocks db h.descends) refl
