-- ===== src/Reorg/Back.antt =====
-- Blocks that are handled are taken back by `restore`, src/reorg.rs.

use bel_20_indexer.Reorg.Restore.{
  Undone, Undone-trans, undo_block-Undone, Below, insert_block-top, restore-Below, restore-restore,
  pop_first-Below, pop_first-append, Undone-refl,
}
use bel_20_indexer.Prelude.{
  ℕ, suc, ◌+◌, ◌-◌, ◌≤◌, ◌<◌, ◌≡◌, refl, ap, sym, ◌∙◌, none, some, List, [], ◌∷◌, ◌++◌, nat_eq,
  arith, Returns, Returns-bind, Returns-mono, length, if◌then◌else◌, subst, fun_ext, All-append,
  true, length-append, ◌==◌, Bool-cases, inl, inr, lt→ltb,
}
use bel_20_indexer.Storage.Table.{remove}
use bel_20_indexer.Reorg.Tables.{Db}
use bel_20_indexer.Reorg.Entry.{undo_tokens, undo_ordinals}
use bel_20_indexer.Reorg.Cache.{
  ReorgHistoryBlock, ReorgCache, Blocks, undo_block, restore_blocks, restore, new_history_block,
  new_block, pop_first,
}
use bel_20_indexer.Reorg.Write.{ProcessedData, write_all}
use bel_20_indexer.Reorg.Written.{FitsAll, store_all, write_all_undone}
use bel_20_indexer.Reorg.Handle.{handle, handle_blocks, or_cache}

pred_suc : (n : ℕ) → suc n - 1 ≡ n
pred_suc n = omega arith

add_one : (n : ℕ) → n + 1 ≡ suc n
add_one n = omega arith

module _ {F : Type 0} where
  remove-absent :
      (height : ℕ) (db : Db F)
      → db.block_info height ≡ none
      → remove height db.block_info ≡ db.block_info
  unfolding remove
  remove-absent height db h = fun_ext λ j. ground (arith)

  -- The blocks that stay when a block is opened.
  abbrev pub kept : ℕ → Blocks F → Blocks F
  kept len bs = if length bs == len then pop_first bs else bs

  Below-weaken : (low high : ℕ) (bs : Blocks F) → low ≤ high → Below low bs → Below high bs
  Below-weaken low high [] le h = tt
  Below-weaken low high (b ∷ bs) le h = (omega (arith, h.0), Below-weaken low high bs le h.1)

  kept-front :
      (bound len : ℕ) (front back : Blocks F)
      → Below bound back
      → length front < len
      → (rest : Blocks F) × (kept len (front ++ back) ≡ front ++ rest) × Below bound rest
  kept-front bound len front back below room = elim (Bool-cases (length (front ++ back) == len)) [
    | inl full ↦ rw full (popped back below full)
    | inr spare ↦ rw spare (back, refl, below)
  ]
    where
      popped :
          (back : Blocks F)
          → Below bound back
          → (length (front ++ back) == len) ≡ true
          → (rest : Blocks F) × (pop_first (front ++ back) ≡ front ++ rest) × Below bound rest
      popped [] below full = absurd (ground (arith, length-append front [], full, room))
      popped (b ∷ back) below full = (
        pop_first (b ∷ back),
        pop_first-append front b back,
        pop_first-Below bound (b ∷ back) below,
      )

  pub record Handled (height : ℕ) (items : List (ProcessedData F)) (db : Db F) (bs : Blocks F)
      (len : ℕ) (r : Db F × ReorgCache F) : Type 0 where
    pub block : ReorgHistoryBlock F
    pub in_cache : r.1 ≡ record { blocks = (height, block) ∷ bs; len = len }
    pub stored : r.0 ≡ store_all items db
    pub undone : Undone db (undo_block height block r.0)

  pub handle_undone :
      (low len : ℕ) (items : List (ProcessedData F)) (rest bs : Blocks F) (db : Db F)
      → kept len bs ≡ rest
      → Below (suc low) rest
      → FitsAll (suc low) items db
      → db.block_info (suc low) ≡ none
      → db.last_block ≡ some low
      → Returns
          (handle (suc low) items true db (record { blocks = bs; len = len }))
          (Handled (suc low) items db rest len)
  unfolding handle new_block or_cache
  handle_undone low len items rest bs db is_kept below fits info last =
      rw (Returns, is_kept, insert_block-top (suc low) new_history_block rest below)
        (Returns-bind _ _ _
          (write_all items db
            (some (record { blocks = (suc low, new_history_block) ∷ rest; len = len })))
          (write_all_undone (suc low) len items new_history_block rest db fits)
          (λ r w. record {
            block = w.block;
            in_cache = rw w.in_cache refl;
            stored = w.stored;
            undone =
                unfold undo_block in
                record {
                  tokens_back = unfold new_history_block undo_tokens in w.undoes.tokens_back;
                  ordinals_back = unfold new_history_block undo_ordinals in w.undoes.ordinals_back;
                  info_back = w.undoes.info_back ∙ remove-absent (suc low) db info;
                  last_back = ap some (pred_suc low) ∙ sym last;
                };
          }))

  -- What handling blocks expects of the tables: each block has its own row of information, follows
  -- the last block, and has writes that fit.
  abbrev pub FitsBlocks : ℕ → List (List (ProcessedData F)) → Db F → Type 0
  FitsBlocks low [] db = Unit
  FitsBlocks low (items ∷ blocks) db =
      FitsAll (suc low) items db
      × (db.block_info (suc low) ≡ none)
      × (db.last_block ≡ some low)
      × FitsBlocks (suc low) blocks (store_all items db)

  -- Restoring to the height `low` leaves the blocks in front and some of the others in the cache.
  record Taken (low bound : ℕ) (front : Blocks F) (db : Db F) (r : Db F × ReorgCache F)
      : Type 0 where
    pub rest : Blocks F
    pub below : Below bound rest
    pub cache_back : (restore_blocks low r.1.blocks r.0).0 ≡ front ++ rest
    pub db_back : Undone db (restore_blocks low r.1.blocks r.0).1

  abbrev pub start : ℕ → Blocks F → ReorgCache F
  start len bs = record { blocks = bs; len = len }

  restored_here :
      (low : ℕ) (bs : Blocks F) (db : Db F)
      → Below (suc low) bs
      → restore_blocks low bs db ≡ (bs, db)
  restored_here low bs db below =
      subst (λ n. restore_blocks n bs db ≡ (bs, db)) (pred_suc low)
        (restore-Below (suc low) bs db below (omega arith))

  Below-both :
      (low bound : ℕ) (front rest : Blocks F)
      → bound ≤ suc low
      → Below (suc low) front
      → Below bound rest
      → Below (suc low) (front ++ rest)
  Below-both low bound front rest le in_front in_rest =
      All-append (λ (b : ℕ × ReorgHistoryBlock F). b.0 < suc low) front rest
        (Below-weaken bound (suc low) rest le in_rest) in_front

  -- One more block is taken back.
  Taken-more :
      (low bound : ℕ) (b : ReorgHistoryBlock F) (front : Blocks F) (db next : Db F)
      (r : Db F × ReorgCache F)
      → bound ≤ suc low
      → Below (suc low) front
      → Undone db (undo_block (suc low) b next)
      → Taken (suc low) bound ((suc low, b) ∷ front) next r
      → Taken low bound front db r
  Taken-more low bound b front db next r le in_front undone t = record {
    rest = t.rest;
    below = t.below;
    cache_back = ap (λ p. p.0) both;
    db_back =
        rw (ap (λ p. p.1) both)
          (Undone-trans undone (undo_block-Undone (suc low) b next high.1 t.db_back));
  }
    where
      high : Blocks F × Db F
      high = restore_blocks (suc low) r.1.blocks r.0

      popped :
          restore_blocks low ((suc low, b) ∷ (front ++ t.rest)) high.1
          ≡ (front ++ t.rest, undo_block (suc low) b high.1)
      popped =
          unfold restore_blocks in
          rw (lt→ltb low (suc low) (omega arith)) (
            restored_here low (front ++ t.rest) (undo_block (suc low) b high.1)
              (Below-both low bound front t.rest le in_front t.below))

      both : restore_blocks low r.1.blocks r.0 ≡ (front ++ t.rest, undo_block (suc low) b high.1)
      both =
          sym (restore-restore low (suc low) r.1.blocks r.0 (omega arith))
          ∙ ap (λ bs. restore_blocks low bs high.1) t.cache_back
          ∙ popped

  blocks_undone :
      (low bound len : ℕ) (blocks : List (List (ProcessedData F))) (front back : Blocks F)
      (db : Db F)
      → bound ≤ suc low
      → Below (suc low) front
      → Below bound back
      → length front + length blocks ≤ len
      → FitsBlocks low blocks db
      → Returns
          (handle_blocks (suc low) blocks db (start len (front ++ back)))
          (Taken low bound front db)
  unfolding handle_blocks
  blocks_undone low bound len [] front back db le in_front in_back room fits = record {
    rest = back;
    below = in_back;
    cache_back = ap (λ p. p.0) here;
    db_back = rw here (Undone-refl db);
  }
    where
      here : restore_blocks low (front ++ back) db ≡ (front ++ back, db)
      here =
          restored_here low (front ++ back) db (Below-both low bound front back le in_front in_back)
  blocks_undone low bound len (items ∷ blocks) front back db le in_front in_back room fits =
      let k = kept-front bound len front back in_back (omega (arith, room)) in
      Returns-bind _ _ _ (handle (suc low) items true db (start len (front ++ back)))
        (handle_undone low len items (front ++ k.0) (front ++ back) db k.1
          (Below-both low bound front k.0 le in_front k.2) fits.0 fits.1 fits.2)
        (λ r w.
          rw (w.in_cache, w.stored, add_one (suc low))
            (Returns-mono
              {P = Taken (suc low) bound ((suc low, w.block) ∷ front) (store_all items db)}
              {Q = Taken low bound front db}
              (handle_blocks (suc (suc low)) blocks (store_all items db)
                (start len ((suc low, w.block) ∷ (front ++ k.0))))
              (λ s t.
                Taken-more low bound w.block front db (store_all items db) s le in_front
                  (subst (λ d. Undone db (undo_block (suc low) w.block d)) w.stored w.undone) t)
              (blocks_undone (suc low) bound len blocks ((suc low, w.block) ∷ front) k.0
                (store_all items db) (omega (arith, le))
                (omega arith, Below-weaken (suc low) (suc (suc low)) front (omega arith) in_front)
                k.2 (omega (arith, room)) fits.3)))

  -- Blocks that are handled one after another, no more than the cache has room for, each with
  -- writes that fit the tables it is handled on, are handled without a panic. Restoring to the
  -- height below them then gives back every table of tokens, the partial inscriptions, the offsets,
  -- the rows of blocks and the last block, and every output that was stored, and leaves no block
  -- above that height in the cache.
  pub restore-Undone :
      (low : ℕ) (blocks : List (List (ProcessedData F))) (db : Db F) (cache : ReorgCache F)
      → Below (suc low) cache.blocks
      → length blocks ≤ cache.len
      → FitsBlocks low blocks db
      → Returns
          (handle_blocks (suc low) blocks db cache)
          (λ r. Undone db (restore low r.1 r.0).1 × Below (suc low) (restore low r.1 r.0).0.blocks)
  unfolding restore
  restore-Undone low blocks db cache below room fits =
      Returns-mono {P = Taken low (suc low) [] db} (handle_blocks (suc low) blocks db cache)
        (λ r t. (t.db_back, rw t.cache_back t.below))
        (blocks_undone low (suc low) cache.len blocks [] cache.blocks db (omega arith) tt below
          (omega (arith, room)) fits)
