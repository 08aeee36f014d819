-- ===== src/Reorg/Restore.antt =====
-- Taking back blocks: `restore` of src/reorg.rs after `handle`.
use bel_20_indexer.Prelude.{
  ℕ, ◌-◌, ◌≤◌, ◌<◌, ◌≡◌, refl, ap, ◌∙◌, [], ◌∷◌, ◌++◌, nat_eq, arith, length, ltb, All, Bool-cases,
  inl, inr,
}
use bel_20_indexer.Storage.Table.{remove}
use bel_20_indexer.Reorg.Tables.{Db}
use bel_20_indexer.Reorg.Cache.{
  ReorgHistoryBlock, Blocks, undo_block, restore_blocks, insert_block, pop_first,
}
use bel_20_indexer.Reorg.Undo.{settled, undo-settled}
use bel_20_indexer.Reorg.UndoOrdinals.{Restores, Restores-refl, Restores-trans, undo-Restores}

module _ {F : Type 0} where
  -- The rows that blocks write are those of the first state, but for outputs that blocks made.
  pub record Undone (before after : Db F) : Type 0 where
    pub tokens_back : settled after.token_tables ≡ settled before.token_tables
    pub ordinals_back : Restores before.ordinal_tables after.ordinal_tables
    pub info_back : after.block_info ≡ before.block_info
    pub last_back : after.last_block ≡ before.last_block

  pub Undone-refl : (x : Db F) → Undone x x
  Undone-refl x = record {
    tokens_back = refl;
    ordinals_back = Restores-refl x.ordinal_tables;
    info_back = refl;
    last_back = refl;
  }

  pub Undone-trans : {x y z : Db F} → Undone x y → Undone y z → Undone x z
  Undone-trans p q = record {
    tokens_back = q.tokens_back ∙ p.tokens_back;
    ordinals_back = Restores-trans p.ordinals_back q.ordinals_back;
    info_back = q.info_back ∙ p.info_back;
    last_back = q.last_back ∙ p.last_back;
  }

  pub undo_block-Undone :
      (height : ℕ) (b : ReorgHistoryBlock F) (x y : Db F)
      → Undone x y
      → Undone (undo_block height b x) (undo_block height b y)
  unfolding undo_block
  undo_block-Undone height b x y u = record {
    tokens_back = undo-settled b.token_history y.token_tables x.token_tables u.tokens_back;
    ordinals_back =
        undo-Restores b.ordinals_history x.ordinal_tables y.ordinal_tables u.ordinals_back;
    info_back = ap (remove height) u.info_back;
    last_back = refl;
  }

  -- The blocks of the cache are below a height.
  abbrev pub Below : ℕ → Blocks F → Type 0
  Below height bs = All (λ (b : ℕ × ReorgHistoryBlock F). b.0 < height) bs

  pub insert_block-top :
      (height : ℕ) (b : ReorgHistoryBlock F) (bs : Blocks F)
      → Below height bs
      → insert_block height b bs ≡ (height, b) ∷ bs
  unfolding insert_block
  insert_block-top height b [] h = refl
  insert_block-top height b (c ∷ bs) h = ground (arith, h.0)

  pub restore-Below :
      (height : ℕ) (bs : Blocks F) (db : Db F)
      → Below height bs
      → 0 < height
      → restore_blocks (height - 1) bs db ≡ (bs, db)
  unfolding restore_blocks
  restore-Below height [] db h pos = refl
  restore-Below height (b ∷ bs) db h pos = ground (arith, h.0)

  -- Restoring to a height and then to a lower one is restoring to the lower one.
  pub restore-restore :
      (low high : ℕ) (bs : Blocks F) (db : Db F)
      → low ≤ high
      → restore_blocks low (restore_blocks high bs db).0 (restore_blocks high bs db).1
        ≡ restore_blocks low bs db
  unfolding restore_blocks
  restore-restore low high [] db h = refl
  restore-restore low high (b ∷ bs) db h = elim (Bool-cases (ltb high b.0)) [
    | inl above ↦ ground (arith, above, restore-restore low high bs (undo_block b.0 b.1 db) h)
    | inr not_above ↦ ground (arith, not_above)
  ]

  pub length-pop_first : (bs : Blocks F) → length (pop_first bs) ≡ length bs - 1
  unfolding pop_first
  length-pop_first [] = refl
  length-pop_first (b ∷ []) = refl
  length-pop_first (b ∷ (c ∷ bs)) = omega (arith, length-pop_first (c ∷ bs))

  pub pop_first-Below : (height : ℕ) (bs : Blocks F) → Below height bs → Below height (pop_first bs)
  unfolding pop_first
  pop_first-Below height [] h = tt
  pop_first-Below height (b ∷ []) h = tt
  pop_first-Below height (b ∷ (c ∷ bs)) h = (h.0, pop_first-Below height (c ∷ bs) h.1)

  pub pop_first-append :
      (front : Blocks F) (b : ℕ × ReorgHistoryBlock F) (back : Blocks F)
      → pop_first (front ++ (b ∷ back)) ≡ front ++ pop_first (b ∷ back)
  unfolding pop_first
  pop_first-append [] b back = refl
  pop_first-append (c ∷ []) b back = refl
  pop_first-append (c ∷ (d ∷ front)) b back =
      ap (λ bs. c ∷ bs) (pop_first-append (d ∷ front) b back)
