-- ===== src/Reorg/Written.antt =====
-- The writes of one block, all of them taken back by the entries in the cache.
use bel_20_indexer.Prelude.{
  ℕ, ◌≡◌, refl, ap, sym, ◌∙◌, Option, some, List, [], ◌∷◌, ◌++◌, nat_eq, arith, Returns,
  Returns-bind, Returns-mono, append-nil, append_assoc, subst, fun_ext,
}
use bel_20_indexer.Storage.Table.{Table, set, remove}
use bel_20_indexer.Reorg.Tables.{Db}
use bel_20_indexer.Reorg.Entry.{TokenHistoryEntry, OrdinalsEntry, undo_tokens, undo_ordinals}
use bel_20_indexer.Reorg.Cache.{
  ReorgHistoryBlock, ReorgCache, Blocks, push_token_entry, push_ordinals_entry,
}
use bel_20_indexer.Reorg.Write.{
  ProcessedData, store, store_info, store_tokens, store_ordinals, token_entries, ordinals_entries,
  push_token_entries, push_ordinals_entries, write, write_all,
}
use bel_20_indexer.Reorg.Undo.{settled, FitsTokens, undo-settled, undo_tokens-append, tokens_undone}
use bel_20_indexer.Reorg.UndoOrdinals.{
  Restores, Restores-refl, Restores-trans, FitsOrdinals, undo-Restores, undo_ordinals-append,
  ordinals_undone,
}

remove-set :
    {V : Type 0} (k : ℕ) (v : V) (table : Table ℕ V) → remove k (set k v table) ≡ remove k table
unfolding remove set
remove-set k v table = fun_ext λ j. ground (arith)

module _ {F : Type 0} where
  -- A block's row of information is its own.
  abbrev pub FitsInfo : ℕ → ProcessedData F → Type 0
  FitsInfo height (ProcessedData.info block_number _ _) = block_number ≡ height
  FitsInfo height _ = Unit

  abbrev pub FitsAll : ℕ → List (ProcessedData F) → Db F → Type 0
  FitsAll height [] db = Unit
  FitsAll height (item ∷ items) db =
      FitsTokens item db.token_tables
      × FitsOrdinals item db.ordinal_tables
      × FitsInfo height item
      × FitsAll height items (store item db)

  abbrev pub store_all : List (ProcessedData F) → Db F → Db F
  store_all [] db = db
  store_all (item ∷ items) db = store_all items (store item db)

  push_token_entries-at :
      (es : List (TokenHistoryEntry F)) (height : ℕ) (b : ReorgHistoryBlock F) (bs : Blocks F)
      → push_token_entries es ((height, b) ∷ bs)
        ≡ some ((height, record b { token_history = b.token_history ++ es }) ∷ bs)
  unfolding push_token_entries push_token_entry
  push_token_entries-at [] height b bs = rw (append-nil b.token_history) refl
  push_token_entries-at (e ∷ es) height b bs =
      push_token_entries-at es height (record b { token_history = b.token_history ++ (e ∷ []) }) bs
      ∙ rw (append_assoc b.token_history (e ∷ []) es) refl

  push_ordinals_entries-at :
      (es : List OrdinalsEntry) (height : ℕ) (b : ReorgHistoryBlock F) (bs : Blocks F)
      → push_ordinals_entries es ((height, b) ∷ bs)
        ≡ some ((height, record b { ordinals_history = b.ordinals_history ++ es }) ∷ bs)
  unfolding push_ordinals_entries push_ordinals_entry
  push_ordinals_entries-at [] height b bs = rw (append-nil b.ordinals_history) refl
  push_ordinals_entries-at (e ∷ es) height b bs =
      push_ordinals_entries-at es height
        (record b { ordinals_history = b.ordinals_history ++ (e ∷ []) }) bs
      ∙ rw (append_assoc b.ordinals_history (e ∷ []) es) refl

  -- The tables of the second state, once the entries of its block are taken back, are those of the
  -- first with its entries taken back, but for outputs that the block made.
  pub record Undoes (height : ℕ) (b : ReorgHistoryBlock F) (db : Db F) (c : ReorgHistoryBlock F)
      (next : Db F) : Type 0 where
    pub tokens_back :
        settled (undo_tokens c.token_history next.token_tables)
        ≡ settled (undo_tokens b.token_history db.token_tables)
    pub ordinals_back :
        Restores
          (undo_ordinals b.ordinals_history db.ordinal_tables)
          (undo_ordinals c.ordinals_history next.ordinal_tables)
    pub info_back : remove height next.block_info ≡ remove height db.block_info

  Undoes-trans :
      {height : ℕ} {b c d : ReorgHistoryBlock F} {x y z : Db F}
      → Undoes height b x c y
      → Undoes height c y d z
      → Undoes height b x d z
  Undoes-trans p q = record {
    tokens_back = q.tokens_back ∙ p.tokens_back;
    ordinals_back = Restores-trans p.ordinals_back q.ordinals_back;
    info_back = q.info_back ∙ p.info_back;
  }

  -- The state of the loop of `handle`: the blocks below the last one stay.
  pub record Written (height : ℕ) (b : ReorgHistoryBlock F) (bs : Blocks F) (len : ℕ) (db : Db F)
      (items : List (ProcessedData F)) (r : Db F × Option (ReorgCache F)) : Type 0 where
    pub block : ReorgHistoryBlock F
    pub in_cache : r.1 ≡ some (record { blocks = (height, block) ∷ bs; len = len })
    pub stored : r.0 ≡ store_all items db
    pub undoes : Undoes height b db block r.0

  info-store :
      (height : ℕ) (item : ProcessedData F) (db : Db F)
      → FitsInfo height item
      → remove height (store item db).block_info ≡ remove height db.block_info
  unfolding store store_info
  info-store height (ProcessedData.info n i proof) db h = rw h (remove-set height i db.block_info)
  info-store height (ProcessedData.prevouts _ _) db h = refl
  info-store height (ProcessedData.full_hash _) db h = refl
  info-store height (ProcessedData.history _ _ _) db h = refl
  info-store height (ProcessedData.tokens _ _ _ _) db h = refl
  info-store height (ProcessedData.inscription_partials _ _) db h = refl
  info-store height (ProcessedData.inscription_offset _ _) db h = refl

  write_undone :
      (height len : ℕ) (item : ProcessedData F) (b : ReorgHistoryBlock F) (bs : Blocks F)
      (db : Db F)
      → FitsTokens item db.token_tables
      → FitsOrdinals item db.ordinal_tables
      → FitsInfo height item
      → Returns
          (write item db (some (record { blocks = (height, b) ∷ bs; len = len })))
          (Written height b bs len db (item ∷ []))
  unfolding write
  write_undone height len item b bs db tokens ordinals info =
      Returns-bind _ _ _ (token_entries item db.token_tables)
        (tokens_undone item db.token_tables tokens)
        (λ es p.
          Returns-bind _ _ _ (ordinals_entries item db.ordinal_tables)
            (ordinals_undone item db.ordinal_tables ordinals)
            (λ fs q.
              rw
                (
                  Returns,
                  push_token_entries-at es height b bs,
                  push_ordinals_entries-at fs height
                      (record b { token_history = b.token_history ++ es }) bs,
                )
                (record {
                  block = record {
                    token_history = b.token_history ++ es;
                    ordinals_history = b.ordinals_history ++ fs;
                  };
                  in_cache = refl;
                  stored = refl;
                  undoes =
                      unfold store in
                      record {
                        tokens_back =
                            ap settled (
                              undo_tokens-append b.token_history es
                                (store_tokens item db.token_tables))
                            ∙ undo-settled b.token_history
                                (undo_tokens es (store_tokens item db.token_tables)) db.token_tables
                                p;
                        ordinals_back =
                            subst (Restores (undo_ordinals b.ordinals_history db.ordinal_tables))
                              (sym (
                                undo_ordinals-append b.ordinals_history fs
                                  (store_ordinals item db.ordinal_tables)))
                              (undo-Restores b.ordinals_history db.ordinal_tables
                                (undo_ordinals fs (store_ordinals item db.ordinal_tables)) q);
                        info_back = info-store height item db info;
                      };
                })))

  pub write_all_undone :
      (height len : ℕ) (items : List (ProcessedData F)) (b : ReorgHistoryBlock F) (bs : Blocks F)
      (db : Db F)
      → FitsAll height items db
      → Returns
          (write_all items db (some (record { blocks = (height, b) ∷ bs; len = len })))
          (Written height b bs len db items)
  unfolding write_all
  write_all_undone height len [] b bs db h = record {
    block = b;
    in_cache = refl;
    stored = refl;
    undoes = record { tokens_back = refl; ordinals_back = Restores-refl _; info_back = refl };
  }
  write_all_undone height len (item ∷ items) b bs db h =
      Returns-bind _ _ _ (write item db (some (record { blocks = (height, b) ∷ bs; len = len })))
        (write_undone height len item b bs db h.0 h.1 h.2)
        (λ r w.
          rw (w.in_cache, w.stored)
            (Returns-mono {P = Written height w.block bs len (store item db) items}
              {Q = Written height b bs len db (item ∷ items)}
              (write_all items (store item db)
                (some (record { blocks = (height, w.block) ∷ bs; len = len })))
              (λ s v. record {
                block = v.block;
                in_cache = v.in_cache;
                stored = v.stored;
                undoes =
                    Undoes-trans (subst (Undoes height b db w.block) w.stored w.undoes) v.undoes;
              })
              (write_all_undone height len items w.block bs (store item db) h.3)))
