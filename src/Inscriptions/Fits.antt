-- ===== src/Inscriptions/Fits.antt =====
-- What the parser of a block writes fits the tables that it read, so that a reorganisation takes
-- it back.
use bel_20_indexer.Inscriptions.SafeBlock.{
  Good, Spends, handle_txs-Keyed, add_locations-AllKeys, all_locations-AllKeys,
}
use bel_20_indexer.Reorg.UndoOrdinals.{FitsOrdinals}
use bel_20_indexer.Prelude.{
  ℕ, ◌≡◌, refl, arith, none, some, List, [], ◌∷◌, true, false, All, Returns, Returns-bind, eq_self,
  Eq, inl, inr, ◌⊎◌,
}
use bel_20_indexer.Map.{Map}
use bel_20_indexer.Env.{Env}
use bel_20_indexer.Storage.Table.{Table, multi_get_kv, keys, multi_get_kv-Stored, has}
use bel_20_indexer.Storage.Undo.{AreNew}
use bel_20_indexer.Tokens.Types.{OutPoint, outpoint_eq, TokenCache}
use bel_20_indexer.Db.TxPrevout.{TxPrevout}
use bel_20_indexer.Blk.Tx.{EvaluatedTx, is_coinbase}
use bel_20_indexer.Blk.Block.{Hashed}
use bel_20_indexer.Inscriptions.Leaked.{new_leaked, get_leaked_inscriptions, update_reward}
use bel_20_indexer.Inscriptions.Template.{output_values}
use bel_20_indexer.Inscriptions.Moves.{Setting, BlockState}
use bel_20_indexer.Inscriptions.Block.{handle_tx, handle_txs, parse_block}
use bel_20_indexer.Inscriptions.Keyed.{AllKnown, AllKeys}
use bel_20_indexer.Reorg.Tables.{OrdinalTables}
use bel_20_indexer.Reorg.Write.{ProcessedData}

module _ {K V : Type 0} ⦃e : Eq K⦄ (table : Table K V) where
  within-AreNew :
      (removed ps : List (K × V))
      → ((k : K) → has k (keys ps) ≡ true → has k (keys removed) ≡ true)
      → AreNew table (keys removed) ps
  within-AreNew removed [] within = tt
  within-AreNew removed (p ∷ ps) within = (
    inr (within p.0 (ground (arith, eq_self p.0))),
    within-AreNew removed ps (λ k h. within k (ground (arith, h))),
  )

module _ {W S : Type 0} (env : Env) (setting : Setting env W) where
  open env use {Fixed128}

  -- The transaction is not the coinbase, spends what is known, and has no row at an output.
  abbrev pub SpendsNew : OrdinalTables → Map OutPoint TxPrevout → Hashed (EvaluatedTx W S) → Type 0
  SpendsNew db prevouts tx =
      (is_coinbase tx.value ≡ some false)
      × AllKnown prevouts tx.value.inputs
      × ((vout : ℕ) → db.outpoint_to_partials (record { txid = tx.hash; vout = vout }) ≡ none)
      × ((vout : ℕ)
          → db.outpoint_to_inscription_offsets (record { txid = tx.hash; vout = vout }) ≡ none)

  -- The first transaction is the coinbase, with no row at an output.
  pub record FitsBlock (db : OrdinalTables) (prevouts : Map OutPoint TxPrevout)
      (coinbase : Hashed (EvaluatedTx W S)) (txs : List (Hashed (EvaluatedTx W S))) : Type 0 where
    pub coinbase_first : is_coinbase coinbase.value ≡ some true
    pub coinbase_new :
        (vout : ℕ)
        → db.outpoint_to_inscription_offsets (record { txid = coinbase.hash; vout = vout }) ≡ none
    pub others_new : All (SpendsNew db prevouts) txs

  SpendsNew-Spends :
      (P Q : OutPoint → Type 0) (db : OrdinalTables) (prevouts : Map OutPoint TxPrevout)
      (txs : List (Hashed (EvaluatedTx W S)))
      → ((k : OutPoint) → db.outpoint_to_partials k ≡ none → P k)
      → ((k : OutPoint) → db.outpoint_to_inscription_offsets k ≡ none → Q k)
      → All (SpendsNew db prevouts) txs
      → All (Spends env setting P Q prevouts) txs
  SpendsNew-Spends P Q db prevouts [] p q h = tt
  SpendsNew-Spends P Q db prevouts (tx ∷ txs) p q h = (
    (((λ vout. p _ (h.0.2 vout)), (λ vout. q _ (h.0.3 vout))), h.0.0, h.0.1),
    SpendsNew-Spends P Q db prevouts txs p q h.1,
  )

  handle_txs-first :
      (P Q : OutPoint → Type 0) (db : OrdinalTables) (prevouts : Map OutPoint TxPrevout)
      (coinbase : Hashed (EvaluatedTx W S)) (txs : List (Hashed (EvaluatedTx W S)))
      (s : BlockState Fixed128)
      → ((k : OutPoint) → db.outpoint_to_partials k ≡ none → P k)
      → ((k : OutPoint) → db.outpoint_to_inscription_offsets k ≡ none → Q k)
      → FitsBlock db prevouts coinbase txs
      → AllKeys P s.outpoint_to_partials
      → AllKeys Q s.outpoint_to_offsets
      → Returns (handle_txs env setting prevouts (coinbase ∷ txs) s) (Good env P Q)
  unfolding handle_txs handle_tx new_leaked
  handle_txs-first P Q db prevouts coinbase txs s p q fits ps qs =
      rw (Returns, fits.coinbase_first)
        (handle_txs-Keyed env setting P Q prevouts txs
          (record s {
            leaked = some (new_leaked coinbase.hash (output_values coinbase.value.outputs));
          })
          (SpendsNew-Spends P Q db prevouts txs p q fits.others_new)
          (record {
            partials_keyed = ps;
            offsets_keyed = qs;
            leaks = new_leaked coinbase.hash (output_values coinbase.value.outputs);
            has_leaks = refl;
            coinbase_keyed = λ vout. q _ (fits.coinbase_new vout);
          }))

  -- For a block whose first transaction is the coinbase, with no offset at its outputs, and whose
  -- other transactions are no coinbase, spend known outputs and have no partial and no offset at
  -- theirs, `parse_block` does not panic, and its partials and its offsets fit the tables: what is
  -- removed is there, and what is written is new or at a key that is removed.
  pub parse_block-FitsOrdinals :
      (db : OrdinalTables) (prevouts : Map OutPoint TxPrevout) (coinbase : Hashed (EvaluatedTx W S))
      (txs : List (Hashed (EvaluatedTx W S))) (cache : TokenCache Fixed128)
      → FitsBlock db prevouts coinbase txs
      → Returns
          (parse_block env setting db.outpoint_to_partials db.outpoint_to_inscription_offsets
            prevouts
            (coinbase ∷ txs)
            cache)
          (λ block.
            FitsOrdinals {F = Fixed128}
              (ProcessedData.inscription_partials block.partials_to_remove block.partials_to_write)
              db
            × FitsOrdinals {F = Fixed128}
                (ProcessedData.inscription_offset block.offsets_to_remove block.offsets_to_write)
                db)
  unfolding parse_block get_leaked_inscriptions update_reward new_leaked
  parse_block-FitsOrdinals db prevouts coinbase txs cache fits =
      let partials = multi_get_kv db.outpoint_to_partials (keys prevouts) in
      let offsets = multi_get_kv db.outpoint_to_inscription_offsets (keys prevouts) in
      let P : OutPoint → Type 0 =
        λ k. (db.outpoint_to_partials k ≡ none) ⊎ (has k (keys partials) ≡ true) in
      let Q : OutPoint → Type 0 =
        λ k. (db.outpoint_to_inscription_offsets k ≡ none) ⊎ (has k (keys offsets) ≡ true) in
      let begun : BlockState Fixed128 = record {
        outpoint_to_partials = partials;
        outpoint_to_offsets = offsets;
        leaked = none;
        token_cache = cache;
      } in
      Returns-bind (Good env P Q) _ _ (handle_txs env setting prevouts (coinbase ∷ txs) begun)
        (handle_txs-first P Q db prevouts coinbase txs begun (λ k h. inl h) (λ k h. inl h) fits
          (within-AreNew db.outpoint_to_partials partials partials (λ k h. h))
          (within-AreNew db.outpoint_to_inscription_offsets offsets offsets (λ k h. h)))
        (λ handled k.
          rw (Returns, k.has_leaks)
            (
              (multi_get_kv-Stored db.outpoint_to_partials (keys prevouts), k.partials_keyed),
              (
                multi_get_kv-Stored db.outpoint_to_inscription_offsets (keys prevouts),
                add_locations-AllKeys Q _ handled.outpoint_to_offsets
                    (all_locations-AllKeys Q (update_reward k.leaks)
                      (update_reward k.leaks).inscriptions k.coinbase_keyed)
                    k.offsets_keyed,
              ),
            ))
