-- ===== src/Reorg/Undo.antt =====
-- What is written of one part of a block to the tables of tokens is taken back by the entries that
-- are pushed for it.
use bel_20_indexer.Prelude.{
  ◌≡◌, refl, ap, sym, ◌∙◌, none, some, List, [], ◌∷◌, ◌++◌, nat_eq, list_eq, Returns, Returns-bind,
  subst,
}
use bel_20_indexer.Storage.Table.{extend, remove_batch, multi_get_all, keys, Stored}
use bel_20_indexer.Storage.Undo.{
  AreNew, AreThere, restore_remove, remove_restore, replace_undone, append_undone, set_undone,
  multi_get_all-Stored,
}
use bel_20_indexer.Tokens.Types.{outpoint_eq, address_token_eq, TransferProtoDb}
use bel_20_indexer.Db.TokenId.{token_id_eq}
use bel_20_indexer.Db.AddressTokenId.{address_token_id_eq}
use bel_20_indexer.Db.AddressLocation.{address_location_eq, AddressLocation}
use bel_20_indexer.Reorg.Tables.{TokenTables}
use bel_20_indexer.Reorg.Entry.{TokenHistoryEntry, proceed_token, undo_tokens}
use bel_20_indexer.Reorg.Write.{
  ProcessedData, token_entries, store_tokens, outpoint_events, token_id_events, or_zero,
}

module _ {F : Type 0} where
  -- What the code reads of the tables: a last id that is not there is 0.
  unfoldable pub settled : TokenTables F → TokenTables F
  settled db = record db { last_history_id = some (or_zero db.last_history_id) }

  -- What the writes of a part of a block expect of the tables: the events are new, and so are the
  -- pending transfers, those that are removed are there.
  abbrev pub FitsTokens : ProcessedData F → TokenTables F → Type 0
  FitsTokens (ProcessedData.history block_number _ events) db =
      (AreNew db.address_token_to_history [] events)
      × (AreNew db.outpoint_to_event [] (outpoint_events events))
      × (AreNew db.token_id_to_event [] (token_id_events events))
      × (db.block_events block_number ≡ none)
  FitsTokens (ProcessedData.tokens metas balances to_write to_remove) db =
      AreThere db.address_location_to_transfer to_remove
      × AreNew db.address_location_to_transfer to_remove to_write
  FitsTokens _ db = Unit

  settled-proceed :
      (e : TokenHistoryEntry F) (a : TokenTables F)
      → settled (proceed_token e a) ≡ settled (proceed_token e (settled a))
  unfolding settled proceed_token or_zero
  settled-proceed (TokenHistoryEntry.balances_before _) a = refl
  settled-proceed (TokenHistoryEntry.balances_to_remove _) a = refl
  settled-proceed (TokenHistoryEntry.deploys_to_remove _) a = refl
  settled-proceed (TokenHistoryEntry.deploys_to_restore _) a = refl
  settled-proceed (TokenHistoryEntry.restore_transfers _) a = refl
  settled-proceed (TokenHistoryEntry.remove_transfers _) a = refl
  settled-proceed (TokenHistoryEntry.remove_history _ _ _ _ _) a = refl

  proceed-settled :
      (e : TokenHistoryEntry F) (a b : TokenTables F)
      → settled a ≡ settled b
      → settled (proceed_token e a) ≡ settled (proceed_token e b)
  proceed-settled e a b h =
      settled-proceed e a ∙ ap (λ t. settled (proceed_token e t)) h ∙ sym (settled-proceed e b)

  pub undo-settled :
      (es : List (TokenHistoryEntry F)) (a b : TokenTables F)
      → settled a ≡ settled b
      → settled (undo_tokens es a) ≡ settled (undo_tokens es b)
  unfolding undo_tokens
  undo-settled [] a b h = h
  undo-settled (e ∷ es) a b h =
      proceed-settled e (undo_tokens es a) (undo_tokens es b) (undo-settled es a b h)

  pub undo_tokens-append :
      (es fs : List (TokenHistoryEntry F)) (db : TokenTables F)
      → undo_tokens (es ++ fs) db ≡ undo_tokens es (undo_tokens fs db)
  unfolding undo_tokens
  undo_tokens-append [] fs db = refl
  undo_tokens-append (e ∷ es) fs db = ap (proceed_token e) (undo_tokens-append es fs db)

  -- The tables of tokens are as before.
  pub tokens_undone :
      (item : ProcessedData F) (db : TokenTables F)
      → FitsTokens item db
      → Returns
          (token_entries item db)
          (λ es. settled (undo_tokens es (store_tokens item db)) ≡ settled db)
  unfolding token_entries store_tokens undo_tokens
  tokens_undone (ProcessedData.info _ _ _) db h = refl
  tokens_undone (ProcessedData.prevouts _ _) db h = refl
  tokens_undone (ProcessedData.full_hash _) db h = refl
  tokens_undone (ProcessedData.inscription_partials _ _) db h = refl
  tokens_undone (ProcessedData.inscription_offset _ _) db h = refl
  tokens_undone (ProcessedData.history n id events) db h =
      unfold proceed_token settled or_zero in
      rw
        (
          append_undone db.address_token_to_history events h.0,
          append_undone db.outpoint_to_event (outpoint_events events) h.1,
          append_undone db.token_id_to_event (token_id_events events) h.2,
          set_undone db.block_events n _ h.3,
        )
        refl
  tokens_undone (ProcessedData.tokens metas balances to_write to_remove) db h =
      Returns-bind _ _ _ (multi_get_all db.address_location_to_transfer to_remove)
        (multi_get_all-Stored db.address_location_to_transfer to_remove h.0)
        (λ ps q.
          unfold proceed_token settled in
          rw
            (
              restore_remove db.token_to_meta metas,
              remove_restore db.address_token_to_balance balances,
              transfers ps q,
            )
            refl)
    where
      transfers :
          (ps : List (AddressLocation × TransferProtoDb F))
          → Stored db.address_location_to_transfer ps × (keys ps ≡ to_remove)
          → extend ps (
              remove_batch
                (keys to_write)
                (extend to_write (remove_batch to_remove db.address_location_to_transfer)))
            ≡ db.address_location_to_transfer
      transfers ps q = rw (← q.1) (
          replace_undone db.address_location_to_transfer ps to_write q.0
            (subst (λ ks. AreNew db.address_location_to_transfer ks to_write) (sym q.1) h.1))
