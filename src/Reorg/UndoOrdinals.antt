-- ===== src/Reorg/UndoOrdinals.antt =====
-- What is written of one part of a block to the tables of outputs is taken back by the entries that
-- are pushed for it, but for outputs that the block made, which stay.
use bel_20_indexer.Prelude.{
  ◌≡◌, refl, ap, ◌∙◌, none, some, List, [], ◌∷◌, ◌++◌, nat_eq, list_eq, arith, Returns,
  Returns-bind, All, ◌⊎◌, inl, inr, if◌then◌else◌, Bool-cases, Eq,
}
use bel_20_indexer.Map.{Map, lookup}
use bel_20_indexer.Storage.Table.{
  Table, set, extend, remove_batch, keys, Stored, has, remove_batch-at, extend-away,
}
use bel_20_indexer.Storage.Undo.{AreNew, replace_undone, AreNew-at}
use bel_20_indexer.Tokens.Types.{OutPoint, outpoint_eq, address_token_eq}
use bel_20_indexer.Db.TokenId.{token_id_eq}
use bel_20_indexer.Db.AddressTokenId.{address_token_id_eq}
use bel_20_indexer.Db.AddressLocation.{address_location_eq}
use bel_20_indexer.Db.TxPrevout.{TxPrevout}
use bel_20_indexer.Reorg.Tables.{OrdinalTables}
use bel_20_indexer.Reorg.Entry.{OrdinalsEntry, proceed_ordinals, undo_ordinals}
use bel_20_indexer.Reorg.Write.{ProcessedData, ordinals_entries, store_ordinals, prevouts_before}

-- The second tables are the first, with more outputs at most.
pub record Restores (a b : OrdinalTables) : Type 0 where
  pub partials_restored : b.outpoint_to_partials ≡ a.outpoint_to_partials
  pub offsets_restored : b.outpoint_to_inscription_offsets ≡ a.outpoint_to_inscription_offsets
  pub outputs_kept : (k : OutPoint) (v : TxPrevout) → a.prevouts k ≡ some v → b.prevouts k ≡ some v

pub Restores-refl : (a : OrdinalTables) → Restores a a
Restores-refl a = record {
  partials_restored = refl;
  offsets_restored = refl;
  outputs_kept = λ k v h. h;
}

pub Restores-trans : {a b c : OrdinalTables} → Restores a b → Restores b c → Restores a c
Restores-trans p q = record {
  partials_restored = q.partials_restored ∙ p.partials_restored;
  offsets_restored = q.offsets_restored ∙ p.offsets_restored;
  outputs_kept = λ k v h. q.outputs_kept k v (p.outputs_kept k v h);
}

module _ {K V : Type 0} ⦃e : Eq K⦄ where
  abbrev Keeps : Table K V → Table K V → Type 0
  Keeps a b = (k : K) (v : V) → a k ≡ some v → b k ≡ some v

  extend-Keeps :
      (ps : List (K × V)) (a b : Table K V) → Keeps a b → Keeps (extend ps a) (extend ps b)
  unfolding extend set
  extend-Keeps [] a b h = h
  extend-Keeps (p ∷ ps) a b h =
      extend-Keeps ps (set p.0 p.1 a) (set p.0 p.1 b) (λ k v q. ground (arith, h k v))

  -- The entries agree with the table where it has their keys.
  abbrev Agree : Table K V → List (K × V) → Type 0
  Agree table ps = All (λ (p : K × V). (table p.0 ≡ some p.1) ⊎ (table p.0 ≡ none)) ps

  extend-Agree :
      (ps : List (K × V)) (before table : Table K V) (k : K) (v : V)
      → Agree before ps
      → before k ≡ some v
      → extend ps table k ≡ (if has k (keys ps) then some v else table k)
  unfolding extend set
  extend-Agree [] before table k v h q = refl
  extend-Agree (p ∷ ps) before table k v h q =
      ground (arith, extend-Agree ps before (set p.0 p.1 table) k v h.1 q, e.beq_iff p.0 k, h.0, q)

proceed-Restores :
    (e : OrdinalsEntry) (a b : OrdinalTables)
    → Restores a b
    → Restores (proceed_ordinals e a) (proceed_ordinals e b)
unfolding proceed_ordinals
proceed-Restores (OrdinalsEntry.restore_offsets items) a b h = record {
  partials_restored = h.partials_restored;
  offsets_restored = ap (extend items) h.offsets_restored;
  outputs_kept = h.outputs_kept;
}
proceed-Restores (OrdinalsEntry.remove_offsets ks) a b h = record {
  partials_restored = h.partials_restored;
  offsets_restored = ap (remove_batch ks) h.offsets_restored;
  outputs_kept = h.outputs_kept;
}
proceed-Restores (OrdinalsEntry.restore_prevouts items) a b h = record {
  partials_restored = h.partials_restored;
  offsets_restored = h.offsets_restored;
  outputs_kept = extend-Keeps items a.prevouts b.prevouts h.outputs_kept;
}
proceed-Restores (OrdinalsEntry.restore_partial items) a b h = record {
  partials_restored = ap (extend items) h.partials_restored;
  offsets_restored = h.offsets_restored;
  outputs_kept = h.outputs_kept;
}
proceed-Restores (OrdinalsEntry.remove_partials ks) a b h = record {
  partials_restored = ap (remove_batch ks) h.partials_restored;
  offsets_restored = h.offsets_restored;
  outputs_kept = h.outputs_kept;
}

pub undo-Restores :
    (es : List OrdinalsEntry) (a b : OrdinalTables)
    → Restores a b
    → Restores (undo_ordinals es a) (undo_ordinals es b)
unfolding undo_ordinals
undo-Restores [] a b h = h
undo-Restores (e ∷ es) a b h =
    proceed-Restores e (undo_ordinals es a) (undo_ordinals es b) (undo-Restores es a b h)

pub undo_ordinals-append :
    (es fs : List OrdinalsEntry) (db : OrdinalTables)
    → undo_ordinals (es ++ fs) db ≡ undo_ordinals es (undo_ordinals fs db)
unfolding undo_ordinals
undo_ordinals-append [] fs db = refl
undo_ordinals-append (e ∷ es) fs db = ap (proceed_ordinals e) (undo_ordinals-append es fs db)

module _ (table : Table OutPoint TxPrevout) (to_write : Map OutPoint TxPrevout) where
  -- A spent output is stored, or is one of the block.
  abbrev pub AreKnown : List OutPoint → Type 0
  AreKnown ks =
      All
        (λ (k : OutPoint).
          ((v : TxPrevout) × (table k ≡ some v))
          ⊎ ((table k ≡ none) × (v : TxPrevout) × (lookup k to_write ≡ some v)))
        ks

  prevouts_before-Agree :
      (ks : List OutPoint)
      → AreKnown ks
      → Returns (prevouts_before table to_write ks) (λ ps. Agree table ps × (keys ps ≡ ks))
  unfolding prevouts_before
  prevouts_before-Agree [] h = (tt, refl)
  prevouts_before-Agree (k ∷ ks) h = elim h.0 [
    | inl stored ↦
        rw (Returns, stored.1)
          (Returns-bind _ _ _ (prevouts_before table to_write ks) (prevouts_before-Agree ks h.1)
            (λ ps q. ((inl stored.1, q.0), ap (λ js. k ∷ js) q.1)))
    | inr made ↦
        rw (Returns, made.0, made.2)
          (Returns-bind _ _ _ (prevouts_before table to_write ks) (prevouts_before-Agree ks h.1)
            (λ ps q. ((inr made.0, q.0), ap (λ js. k ∷ js) q.1)))
  ]

  prevouts_kept :
      (to_remove : List OutPoint) (ps : List (OutPoint × TxPrevout))
      → AreNew table [] to_write
      → Agree table ps × (keys ps ≡ to_remove)
      → Keeps table (extend ps (remove_batch to_remove (extend to_write table)))
  prevouts_kept to_remove ps news q k v h = ground (
    arith,
    extend-Agree ps table (remove_batch to_remove (extend to_write table)) k v q.0 h,
    remove_batch-at to_remove (extend to_write table) k,
    extend-away to_write table k,
    AreNew-at table [] to_write k news,
    Bool-cases (has k (keys to_write)),
    q.1,
    h,
  )

module _ {F : Type 0} where
  -- What the writes of a part of a block expect of the tables: what is removed is there, and what
  -- is written is new or at a key that is removed.
  abbrev pub FitsOrdinals : ProcessedData F → OrdinalTables → Type 0
  FitsOrdinals (ProcessedData.prevouts to_write to_remove) db =
      AreKnown db.prevouts to_write to_remove × AreNew db.prevouts [] to_write
  FitsOrdinals (ProcessedData.inscription_partials to_remove to_write) db =
      Stored db.outpoint_to_partials to_remove
      × AreNew db.outpoint_to_partials (keys to_remove) to_write
  FitsOrdinals (ProcessedData.inscription_offset to_remove to_write) db =
      Stored db.outpoint_to_inscription_offsets to_remove
      × AreNew db.outpoint_to_inscription_offsets (keys to_remove) to_write
  FitsOrdinals _ db = Unit

  -- The tables of outputs are as before, but for outputs that the block made.
  pub ordinals_undone :
      (item : ProcessedData F) (db : OrdinalTables)
      → FitsOrdinals item db
      → Returns
          (ordinals_entries item db)
          (λ es. Restores db (undo_ordinals es (store_ordinals item db)))
  unfolding ordinals_entries store_ordinals undo_ordinals proceed_ordinals
  ordinals_undone (ProcessedData.info _ _ _) db h = Restores-refl db
  ordinals_undone (ProcessedData.full_hash _) db h = Restores-refl db
  ordinals_undone (ProcessedData.history _ _ _) db h = Restores-refl db
  ordinals_undone (ProcessedData.tokens _ _ _ _) db h = Restores-refl db
  ordinals_undone (ProcessedData.inscription_partials to_remove to_write) db h = record {
    partials_restored = replace_undone db.outpoint_to_partials to_remove to_write h.0 h.1;
    offsets_restored = refl;
    outputs_kept = λ k v q. q;
  }
  ordinals_undone (ProcessedData.inscription_offset to_remove to_write) db h = record {
    partials_restored = refl;
    offsets_restored = replace_undone db.outpoint_to_inscription_offsets to_remove to_write h.0 h.1;
    outputs_kept = λ k v q. q;
  }
  ordinals_undone (ProcessedData.prevouts to_write to_remove) db h =
      Returns-bind _ _ _ (prevouts_before db.prevouts to_write to_remove)
        (prevouts_before-Agree db.prevouts to_write to_remove h.0)
        (λ ps q. record {
          partials_restored = refl;
          offsets_restored = refl;
          outputs_kept = prevouts_kept db.prevouts to_write to_remove ps h.1 q;
        })
