-- ===== src/Inscriptions/SafeBlock.antt =====
-- The parser of a block does not panic on a block whose first transaction is the coinbase and
-- whose spent outputs are known, and what it writes fits what it removes.
use bel_20_indexer.Inscriptions.Create.{is_jubilee_height, handle_creation}
use bel_20_indexer.Prelude.{
  ◌||◌, ◌==◌, nat_eq, ℕ, ◌+◌, ◌<◌, ◌≡◌, refl, arith, Option, some, List, [], ◌∷◌, false, length,
  All, All-append, Returns, Returns-bind, if_rule, match_rule, nat_eq, list_eq,
}
use bel_20_indexer.Map.{Map, lookup}
use bel_20_indexer.Env.{Env}
use bel_20_indexer.Tokens.Types.{OutPoint, outpoint_eq, Location, location_eq}
use bel_20_indexer.Db.TxPrevout.{TxPrevout}
use bel_20_indexer.Blk.Tx.{EvaluatedTx, TxInput, is_coinbase}
use bel_20_indexer.Blk.Block.{Hashed}
use bel_20_indexer.Inscriptions.Offsets.{calc_offsets}
use bel_20_indexer.Inscriptions.Leaked.{
  LeakedInscription, LeakedInscriptions, add_tx_fee, find_inscription_vout, leaked_locations,
  all_locations,
}
use bel_20_indexer.Inscriptions.Moves.{
  OffsetMap, add_offset, add_locations, BlockState, TxContext, Setting, handle_moves,
}
use bel_20_indexer.Inscriptions.Block.{
  handle_input, handle_inputs, handle_spends, handle_tx, handle_txs,
}
use bel_20_indexer.Inscriptions.Keyed.{AllKeys, AllKnown, known_values}
use bel_20_indexer.Inscriptions.SafeMoves.{Keyed, FitsTx, handle_moves-Keyed, add_offset-AllKeys}
use bel_20_indexer.Inscriptions.SafeCreate.{handle_creation-Keyed}

module _ (Q : OutPoint → Type 0) where
  leaked_locations-AllKeys :
      (leaked : LeakedInscriptions) (offset : ℕ) (is : List LeakedInscription)
      → ((vout : ℕ) → Q (record { txid = leaked.coinbase_txid; vout = vout }))
      → All (λ (l : Location). Q l.outpoint) (leaked_locations leaked offset is)
  unfolding leaked_locations
  leaked_locations-AllKeys leaked offset [] q = tt
  leaked_locations-AllKeys leaked offset (i ∷ is) q =
      match_rule (λ ls. All (λ (l : Location). Q l.outpoint) ls)
        (find_inscription_vout offset leaked) (leaked_locations leaked offset is)
        (λ p.
          record { offset = p.1; outpoint = record { txid = leaked.coinbase_txid; vout = p.0 } }
          ∷ leaked_locations leaked offset is)
        (λ _. leaked_locations-AllKeys leaked offset is q)
        (λ p _. (q p.0, leaked_locations-AllKeys leaked offset is q))

  pub all_locations-AllKeys :
      (leaked : LeakedInscriptions) (ps : Map ℕ (List LeakedInscription))
      → ((vout : ℕ) → Q (record { txid = leaked.coinbase_txid; vout = vout }))
      → All (λ (l : Location). Q l.outpoint) (all_locations leaked ps)
  unfolding all_locations
  all_locations-AllKeys leaked [] q = tt
  all_locations-AllKeys leaked (p ∷ ps) q =
      All-append (λ (l : Location). Q l.outpoint) (leaked_locations leaked p.0 p.1)
        (all_locations leaked ps) (all_locations-AllKeys leaked ps q)
        (leaked_locations-AllKeys leaked p.0 p.1 q)

  pub add_locations-AllKeys :
      (ls : List Location) (m : OffsetMap)
      → All (λ (l : Location). Q l.outpoint) ls
      → AllKeys Q m
      → AllKeys Q (add_locations ls m)
  unfolding add_locations
  add_locations-AllKeys [] m q h = h
  add_locations-AllKeys (l ∷ ls) m q h =
      add_locations-AllKeys ls (add_offset l.outpoint l.offset m) q.1
        (add_offset-AllKeys Q l.outpoint l.offset m q.0 h)

module _ (env : Env) (P Q : OutPoint → Type 0) where
  open env use {Fixed128}

  abbrev pub Good : BlockState Fixed128 → Type 0
  Good = Keyed P Q Fixed128

module _ {W S : Type 0} (env : Env) (setting : Setting env W) (P Q : OutPoint → Type 0) where
  open env use {Fixed128}

  handle_input-Keyed :
      (context : TxContext W S) (idx index : ℕ) (txin : TxInput W) (s : BlockState Fixed128)
      (v : TxPrevout)
      → FitsTx P Q context
      → idx < length context.tx.value.inputs
      → lookup txin.outpoint context.prevouts ≡ some v
      → (Good env P Q) s
      → Returns (handle_input env setting context idx index txin s) (λ r. (Good env P Q) r.0)
  unfolding handle_input
  handle_input-Keyed context idx index txin s v fits lt known h =
      Returns-bind (Good env P Q) (λ r. (Good env P Q) r.0) _
        (handle_moves env setting context idx txin.outpoint s)
        (handle_moves-Keyed env setting P Q context fits idx txin.outpoint s v lt known h)
        (λ moved k.
          if_rule
            (λ (o : Option (BlockState Fixed128 × ℕ)).
              Returns o (λ (r : BlockState Fixed128 × ℕ). Good env P Q r.0))
            (is_jubilee_height env setting || idx == 0)
            (handle_creation env setting context idx index txin moved) (some (moved, index))
            (λ _. handle_creation-Keyed env setting P Q context fits idx index txin moved lt k)
            (λ _. k))

  handle_inputs-Keyed :
      (context : TxContext W S) (idx index : ℕ) (txins : List (TxInput W)) (s : BlockState Fixed128)
      → FitsTx P Q context
      → idx + length txins ≡ length context.tx.value.inputs
      → AllKnown context.prevouts txins
      → (Good env P Q) s
      → Returns (handle_inputs env setting context idx index txins s) (Good env P Q)
  unfolding handle_inputs
  handle_inputs-Keyed context idx index [] s fits place known h = h
  handle_inputs-Keyed context idx index (txin ∷ txins) s fits place known h =
      Returns-bind (λ r. (Good env P Q) r.0) (Good env P Q) _
        (handle_input env setting context idx index txin s)
        (handle_input-Keyed context idx index txin s known.0.0 fits (omega (arith, place)) known.0.1
          h)
        (λ handled k.
          handle_inputs-Keyed context (idx + 1) handled.1 txins handled.0 fits
            (omega (arith, place)) known.1 k)

  -- The outpoints of a transaction satisfy the predicates.
  abbrev pub TxHere : Hashed (EvaluatedTx W S) → Type 0
  TxHere tx =
      ((vout : ℕ) → P (record { txid = tx.hash; vout = vout }))
      × ((vout : ℕ) → Q (record { txid = tx.hash; vout = vout }))

  handle_spends-Keyed :
      (prevouts : Map OutPoint TxPrevout) (tx : Hashed (EvaluatedTx W S)) (s : BlockState Fixed128)
      → TxHere tx
      → AllKnown prevouts tx.value.inputs
      → (Good env P Q) s
      → Returns (handle_spends env setting prevouts tx s) (Good env P Q)
  unfolding handle_spends add_tx_fee calc_offsets
  handle_spends-Keyed prevouts tx s here known h =
      let values = known_values prevouts tx.value.inputs known in
      rw (Returns, h.has_leaks, values.1)
        (handle_inputs-Keyed _ 0 0 tx.value.inputs _
          (record { partials_here = here.0; offsets_here = here.1; known = known }) (omega arith)
          known
          (record {
            partials_keyed = h.partials_keyed;
            offsets_keyed = h.offsets_keyed;
            leaks = _;
            has_leaks = refl;
            coinbase_keyed = h.coinbase_keyed;
          }))

  handle_tx-Keyed :
      (prevouts : Map OutPoint TxPrevout) (tx : Hashed (EvaluatedTx W S)) (s : BlockState Fixed128)
      → TxHere tx
      → is_coinbase tx.value ≡ some false
      → AllKnown prevouts tx.value.inputs
      → Good env P Q s
      → Returns (handle_tx env setting prevouts tx s) (Good env P Q)
  unfolding handle_tx
  handle_tx-Keyed prevouts tx s here spends known h =
      rw (Returns, spends) (handle_spends-Keyed prevouts tx s here known h)

  -- A transaction that is not the coinbase, at outpoints that satisfy the predicates.
  abbrev pub Spends : Map OutPoint TxPrevout → Hashed (EvaluatedTx W S) → Type 0
  Spends prevouts tx =
      TxHere tx × (is_coinbase tx.value ≡ some false) × AllKnown prevouts tx.value.inputs

  pub handle_txs-Keyed :
      (prevouts : Map OutPoint TxPrevout) (txs : List (Hashed (EvaluatedTx W S)))
      (s : BlockState Fixed128)
      → All (Spends prevouts) txs
      → Good env P Q s
      → Returns (handle_txs env setting prevouts txs s) (Good env P Q)
  unfolding handle_txs
  handle_txs-Keyed prevouts [] s fits h = h
  handle_txs-Keyed prevouts (tx ∷ txs) s fits h =
      Returns-bind (Good env P Q) (Good env P Q) _ (handle_tx env setting prevouts tx s)
        (handle_tx-Keyed prevouts tx s fits.0.0 fits.0.1 fits.0.2 h)
        (λ handled k. handle_txs-Keyed prevouts txs handled fits.1 k)
