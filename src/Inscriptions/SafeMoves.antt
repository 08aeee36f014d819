-- ===== src/Inscriptions/SafeMoves.antt =====
-- The moves of a block do not panic, and write to outpoints of their transaction only.
use bel_20_indexer.Prelude.{
  ℕ, ◌<◌, ◌≡◌, refl, sym, arith, some, List, [], ◌∷◌, Bool, true, false, length, Returns,
  Returns-bind, Option-cases, inl, inr, subst,
}
use bel_20_indexer.Map.{lookup, contains, erase}
use bel_20_indexer.Env.{Env}
use bel_20_indexer.Tokens.Types.{OutPoint, outpoint_eq, Location, location_eq, TokenCache, Txid}
use bel_20_indexer.Db.TxPrevout.{TxPrevout}
use bel_20_indexer.Inscriptions.Searcher.{get_output_index_by_input}
use bel_20_indexer.Inscriptions.Leaked.{LeakedInscriptions, add_leaked, move}
use bel_20_indexer.Inscriptions.Template.{spent_outpoints, output_values}
use bel_20_indexer.Inscriptions.Moves.{
  OffsetMap, BlockState, TxContext, Setting, moved_offset, add_offset, transfer_leaked,
  move_inscription, move_all, handle_moves,
}
use bel_20_indexer.Inscriptions.Keyed.{
  AllKeys, insert-AllKeys, erase-AllKeys, AllKnown, known_values, found_output, add_leaked-returns,
}

-- The keys of the maps satisfy predicates, and there are fees whose coinbase transaction does.
pub record Keyed (P Q : OutPoint → Type 0) (F : Type 0) (s : BlockState F) : Type 0 where
  pub partials_keyed : AllKeys P s.outpoint_to_partials
  pub offsets_keyed : AllKeys Q s.outpoint_to_offsets
  pub leaks : LeakedInscriptions
  pub has_leaks : s.leaked ≡ some leaks
  pub coinbase_keyed : (vout : ℕ) → Q (record { txid = leaks.coinbase_txid; vout = vout })

-- The outpoints of the transaction satisfy the predicates, and its inputs are known.
pub record FitsTx (P Q : OutPoint → Type 0) {W S : Type 0} (context : TxContext W S) : Type 0 where
  pub partials_here : (vout : ℕ) → P (record { txid = context.tx.hash; vout = vout })
  pub offsets_here : (vout : ℕ) → Q (record { txid = context.tx.hash; vout = vout })
  pub known : AllKnown context.prevouts context.tx.value.inputs

pub add_offset-AllKeys :
    (Q : OutPoint → Type 0) (outpoint : OutPoint) (offset : ℕ) (m : OffsetMap)
    → Q outpoint
    → AllKeys Q m
    → AllKeys Q (add_offset outpoint offset m)
unfolding add_offset
add_offset-AllKeys Q outpoint offset m q h = insert-AllKeys Q outpoint _ m q h

module _ {W S : Type 0} (env : Env) (setting : Setting env W) (P Q : OutPoint → Type 0)
    (context : TxContext W S) (fits : FitsTx P Q context) where
  open env use {Fixed128}

  abbrev Good : BlockState Fixed128 → Type 0
  Good = Keyed P Q Fixed128

  transfer_leaked-returns :
      (is_move : Bool) (location : Location) (txid : Txid) (cache : TokenCache Fixed128)
      (v : TxPrevout)
      → lookup location.outpoint context.prevouts ≡ some v
      → Returns
          (transfer_leaked env setting is_move location txid context.prevouts cache)
          (λ _. Unit {0})
  unfolding transfer_leaked
  transfer_leaked-returns false location txid cache v h = tt
  transfer_leaked-returns true location txid cache v h = rw (Returns, h) tt

  move_inscription-Keyed :
      (idx : ℕ) (spent : OutPoint) (offset : ℕ) (s : BlockState Fixed128) (v : TxPrevout)
      → idx < length context.tx.value.inputs
      → lookup spent context.prevouts ≡ some v
      → Good s
      → Returns (move_inscription env setting context idx spent offset s) Good
  unfolding move_inscription
  move_inscription-Keyed idx spent offset s v lt known h =
      let moved = moved_offset context.inputs_cum idx offset in
      let outs = context.tx.value.outputs in
      let values = known_values context.prevouts context.tx.value.inputs fits.known in
      elim (Option-cases (get_output_index_by_input moved (output_values outs))) [
        | inl lost ↦
            rw (Returns, lost)
              (Returns-bind (λ _. Unit {0}) Good _
                (transfer_leaked env setting
                  (contains (record { outpoint = spent; offset = offset })
                    s.token_cache.all_transfers)
                  (record { outpoint = spent; offset = offset }) context.tx.hash context.prevouts
                  s.token_cache)
                (transfer_leaked-returns
                  (contains (record { outpoint = spent; offset = offset })
                    s.token_cache.all_transfers)
                  (record { outpoint = spent; offset = offset }) context.tx.hash s.token_cache v
                  known)
                (λ cache _.
                  rw (Returns, h.has_leaks)
                    (Returns-bind _ Good _
                      (add_leaked idx (spent_outpoints context.tx.value.inputs) (output_values outs)
                        offset context.prevouts move h.leaks)
                      (add_leaked-returns (spent_outpoints context.tx.value.inputs)
                        (output_values outs) values.0 idx offset context.prevouts move h.leaks
                        values.1 (omega (arith, values.2, lt)))
                      (λ added same. record {
                        partials_keyed = h.partials_keyed;
                        offsets_keyed = h.offsets_keyed;
                        leaks = added;
                        has_leaks = refl;
                        coinbase_keyed = λ vout.
                            subst (λ t. Q (record { txid = t; vout = vout })) (sym same)
                              (h.coinbase_keyed vout);
                      }))))
        | inr found ↦
            let out = found_output moved outs found.0 found.1 in
            rw (Returns, found.1, out.1)
              (record {
                partials_keyed = h.partials_keyed;
                offsets_keyed =
                    add_offset-AllKeys Q (record { txid = context.tx.hash; vout = found.0.0 })
                      found.0.1 s.outpoint_to_offsets (fits.offsets_here found.0.0) h.offsets_keyed;
                leaks = h.leaks;
                has_leaks = h.has_leaks;
                coinbase_keyed = h.coinbase_keyed;
              })
      ]

  move_all-Keyed :
      (idx : ℕ) (spent : OutPoint) (offsets : List ℕ) (s : BlockState Fixed128) (v : TxPrevout)
      → idx < length context.tx.value.inputs
      → lookup spent context.prevouts ≡ some v
      → Good s
      → Returns (move_all env setting context idx spent offsets s) Good
  unfolding move_all
  move_all-Keyed idx spent [] s v lt known h = h
  move_all-Keyed idx spent (offset ∷ offsets) s v lt known h =
      Returns-bind _ Good _ (move_inscription env setting context idx spent offset s)
        (move_inscription-Keyed idx spent offset s v lt known h)
        (λ moved k. move_all-Keyed idx spent offsets moved v lt known k)

  pub handle_moves-Keyed :
      (idx : ℕ) (spent : OutPoint) (s : BlockState Fixed128) (v : TxPrevout)
      → idx < length context.tx.value.inputs
      → lookup spent context.prevouts ≡ some v
      → Good s
      → Returns (handle_moves env setting context idx spent s) Good
  unfolding handle_moves
  handle_moves-Keyed idx spent s v lt known h =
      elim (Option-cases (lookup spent s.outpoint_to_offsets)) [
        | inl nowhere ↦ rw (Returns, nowhere) h
        | inr there ↦
            rw (Returns, there.1)
              (move_all-Keyed idx spent there.0
                (record s { outpoint_to_offsets = erase spent s.outpoint_to_offsets }) v lt known
                (record {
                  partials_keyed = h.partials_keyed;
                  offsets_keyed = erase-AllKeys Q spent s.outpoint_to_offsets h.offsets_keyed;
                  leaks = h.leaks;
                  has_leaks = h.has_leaks;
                  coinbase_keyed = h.coinbase_keyed;
                }))
      ]
