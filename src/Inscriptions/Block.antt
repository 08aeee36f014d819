-- ===== src/Inscriptions/Block.antt =====
-- The inscriptions of a block, `Parser::parse_block` of src/inscriptions/parser.rs. A panic is
-- `none`.
use bel_20_indexer.Inscriptions.Create.{handle_creation, is_jubilee_height}
use bel_20_indexer.Inscriptions.Moves.{
  OffsetMap, add_locations, BlockState, TxContext, Setting, handle_moves,
}
use bel_20_indexer.Prelude.{
  ℕ, ◌+◌, Option, none, some, List, [], ◌∷◌, ◌||◌, ◌==◌, nat_eq, list_eq, if◌then◌else◌, ◌>>=◌,
}
use bel_20_indexer.Map.{Map}
use bel_20_indexer.Env.{Env}
use bel_20_indexer.Storage.Table.{Table, multi_get_kv, keys}
use bel_20_indexer.Tokens.Types.{OutPoint, outpoint_eq, location_eq, TokenCache}
use bel_20_indexer.Db.TxPrevout.{TxPrevout}
use bel_20_indexer.Db.Partials.{Partials}
use bel_20_indexer.Blk.Tx.{EvaluatedTx, TxInput, is_coinbase}
use bel_20_indexer.Blk.Block.{Hashed}
use bel_20_indexer.Inscriptions.Offsets.{calc_offsets}
use bel_20_indexer.Inscriptions.Leaked.{new_leaked, add_tx_fee, get_leaked_inscriptions}
use bel_20_indexer.Inscriptions.Template.{spent_outpoints, output_values}

-- What is left of the block, with the partials and the offsets that the block began with.
pub record ParsedBlock (F : Type 0) : Type 0 where
  pub partials_to_remove : Map OutPoint Partials
  pub partials_to_write : Map OutPoint Partials
  pub offsets_to_remove : OffsetMap
  pub offsets_to_write : OffsetMap
  pub token_cache : TokenCache F

module _ {W S : Type 0} (env : Env) (setting : Setting env W) where
  open env use {Fixed128}

  unfoldable pub handle_input :
      TxContext W S → ℕ → ℕ → TxInput W → BlockState Fixed128 → Option (BlockState Fixed128 × ℕ)
  unfolding handle_moves handle_creation
  handle_input context input_index index txin state = do
    moved ← handle_moves env setting context input_index txin.outpoint state
    if is_jubilee_height env setting || input_index == 0
        then handle_creation env setting context input_index index txin moved
        else some (moved, index)

  unfoldable pub handle_inputs :
      TxContext W S → ℕ → ℕ → List (TxInput W) → BlockState Fixed128 → Option (BlockState Fixed128)
  unfolding handle_input
  handle_inputs context input_index index [] state = some state
  handle_inputs context input_index index (txin ∷ txins) state = do
    handled ← handle_input context input_index index txin state
    handle_inputs context (input_index + 1) handled.1 txins handled.0

  unfoldable pub handle_spends :
      Map OutPoint TxPrevout
      → Hashed (EvaluatedTx W S)
      → BlockState Fixed128
      → Option (BlockState Fixed128)
  unfolding handle_inputs
  handle_spends prevouts tx state = do
    leaked ← state.leaked
    let spent = spent_outpoints tx.value.inputs
    let values = output_values tx.value.outputs
    with_fee ← add_tx_fee spent values prevouts leaked
    inputs_cum ← calc_offsets spent values prevouts
    handle_inputs (record { tx = tx; inputs_cum = inputs_cum; prevouts = prevouts }) 0 0
        tx.value.inputs (record state { leaked = some with_fee })

  unfoldable pub handle_tx :
      Map OutPoint TxPrevout
      → Hashed (EvaluatedTx W S)
      → BlockState Fixed128
      → Option (BlockState Fixed128)
  unfolding handle_spends
  handle_tx prevouts tx state = do
    coinbase ← is_coinbase tx.value
    if coinbase
        then some
            (record state { leaked = some (new_leaked tx.hash (output_values tx.value.outputs)) })
        else handle_spends prevouts tx state

  unfoldable pub handle_txs :
      Map OutPoint TxPrevout
      → List (Hashed (EvaluatedTx W S))
      → BlockState Fixed128
      → Option (BlockState Fixed128)
  unfolding handle_tx
  handle_txs prevouts [] state = some state
  handle_txs prevouts (tx ∷ txs) state = do
    handled ← handle_tx prevouts tx state
    handle_txs prevouts txs handled

  unfoldable pub parse_block :
      Table OutPoint Partials
      → Table OutPoint (List ℕ)
      → Map OutPoint TxPrevout
      → List (Hashed (EvaluatedTx W S))
      → TokenCache Fixed128
      → Option (ParsedBlock Fixed128)
  unfolding handle_txs add_locations
  parse_block partials_table offsets_table prevouts txs cache = do
    let partials = multi_get_kv partials_table (keys prevouts)
    let offsets = multi_get_kv offsets_table (keys prevouts)
    handled ← handle_txs prevouts txs (record {
      outpoint_to_partials = partials;
      outpoint_to_offsets = offsets;
      leaked = none;
      token_cache = cache;
    })
    leaked ← handled.leaked
    some (record {
      partials_to_remove = partials;
      partials_to_write = handled.outpoint_to_partials;
      offsets_to_remove = offsets;
      offsets_to_write = add_locations (get_leaked_inscriptions leaked) handled.outpoint_to_offsets;
      token_cache = handled.token_cache;
    })
