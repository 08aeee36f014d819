-- ===== src/Inscriptions/Moves.antt =====
-- The moves of inscriptions in a block, the first part of the loop over inputs of `parse_block` in
-- src/inscriptions/parser.rs. A `HashSet` of offsets is a list; a panic is `none`.
use bel_20_indexer.Prelude.{
  ℕ, Option, none, some, List, [], ◌∷◌, Bool, true, false, nat_eq, list_eq, if◌then◌else◌, ◌>>=◌,
  get_elem?,
}
use bel_20_indexer.Map.{Map, lookup, contains, insert, erase}
use bel_20_indexer.Env.{Env}
use bel_20_indexer.Storage.Table.{has}
use bel_20_indexer.Tokens.Types.{Txid, OutPoint, outpoint_eq, Location, location_eq, TokenCache}
use bel_20_indexer.Tokens.Proto.{Blockchain, Result, Brc4}
use bel_20_indexer.Tokens.Parse.{transferred, burned_transfer}
use bel_20_indexer.Db.TxPrevout.{TxPrevout}
use bel_20_indexer.Db.Partials.{Partials}
use bel_20_indexer.Blk.Tx.{EvaluatedTx}
use bel_20_indexer.Blk.Block.{Hashed}
use bel_20_indexer.Inscriptions.Searcher.{get_output_index_by_input}
use bel_20_indexer.Inscriptions.Leaked.{LeakedInscriptions, move, add_leaked, add_u64}
use bel_20_indexer.Inscriptions.Template.{Outside, spent_outpoints, output_values}

abbrev pub OffsetMap : Type 0
OffsetMap = Map OutPoint (List ℕ)

-- The set at a key, or the empty one.
unfoldable pub offsets_at : OutPoint → OffsetMap → List ℕ
offsets_at outpoint offsets = elim (lookup outpoint offsets) [ none ↦ [] | some set ↦ set ]

-- `entry(outpoint).or_default().insert(offset)`
unfoldable pub add_offset : OutPoint → ℕ → OffsetMap → OffsetMap
unfolding offsets_at
add_offset outpoint offset offsets =
    let set = offsets_at outpoint offsets in
    insert outpoint (if has offset set then set else offset ∷ set) offsets

unfoldable pub add_locations : List Location → OffsetMap → OffsetMap
unfolding add_offset
add_locations [] offsets = offsets
add_locations (l ∷ ls) offsets = add_locations ls (add_offset l.outpoint l.offset offsets)

pub record BlockState (F : Type 0) : Type 0 where
  pub outpoint_to_partials : Map OutPoint Partials
  pub outpoint_to_offsets : OffsetMap
  pub leaked : Option LeakedInscriptions
  pub token_cache : TokenCache F

-- What a transaction is handled with.
pub record TxContext (W S : Type 0) : Type 0 where
  pub tx : Hashed (EvaluatedTx W S)
  pub inputs_cum : List ℕ
  pub prevouts : Map OutPoint TxPrevout

-- `inputs_cum.get(input_index).map(|x| *x + inscription_offset)`
unfoldable pub moved_offset : List ℕ → ℕ → ℕ → Option ℕ
moved_offset inputs_cum input_index inscription_offset = elim (get_elem? inputs_cum input_index) [
  | none ↦ none
  | some x ↦ some (add_u64 x inscription_offset)
]

-- What a block is parsed with: what is outside, the chain, the decoder of messages, the height and
-- the time of the block.
pub record Setting (env : Env) (W : Type 0) : Type 0 where
  pub outside : Outside W
  pub chain : Blockchain
  pub decode : List ℕ → Result (Brc4 env.Fixed128)
  pub height : ℕ
  pub created : ℕ

module _ {W : Type 0} (env : Env) (setting : Setting env W) where
  open env use {Fixed128}
  open setting use {outside, chain}
  open outside use {is_op_return, script_hash}

  -- The move of a token transfer into an output.
  unfoldable pub transfer_moved :
      Bool → Location → Txid → ℕ → List ℕ → TokenCache Fixed128 → TokenCache Fixed128
  transfer_moved false old_location txid vout script_pubkey cache = cache
  transfer_moved true old_location txid vout script_pubkey cache =
      if is_op_return script_pubkey
      then burned_transfer env chain old_location txid vout cache
      else transferred env chain old_location (script_hash script_pubkey) txid vout cache

  -- The move of a token transfer into the fees, which gives it back to its owner.
  unfoldable pub transfer_leaked :
      Bool
      → Location
      → Txid
      → Map OutPoint TxPrevout
      → TokenCache Fixed128
      → Option (TokenCache Fixed128)
  transfer_leaked false old_location txid prevouts cache = some cache
  transfer_leaked true old_location txid prevouts cache = do
    prevout ← lookup old_location.outpoint prevouts
    some (transferred env chain old_location prevout.script_hash txid 0 cache)

module _ {W S : Type 0} (env : Env) (setting : Setting env W) where
  open env use {Fixed128}

  -- One inscription of a spent output.
  unfoldable pub move_inscription :
      TxContext W S → ℕ → OutPoint → ℕ → BlockState Fixed128 → Option (BlockState Fixed128)
  unfolding transfer_moved transfer_leaked add_offset
  move_inscription context input_index spent inscription_offset state =
      let old_location : Location = record { outpoint = spent; offset = inscription_offset } in
      let is_token_transfer_move = contains old_location state.token_cache.all_transfers in
      let offset = moved_offset context.inputs_cum input_index inscription_offset in
      let values = output_values context.tx.value.outputs in
      elim (get_output_index_by_input offset values) [
        | none ↦ do
          cache ←
              transfer_leaked env setting is_token_transfer_move old_location context.tx.hash
                context.prevouts state.token_cache
          leaked ← state.leaked
          added ←
              add_leaked input_index (spent_outpoints context.tx.value.inputs) values
                inscription_offset context.prevouts move leaked
          some (record state { token_cache = cache; leaked = some added })
        | some place ↦ do
          out ← get_elem? context.tx.value.outputs place.0
          some (record state {
            outpoint_to_offsets =
                add_offset (record { txid = context.tx.hash; vout = place.0 }) place.1
                  state.outpoint_to_offsets;
            token_cache =
                transfer_moved env setting is_token_transfer_move old_location context.tx.hash
                  place.0 out.out.script_pubkey state.token_cache;
          })
      ]

  unfoldable pub move_all :
      TxContext W S → ℕ → OutPoint → List ℕ → BlockState Fixed128 → Option (BlockState Fixed128)
  unfolding move_inscription
  move_all context input_index spent [] state = some state
  move_all context input_index spent (offset ∷ offsets) state = do
    moved ← move_inscription context input_index spent offset state
    move_all context input_index spent offsets moved

  -- `if let Some(inscription_offsets) = inscription_outpoint_to_offsets.remove(&txin.outpoint)`
  unfoldable pub handle_moves :
      TxContext W S → ℕ → OutPoint → BlockState Fixed128 → Option (BlockState Fixed128)
  unfolding move_all
  handle_moves context input_index spent state = elim (lookup spent state.outpoint_to_offsets) [
    | none ↦ some state
    | some offsets ↦
        move_all context input_index spent offsets
          (record state { outpoint_to_offsets = erase spent state.outpoint_to_offsets })
  ]
