-- ===== src/Inscriptions/Create.antt =====
-- The creation of inscriptions in a block, the second part of the loop over inputs of `parse_block`
-- in src/inscriptions/parser.rs. A panic is `none`.
use bel_20_indexer.Inscriptions.Moves.{offsets_at, add_offset, BlockState, TxContext, Setting}
use bel_20_indexer.Prelude.{
  ℕ, ◌+◌, ◌%◌, ◌^◌, Option, none, some, List, [], ◌∷◌, ◌++◌, Bool, true, false, ◌&&◌, not, ◌==◌,
  nat_eq, list_eq, leb, if◌then◌else◌, ◌>>=◌, get_elem?,
}
use bel_20_indexer.Map.{Map, lookup, insert, erase}
use bel_20_indexer.Env.{Env}
use bel_20_indexer.Storage.Table.{has}
use bel_20_indexer.Tokens.Types.{Txid, OutPoint, outpoint_eq, location_eq}
use bel_20_indexer.Tokens.Parse.{InscriptionTemplate, parse_token_action}
use bel_20_indexer.Db.Partials.{Partials, Part}
use bel_20_indexer.Blk.Tx.{TxInput}
use bel_20_indexer.Inscriptions.Template.{ParsedInscriptionResult, parse_inscription}

module _ {W : Type 0} (env : Env) (setting : Setting env W) where
  open env use {Fixed128}
  open setting use {outside, chain, decode, height, created}
  open outside use {tapscript, jubilee_height}

  abbrev pub is_jubilee_height : Bool
  is_jubilee_height = leb jubilee_height height

  -- One template: its offset is marked, and its token action read, if it is not skipped.
  unfoldable pub place_template : InscriptionTemplate → BlockState Fixed128 → BlockState Fixed128
  unfolding add_offset offsets_at
  place_template template state =
      let outpoint = template.location.outpoint in
      let offset = template.location.offset in
      let was_there = has offset (offsets_at outpoint state.outpoint_to_offsets) in
      let offset_occupied = was_there && not (jubilee_height == 133000) in
      let marked = record state {
        outpoint_to_offsets = add_offset outpoint offset state.outpoint_to_offsets;
      } in
      if not template.leaked && (offset_occupied && not is_jubilee_height)
      then marked
      else record marked {
        token_cache =
            (parse_token_action env chain decode template height created marked.token_cache).0;
      }

  unfoldable pub place_all : List InscriptionTemplate → BlockState Fixed128 → BlockState Fixed128
  unfolding place_template
  place_all [] state = state
  place_all (t ∷ ts) state = place_all ts (place_template t state)

  -- The numbers of templates of an inscription that began in this transaction.
  unfoldable pub number_templates :
      Bool → ℕ → List InscriptionTemplate → List InscriptionTemplate × ℕ
  number_templates false index templates = (templates, index)
  number_templates true index [] = ([], index)
  number_templates true index (t ∷ ts) =
      let rest = number_templates true ((index + 1) % 2 ^ 32) ts in
      (record t { genesis = record { txid = t.genesis.txid; index = index } } ∷ rest.0, rest.1)

  unfoldable pub part_of : TxInput W → Part
  part_of txin = elim (tapscript txin.witness) [
    | some script ↦ record { is_tapscript = true; script_buffer = script }
    | none ↦ record { is_tapscript = false; script_buffer = txin.script_sig }
  ]

  unfoldable pub partials_at : Txid → OutPoint → Map OutPoint Partials → Partials
  partials_at txid spent all = elim (lookup spent all) [
    | some partials ↦ partials
    | none ↦ record { genesis_txid = txid; inscription_index = 0; parts = [] }
  ]

module _ {W S : Type 0} (env : Env) (setting : Setting env W) where
  open env use {Fixed128}
  open setting use {outside}

  -- What is kept of a partial inscription, if there is an output for it.
  unfoldable pub keep_partials :
      TxContext W S → ℕ → ℕ → Partials → BlockState Fixed128 → BlockState Fixed128 × ℕ
  keep_partials context input_index index partials state =
      let begins = partials.genesis_txid == context.tx.hash in
      let numbered : Partials =
        if begins then record partials { inscription_index = index } else partials in
      let next = if begins then (index + 1) % 2 ^ 32 else index in
      elim (get_elem? context.tx.value.outputs input_index) [
        | none ↦ (state, next)
        | some _ ↦ (
          record state {
            outpoint_to_partials =
                insert (record { txid = context.tx.hash; vout = input_index }) numbered
                  state.outpoint_to_partials;
          },
          next,
        )
      ]

  unfoldable pub place_numbered :
      TxContext W S
      → ℕ
      → Partials
      → List InscriptionTemplate
      → BlockState Fixed128
      → BlockState Fixed128 × ℕ
  unfolding place_all number_templates
  place_numbered context index partials templates state =
      let numbered =
        number_templates env setting (partials.genesis_txid == context.tx.hash) index templates in
      (place_all env setting numbered.0 state, numbered.1)

  unfoldable pub handle_result :
      TxContext W S
      → ℕ
      → ℕ
      → Partials
      → ParsedInscriptionResult
      → BlockState Fixed128
      → BlockState Fixed128 × ℕ
  unfolding keep_partials place_numbered
  handle_result context input_index index partials ParsedInscriptionResult.nothing state =
      (state, index)
  handle_result context input_index index partials ParsedInscriptionResult.partials state =
      keep_partials context input_index index partials state
  handle_result context input_index index partials (ParsedInscriptionResult.single t) state =
      place_numbered context index partials (t ∷ []) state
  handle_result context input_index index partials (ParsedInscriptionResult.many ts) state =
      place_numbered context index partials ts state

  -- The creation of inscriptions by an input.
  unfoldable pub handle_creation :
      TxContext W S → ℕ → ℕ → TxInput W → BlockState Fixed128 → Option (BlockState Fixed128 × ℕ)
  unfolding handle_result part_of partials_at
  handle_creation context input_index index txin state = do
    let found = partials_at env setting context.tx.hash txin.outpoint state.outpoint_to_partials
    let partials : Partials = record found {
      parts = found.parts ++ (part_of env setting txin ∷ []);
    }
    leaked ← state.leaked
    parsed ←
        parse_inscription env outside
          (record {
            tx = context.tx;
            input_index = input_index;
            inputs_cum = context.inputs_cum;
            partials = partials;
            prevouts = context.prevouts;
          })
          leaked
    some (
        handle_result context input_index index partials parsed.1 (record state {
          outpoint_to_partials = erase txin.outpoint state.outpoint_to_partials;
          leaked = some parsed.0;
        }))
