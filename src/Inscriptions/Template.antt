-- ===== src/Inscriptions/Template.antt =====
-- From a parsed inscription to the template that tokens are read of, `parse_inscription` and
-- `convert_to_template` of src/inscriptions/parser.rs. A panic is `none`.
use bel_20_indexer.Env.{Env}
use bel_20_indexer.Prelude.{
  ℕ, Option, none, some, List, [], ◌∷◌, Bool, false, ◌>>=◌, get_elem?, if◌then◌else◌,
}
use bel_20_indexer.Map.{Map}
use bel_20_indexer.Tokens.Types.{FullHash, OutPoint}
use bel_20_indexer.Tokens.Parse.{InscriptionTemplate}
use bel_20_indexer.Db.TxPrevout.{TxPrevout}
use bel_20_indexer.Db.Partials.{Partials}
use bel_20_indexer.Blk.Tx.{EvaluatedTx, EvaluatedTxOut, TxInput}
use bel_20_indexer.Blk.Block.{Hashed}
use bel_20_indexer.Inscriptions.Searcher.{get_output_index_by_input}
use bel_20_indexer.Inscriptions.Pointer.{pointer}
use bel_20_indexer.Inscriptions.Leaked.{LeakedInscriptions, creation, add_leaked}
use bel_20_indexer.Inscriptions.Envelope.{Instructions}
use bel_20_indexer.Inscriptions.Parsed.{Inscription}
use bel_20_indexer.Inscriptions.Parse.{ParsedInscription, from_parts}

-- What is used of the crates bellscoin and bitcoin_hashes and of the standard library, and the
-- constants of src/main.rs. `W` is the type of witnesses.
pub record Outside (W : Type 0) : Type 0 where
  pub read_instructions : List ℕ → Instructions
  pub tapscript : W → Option (List ℕ)
  pub is_op_return : List ℕ → Bool
  pub script_hash : List ℕ → FullHash
  pub from_utf8 : List ℕ → Option (List ℕ)
  pub jubilee_height : ℕ

module _ {W : Type 0} where
  unfoldable pub spent_outpoints : List (TxInput W) → List OutPoint
  spent_outpoints [] = []
  spent_outpoints (i ∷ is) = i.outpoint ∷ spent_outpoints is

module _ {S : Type 0} where
  unfoldable pub output_values : List (EvaluatedTxOut S) → List ℕ
  output_values [] = []
  output_values (o ∷ os) = o.out.value ∷ output_values os

pub record ParseInscription (W S : Type 0) : Type 0 where
  pub tx : Hashed (EvaluatedTx W S)
  pub input_index : ℕ
  pub inputs_cum : List ℕ
  pub partials : Partials
  pub prevouts : Map OutPoint TxPrevout

pub data ParsedInscriptionResult : Type 0 where
  nothing : ParsedInscriptionResult
  partials : ParsedInscriptionResult
  single : InscriptionTemplate → ParsedInscriptionResult
  many : List InscriptionTemplate → ParsedInscriptionResult

-- The place that the pointer names, if there is one, and otherwise that of the input.
unfoldable pub pointed : Option ℕ → ℕ × ℕ → List ℕ → ℕ × ℕ
pointed offset place values = elim (get_output_index_by_input offset values) [
  | none ↦ place
  | some other ↦ other
]

unfoldable pub with_template :
    Option InscriptionTemplate → List InscriptionTemplate → List InscriptionTemplate
with_template none templates = templates
with_template (some template) templates = template ∷ templates

unfoldable pub single_result : Option InscriptionTemplate → ParsedInscriptionResult
single_result none = ParsedInscriptionResult.nothing
single_result (some template) = ParsedInscriptionResult.single template

module _ {W : Type 0} (env : Env) (outside : Outside W) where
  open env use {op_return_hash}
  open outside use {is_op_return, script_hash, from_utf8}

  unfoldable pub owner_of : List ℕ → FullHash
  owner_of script_pubkey =
      if is_op_return script_pubkey then op_return_hash else script_hash script_pubkey

  unfoldable pub content_type_of : Inscription → Option (List ℕ)
  content_type_of inscription = do content_type ← inscription.content_type; from_utf8 content_type

module _ {W S : Type 0} (env : Env) (outside : Outside W) where
  open outside use {read_instructions}

  unfoldable pub template_at :
      ParseInscription W S → Inscription → ℕ × ℕ → EvaluatedTxOut S → InscriptionTemplate
  unfolding owner_of content_type_of
  template_at payload inscription place tx_out = record {
    content = inscription.body;
    content_type = content_type_of env outside inscription;
    genesis = record { txid = payload.partials.genesis_txid; index = 0 };
    location = record {
      offset = place.1;
      outpoint = record { txid = payload.tx.hash; vout = place.0 };
    };
    owner = owner_of env outside tx_out.out.script_pubkey;
    value = tx_out.out.value;
    leaked = false;
  }

  unfoldable pub convert_to_template :
      ParseInscription W S
      → Inscription
      → LeakedInscriptions
      → Option (LeakedInscriptions × Option InscriptionTemplate)
  unfolding template_at pointed spent_outpoints output_values
  convert_to_template payload inscription leaked =
      let values = output_values payload.tx.value.outputs in
      elim (get_output_index_by_input (get_elem? payload.inputs_cum payload.input_index) values) [
        | none ↦ do
          added ←
              add_leaked payload.input_index (spent_outpoints payload.tx.value.inputs) values 0
                payload.prevouts creation leaked
          some (added, none)
        | some place ↦ do
          let found = pointed (pointer inscription.pointer) place values
          tx_out ← get_elem? payload.tx.value.outputs found.0
          some (leaked, some (template_at payload inscription found tx_out))
      ]

  unfoldable pub convert_all :
      ParseInscription W S
      → List Inscription
      → LeakedInscriptions
      → Option (LeakedInscriptions × List InscriptionTemplate)
  unfolding with_template
  convert_all payload [] leaked = some (leaked, [])
  convert_all payload (i ∷ is) leaked = do
    converted ← convert_to_template payload i leaked
    rest ← convert_all payload is converted.0
    some (rest.0, with_template converted.1 rest.1)

  unfoldable pub of_parsed :
      ParseInscription W S
      → ParsedInscription
      → LeakedInscriptions
      → Option (LeakedInscriptions × ParsedInscriptionResult)
  unfolding single_result
  of_parsed payload ParsedInscription.nothing leaked =
      some (leaked, ParsedInscriptionResult.nothing)
  of_parsed payload ParsedInscription.partial leaked =
      some (leaked, ParsedInscriptionResult.partials)
  of_parsed payload (ParsedInscription.single inscription) leaked = do
    converted ← convert_to_template payload inscription leaked
    some (converted.0, single_result converted.1)
  of_parsed payload (ParsedInscription.many inscriptions) leaked = do
    converted ← convert_all payload inscriptions leaked
    some (converted.0, ParsedInscriptionResult.many converted.1)

  unfoldable pub parse_inscription :
      ParseInscription W S
      → LeakedInscriptions
      → Option (LeakedInscriptions × ParsedInscriptionResult)
  unfolding of_parsed
  parse_inscription payload leaked = do
    parsed ← from_parts read_instructions payload.partials.parts payload.input_index
    of_parsed payload parsed leaked
