-- ===== src/Indexer/Block.antt =====
-- `InscriptionIndexer::handle_block` of src/inscriptions/indexer.rs. `none` is a panic.
use bel_20_indexer.Prelude.{
  ℕ, ◌-◌, Option, none, some, List, [], ◌∷◌, ◌++◌, Bool, ◌>>=◌, ◌==◌, nat_eq, list_eq, ltb, length,
  if◌then◌else◌,
}
use bel_20_indexer.Map.{Map, contains}
use bel_20_indexer.Env.{Env}
use bel_20_indexer.Storage.Table.{Table, multi_get_kv}
use bel_20_indexer.Tokens.Types.{
  FullHash, LowerCaseTokenTick, Location, TokenMeta, TransferProtoDb, OutPoint,
}
use bel_20_indexer.Tokens.Proto.{Blockchain, Brc4, Result}
use bel_20_indexer.Tokens.Holders.{Holders}
use bel_20_indexer.Tokens.Process.{process_token_actions}
use bel_20_indexer.Tokens.Load.{load_tokens_data}
use bel_20_indexer.Db.TokenMeta.{TokenMetaDb, from_token_meta, to_token_meta}
use bel_20_indexer.Db.AddressLocation.{AddressLocation, RangeInclusive}
use bel_20_indexer.Db.AddressTokenId.{AddressTokenIdDb}
use bel_20_indexer.Db.TxPrevout.{TxPrevout}
use bel_20_indexer.Tokens.Types.{OutPoint, outpoint_eq}
use bel_20_indexer.Db.History.{HistoryValue}
use bel_20_indexer.Blk.Tx.{EvaluatedTx, EvaluatedTxOut}
use bel_20_indexer.Blk.Block.{Block, Hashed}
use bel_20_indexer.Inscriptions.Template.{Outside}
use bel_20_indexer.Inscriptions.Moves.{Setting}
use bel_20_indexer.Inscriptions.Block.{parse_block}
use bel_20_indexer.Inscriptions.Prevouts.{collect, Resolved, process_prevouts}
use bel_20_indexer.Reorg.Tables.{Db}
use bel_20_indexer.Reorg.Write.{ProcessedData, or_zero}
use bel_20_indexer.Server.Rest.{RestHistory}
use bel_20_indexer.Server.Events.{AddressTokenIdEvent, HistoryValueEvent, AddressesFullHash}
use bel_20_indexer.Server.Proof.{generate_history_hash, default_hash}
use bel_20_indexer.Indexer.Load.{load}
use bel_20_indexer.Indexer.Rows.{history_rows}

pub data ServerEvent (F : Type 0) : Type 0 where
  new_history : AddressTokenIdEvent → HistoryValueEvent F → ServerEvent F
  reorg : (blocks_count new_height : ℕ) → ServerEvent F
  new_block : (height proof blockhash : ℕ) → ServerEvent F

pub record DataToWrite (F : Type 0) : Type 0 where
  pub processed : List (ProcessedData F)
  pub block_events : List (ServerEvent F)
  pub history : List (AddressTokenIdDb × HistoryValue F)

-- What `anyhow::Result` holds, with the registry of holders that is shared.
pub data Handled (F : Type 0) : Type 0 where
  failed : Holders F → Handled F
  done : DataToWrite F → Holders F → Handled F

-- What is outside: the parts of crates, the chain, and the first height at which tokens are read.
pub record Indexing (env : Env) (W S : Type 0) : Type 0 where
  pub outside : Outside W
  pub is_provably_unspendable : List ℕ → Bool
  pub address : S → Option (List ℕ)
  pub sha256 : List ℕ → ℕ
  pub to_vec : RestHistory env.Fixed128 → Option (List ℕ)
  pub chain : Blockchain
  pub decode : List ℕ → Result (Brc4 env.Fixed128)
  pub start_height : ℕ

abbrev stored_location : {F : Type 0} → Location × (FullHash × TransferProtoDb F) → AddressLocation
stored_location p = record { address = p.1.0; location = p.0 }

unfoldable pub transfer_keys :
    {F : Type 0} → Map Location (FullHash × TransferProtoDb F) → List AddressLocation
transfer_keys [] = []
transfer_keys (p ∷ ps) = stored_location p ∷ transfer_keys ps

unfoldable pub transfer_rows :
    {F : Type 0}
    → Map Location (FullHash × TransferProtoDb F)
    → List (AddressLocation × TransferProtoDb F)
transfer_rows [] = []
transfer_rows (p ∷ ps) = (stored_location p, p.1.1) ∷ transfer_rows ps

unfoldable pub meta_rows :
    {F : Type 0} → Map LowerCaseTokenTick (TokenMeta F) → List (LowerCaseTokenTick × TokenMetaDb F)
unfolding from_token_meta
meta_rows [] = []
meta_rows (p ∷ ps) = (p.0, from_token_meta p.1) ∷ meta_rows ps

-- `TokenMeta::from` on what the table has
unfoldable pub meta_at :
    {F : Type 0}
    → Table LowerCaseTokenTick (TokenMetaDb F)
    → LowerCaseTokenTick
    → Option (TokenMeta F)
unfolding to_token_meta
meta_at table k = do meta ← table k; some (to_token_meta meta)

unfoldable pub others_of : AddressesFullHash → List FullHash → List FullHash
others_of known [] = []
others_of known (x ∷ xs) =
    let rest = others_of known xs in if contains x known then rest else x ∷ rest

module _ {W S : Type 0} (env : Env) (indexing : Indexing env W S) where
  open env use {Fixed128}
  open indexing use {outside, is_provably_unspendable, address, sha256, to_vec, start_height}
  open outside use {script_hash}

  unfoldable pub output_addresses : List (EvaluatedTxOut S) → List (FullHash × List ℕ)
  output_addresses [] = []
  output_addresses (o ∷ os) =
      let rest = output_addresses os in
      elim (address o.script) [ none ↦ rest | some a ↦ (script_hash o.out.script_pubkey, a) ∷ rest ]

  unfoldable pub block_addresses : List (Hashed (EvaluatedTx W S)) → List (FullHash × List ℕ)
  unfolding output_addresses
  block_addresses [] = []
  block_addresses (tx ∷ txs) = output_addresses tx.value.outputs ++ block_addresses txs

  -- The setting that a block is parsed in.
  abbrev setting_of : ℕ → Block W S → Setting env W
  setting_of block_height block = record {
    outside = outside;
    chain = indexing.chain;
    decode = indexing.decode;
    height = block_height;
    created = block.header.value.timestamp;
  }

  unfoldable pub proof_before : Db Fixed128 → ℕ → ℕ
  proof_before db block_height = elim (db.proof_of_history (block_height - 1)) [
    | none ↦ default_hash env sha256 to_vec
    | some proof ↦ proof
  ]

  -- The end of the function: the proof, the data of the block and its event.
  unfoldable pub with_proof :
      ℕ
      → Block W S
      → Option ℕ
      → List (ProcessedData Fixed128)
      → List (AddressTokenIdDb × HistoryValue Fixed128)
      → Holders Fixed128
      → Handled Fixed128
  with_proof block_height block none processed history holders = Handled.failed holders
  with_proof block_height block (some proof) processed history holders =
      Handled.done
        (record {
          processed =
              processed
              ++ (ProcessedData.info block_height
                    (record { hash = block.header.hash; created = block.header.value.timestamp })
                    proof
                  ∷ []);
          block_events = ServerEvent.new_block block_height proof block.header.hash ∷ [];
          history = history;
        })
        holders

  -- The part behind the checks, for a block with more than its coinbase transaction.
  unfoldable pub handle_tokens :
      (RangeInclusive → List (AddressLocation × TransferProtoDb Fixed128))
      → Db Fixed128
      → Holders Fixed128
      → ℕ
      → Block W S
      → Map OutPoint TxPrevout
      → ℕ
      → List (ProcessedData Fixed128)
      → Option (Handled Fixed128)
  unfolding with_proof block_addresses transfer_keys transfer_rows meta_rows meta_at others_of
  handle_tokens range db holders block_height block prevouts prev_block_proof processed =
      let tables = db.ordinal_tables in
      let token_cache = load range prevouts in
      do
        parsed ←
            parse_block env (setting_of block_height block) tables.outpoint_to_partials
              tables.outpoint_to_inscription_offsets prevouts block.txs token_cache
        state ←
            process_token_actions env
              (load_tokens_data env (meta_at db.token_tables.token_to_meta)
                db.token_tables.address_token_to_balance parsed.token_cache)
              holders
        made ← history_rows block_height (or_zero db.token_tables.last_history_id) state.history
        let known = collect (block_addresses block.txs) []
        let rest_addresses =
            collect
              (multi_get_kv db.fullhash_to_address (others_of known made.fullhash_to_load) ++ known)
              []
        some (
            with_proof block_height block
              (generate_history_hash env sha256 to_vec prev_block_proof made.rows rest_addresses)
              (processed
                ++ (ProcessedData.inscription_partials parsed.partials_to_remove
                      parsed.partials_to_write
                    ∷ (ProcessedData.inscription_offset parsed.offsets_to_remove
                          parsed.offsets_to_write
                        ∷ (ProcessedData.history block_height made.last_history_id made.rows
                            ∷ (ProcessedData.tokens (meta_rows state.tokens) state.token_accounts
                                  (transfer_rows state.valid_transfers)
                                  (transfer_keys token_cache.valid_transfers)
                                ∷ [])))))
              made.rows state.holders)

  -- `checked_sub(1).unwrap_or_default()` is the difference of natural numbers.
  unfoldable pub handle_block :
      (RangeInclusive → List (AddressLocation × TransferProtoDb Fixed128))
      → Db Fixed128
      → Holders Fixed128
      → ℕ
      → Block W S
      → Option (Handled Fixed128)
  unfolding handle_tokens
  handle_block range db holders block_height block = do
    resolved ←
        process_prevouts is_provably_unspendable script_hash {F = Fixed128}
          db.ordinal_tables.prevouts block.txs []
    elim resolved [
      | Resolved.missing k ↦ some (Handled.failed holders)
      | Resolved.found found ↦
          let prev_block_proof = proof_before db block_height in
          let processed =
            found.1 ++ (ProcessedData.full_hash (collect (block_addresses block.txs) []) ∷ []) in
          if ltb block_height start_height
          then some (
              Handled.done (record { processed = processed; block_events = []; history = [] })
                holders)
          else (if length block.txs == 1
              then some (
                  with_proof block_height block
                    (generate_history_hash env sha256 to_vec prev_block_proof [] []) processed []
                    holders)
              else handle_tokens range db holders block_height block found.0 prev_block_proof
                  processed)
    ]
