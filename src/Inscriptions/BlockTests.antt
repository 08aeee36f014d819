-- ===== src/Inscriptions/BlockTests.antt =====
-- A block that is parsed: its coinbase transaction, and one that spends an output with an
-- inscription.
use bel_20_indexer.Prelude.{
  ℕ, none, some, [], ◌∷◌, refl, ◌==◌, nat_eq, if◌then◌else◌, Returns, false, List,
}
use bel_20_indexer.Tokens.Samples.{sample_env, sample_cache}
use bel_20_indexer.Tokens.Types.{OutPoint, outpoint_eq}
use bel_20_indexer.Tokens.Proto.{Blockchain, Result, Brc4ParseErr}
use bel_20_indexer.Blk.Tx.{EvaluatedTx, TxInput, EvaluatedTxOut, is_coinbase}
use bel_20_indexer.Blk.VarUint.{from_u8}
use bel_20_indexer.Blk.Block.{Hashed}
use bel_20_indexer.Map.{Map, lookup}
use bel_20_indexer.Db.TxPrevout.{TxPrevout}
use bel_20_indexer.Inscriptions.Template.{Outside}
use bel_20_indexer.Inscriptions.Moves.{Setting}
use bel_20_indexer.Inscriptions.Block.{parse_block}
use bel_20_indexer.Inscriptions.Fits.{FitsBlock, parse_block-FitsOrdinals}
use bel_20_indexer.Inscriptions.Prevouts.{block_spends, process_prevouts}
use bel_20_indexer.Inscriptions.PrevoutsKnown.{Outcome, process_prevouts-Outcome}
use bel_20_indexer.Inscriptions.Template.{spent_outpoints}
use bel_20_indexer.Storage.Table.{Table}
use bel_20_indexer.Reorg.Tables.{OrdinalTables}
use bel_20_indexer.Reorg.Write.{ProcessedData}
use bel_20_indexer.Reorg.UndoOrdinals.{FitsOrdinals}

abbrev sample_outside : Outside ℕ
sample_outside = record {
  read_instructions = λ bytes. [];
  tapscript = λ w. none;
  is_op_return = λ script. false;
  script_hash = λ script. 7;
  from_utf8 = λ bytes. some bytes;
  jubilee_height = 100;
}

abbrev sample_setting : Setting sample_env ℕ
sample_setting = record {
  outside = sample_outside;
  chain = Blockchain.bellscoin;
  decode = λ bytes. Result.err Brc4ParseErr.wrong_protocol;
  height = 200;
  created = 1;
}

abbrev sample_input : OutPoint → TxInput ℕ
sample_input outpoint = record {
  outpoint = outpoint;
  script_len = from_u8 0;
  script_sig = [];
  seq_no = 0;
  witness = 0;
}

abbrev sample_output : ℕ → EvaluatedTxOut ℕ
sample_output value = record {
  script = 0;
  out = record { value = value; script_len = from_u8 1; script_pubkey = 1 ∷ [] };
}

abbrev sample_tx : OutPoint → ℕ → EvaluatedTx ℕ ℕ
sample_tx spends pays = record {
  version = 1;
  in_count = record { value = 1; buf = 1 ∷ [] };
  inputs = sample_input spends ∷ [];
  out_count = from_u8 1;
  outputs = sample_output pays ∷ [];
  locktime = 0;
}

abbrev reward : Hashed (EvaluatedTx ℕ ℕ)
reward = record { hash = 9; value = sample_tx (record { txid = 0; vout = 4294967295 }) 55 }

abbrev payment : Hashed (EvaluatedTx ℕ ℕ)
payment = record { hash = 12; value = sample_tx (record { txid = 1; vout = 0 }) 25 }

abbrev spent : Map OutPoint TxPrevout
spent = (record { txid = 1; vout = 0 }, record { script_hash = 7; value = 30 }) ∷ []

-- The output that is spent has inscriptions at two offsets, the second of which goes to the fees.
abbrev tables : OrdinalTables
tables = record {
  prevouts = λ k. none;
  outpoint_to_partials = λ k. none;
  outpoint_to_inscription_offsets = λ k. if k.txid == 1 then some (8 ∷ (27 ∷ [])) else none;
}

sample-FitsBlock : FitsBlock sample_env sample_setting tables spent reward (payment ∷ [])
unfolding is_coinbase lookup
sample-FitsBlock = record {
  coinbase_first = refl;
  coinbase_new = λ vout. refl;
  others_new = ((refl, ((_, refl), tt), (λ vout. refl), (λ vout. refl)), tt);
}

parse_block-FitsOrdinals_example :
    Returns
      (parse_block sample_env sample_setting tables.outpoint_to_partials
        tables.outpoint_to_inscription_offsets spent
        (reward ∷ (payment ∷ []))
        sample_cache)
      (λ block.
        FitsOrdinals {F = ℕ}
          (ProcessedData.inscription_partials block.partials_to_remove block.partials_to_write)
          tables
        × FitsOrdinals {F = ℕ}
            (ProcessedData.inscription_offset block.offsets_to_remove block.offsets_to_write)
            tables)
parse_block-FitsOrdinals_example =
    parse_block-FitsOrdinals sample_env sample_setting tables spent reward (payment ∷ [])
      sample_cache sample-FitsBlock

-- The output that the payment spends is in the table.
abbrev stored : Table OutPoint TxPrevout
stored k = lookup k spent

abbrev no_items : List (ProcessedData ℕ)
no_items = []

process_prevouts-Outcome_example :
    Returns
      (process_prevouts (λ script. false) (λ script. 7) stored (reward ∷ (payment ∷ [])) no_items)
      (Outcome
        (λ script. false)
        (λ script. 7)
        stored
        (reward ∷ (payment ∷ []))
        (record { txid = 1; vout = 0 } ∷ []))
unfolding block_spends is_coinbase spent_outpoints
process_prevouts-Outcome_example =
    process_prevouts-Outcome (λ script. false) (λ script. 7) stored (reward ∷ (payment ∷ []))
      (record { txid = 1; vout = 0 } ∷ []) no_items refl
