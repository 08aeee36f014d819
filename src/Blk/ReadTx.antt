-- ===== src/Blk/ReadTx.antt =====
-- The reading of transactions, packages/new-blk-parser/src/blockchain/parser/reader.rs.
use bel_20_indexer.Prelude.{ℕ, zero, suc, ◌%◌, ◌^◌, List, [], ◌∷◌, ◌==◌, nat_eq, if◌then◌else◌}
use bel_20_indexer.Bytes.{from_be}
use bel_20_indexer.Tokens.Types.{OutPoint}
use bel_20_indexer.Blk.VarUint.{VarUint, read_from}
use bel_20_indexer.Blk.Tx.{CoinType, TxInput, TxOutput, RawTx}
use bel_20_indexer.Blk.Reader.{Reader, ◌>>=◌, pure, read_exact, Wire}

module _ (w : Wire) where
  open w use {
    Witness, default_witness, read_u8, read_u32, read_u64, consensus_decode, u8_reads, u32_reads,
    u64_reads,
  }

  -- `read_256hash`, as the number of its bytes
  unfoldable pub read_256hash : Reader ℕ
  read_256hash = do arr ← read_exact 32; pure (from_be arr)

  -- `read_u8_vec(count as u32)`
  unfoldable pub read_u8_vec : ℕ → Reader (List ℕ)
  read_u8_vec count = read_exact (count % 2 ^ 32)

  unfoldable pub read_tx_outpoint : Reader OutPoint
  read_tx_outpoint = do
    txid ← read_256hash
    index ← read_u32
    pure (record { txid = txid; vout = index })

  -- A turn of the loop of `read_tx_inputs`
  unfoldable pub read_tx_input : Reader (TxInput Witness)
  read_tx_input = do
    outpoint ← read_tx_outpoint
    script_len ← read_from w
    script_sig ← read_u8_vec script_len.value
    seq_no ← read_u32
    pure (record {
      outpoint = outpoint;
      script_len = script_len;
      script_sig = script_sig;
      seq_no = seq_no;
      witness = default_witness;
    })

  unfoldable pub read_tx_inputs : ℕ → Reader (List (TxInput Witness))
  read_tx_inputs zero = pure []
  read_tx_inputs (suc n) = do i ← read_tx_input; is ← read_tx_inputs n; pure (i ∷ is)

  unfoldable pub read_tx_output : Reader TxOutput
  read_tx_output = do
    value ← read_u64
    script_len ← read_from w
    script_pubkey ← read_u8_vec script_len.value
    pure (record { value = value; script_len = script_len; script_pubkey = script_pubkey })

  unfoldable pub read_tx_outputs : ℕ → Reader (List TxOutput)
  read_tx_outputs zero = pure []
  read_tx_outputs (suc n) = do o ← read_tx_output; os ← read_tx_outputs n; pure (o ∷ os)

  unfoldable pub read_witnesses : List (TxInput Witness) → Reader (List (TxInput Witness))
  read_witnesses [] = pure []
  read_witnesses (i ∷ is) = do
    witness ← consensus_decode
    is' ← read_witnesses is
    pure (record i { witness = witness } ∷ is')

  -- What `read_tx` does behind the number of inputs.
  unfoldable pub read_tx_behind : CoinType → ℕ → ℕ → VarUint → Reader (RawTx Witness)
  read_tx_behind coin version flags in_count = do
    inputs ← read_tx_inputs in_count.value
    out_count ← read_from w
    outputs ← read_tx_outputs out_count.value
    inputs' ← (if flags % 2 == 1 then read_witnesses inputs else pure inputs)
    locktime ← read_u32
    pure (record {
      version = version;
      in_count = in_count;
      inputs = inputs';
      out_count = out_count;
      outputs = outputs;
      locktime = locktime;
      coin = coin;
    })

  unfoldable pub read_tx_counted : CoinType → ℕ → VarUint → Reader (RawTx Witness)
  read_tx_counted coin version in_count =
      if in_count.value == 0
      then (do
        flags ← read_u8
        in_count' ← read_from w
        read_tx_behind coin version flags in_count')
      else read_tx_behind coin version 0 in_count

  unfoldable pub read_tx : CoinType → Reader (RawTx Witness)
  read_tx coin = do
    version ← read_u32
    in_count ← read_from w
    read_tx_counted coin version in_count
