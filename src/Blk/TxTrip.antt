-- ===== src/Blk/TxTrip.antt =====
-- The reader of transactions of packages/new-blk-parser reads what their `to_bytes` writes.
use bel_20_indexer.Prelude.{
  ℕ, ◌%◌, ◌^◌, ◌<◌, ◌≡◌, ◌≢◌, refl, arith, false, List, [], ◌∷◌, ◌++◌, ◌==◌, nat_eq, length, All,
  ap, sym, subst, append_assoc,
}
use bel_20_indexer.Bytes.{to_le, to_be, from_be, from_be-to_be, length-to_be}
use bel_20_indexer.Tokens.Types.{OutPoint}
use bel_20_indexer.Blk.VarUint.{VarUint, varuint_bytes, IsVarUint, varuint_round_trip}
use bel_20_indexer.Blk.Tx.{
  CoinType, TxInput, TxOutput, RawTx, input_bytes, output_bytes, inputs_bytes, outputs_bytes,
  tx_bytes, evaluated, outs, eval_scripts,
}
use bel_20_indexer.Blk.Reader.{
  read_exact, read_exact-Reads, Reads, bind-Reads, map-Reads, pure-Reads, Wire,
}
use bel_20_indexer.Blk.ReadTx.{
  read_256hash, read_u8_vec, read_tx_outpoint, read_tx_input, read_tx_inputs, read_tx_output,
  read_tx_outputs, read_tx_behind, read_tx_counted, read_tx,
}

module _ (w : Wire) where
  open w use {
    Witness, default_witness, encode_witness, read_u8, read_u32, read_u64, u8_reads, u32_reads,
    u64_reads, witness_reads,
  }

  -- A length field that is the length of its script.
  pub record FitsScript (n : VarUint) (script : List ℕ) : Type 0 where
    pub canonical : IsVarUint n
    pub counts : n.value ≡ length script
    pub short : length script < 2 ^ 32

  pub record FitsInput (i : TxInput Witness) : Type 0 where
    pub script_fits : FitsScript i.script_len i.script_sig
    pub txid_fits : i.outpoint.txid < 256 ^ 32
    pub vout_fits : i.outpoint.vout < 256 ^ 4
    pub seq_fits : i.seq_no < 256 ^ 4
    pub witness_fits : i.witness ≡ default_witness

  pub record FitsOutput (o : TxOutput) : Type 0 where
    pub script_fits : FitsScript o.script_len o.script_pubkey
    pub value_fits : o.value < 256 ^ 8

  pub hash_round_trip : (n : ℕ) → n < 256 ^ 32 → Reads (read_256hash w) n (to_be 32 n)
  unfolding read_256hash
  hash_round_trip n h =
      subst (λ (m : ℕ). Reads (read_256hash w) m (to_be 32 n)) (from_be-to_be 32 n h)
        (map-Reads (read_exact 32) from_be (to_be 32 n) (to_be 32 n)
          (read_exact-Reads 32 (to_be 32 n) (length-to_be 32 n)))

  script_round_trip :
      (n : VarUint) (script : List ℕ)
      → FitsScript n script
      → Reads (read_u8_vec w n.value) script script
  unfolding read_u8_vec
  script_round_trip n script h =
      read_exact-Reads (n.value % 2 ^ 32) script (omega (arith, h.counts, h.short))

  outpoint_round_trip :
      (o : OutPoint)
      → o.txid < 256 ^ 32
      → o.vout < 256 ^ 4
      → Reads (read_tx_outpoint w) o (to_be 32 o.txid ++ to_le 4 o.vout)
  unfolding read_tx_outpoint
  outpoint_round_trip o ht hv =
      bind-Reads _ _ _ _ _ _ (hash_round_trip o.txid ht) (map-Reads _ _ _ _ (u32_reads o.vout hv))

  output_round_trip : (o : TxOutput) → FitsOutput o → Reads (read_tx_output w) o (output_bytes o)
  unfolding read_tx_output output_bytes
  output_round_trip o h = bind-Reads _ _ _ _ _ _ (u64_reads o.value h.value_fits) (
      bind-Reads _ _ _ _ _ _ (varuint_round_trip w o.script_len h.script_fits.canonical)
        (map-Reads _ _ _ _ (script_round_trip o.script_len o.script_pubkey h.script_fits)))

  -- An input, whose witness is not among its bytes.
  input_round_trip : (i : TxInput Witness) → FitsInput i → Reads (read_tx_input w) i (input_bytes i)
  unfolding read_tx_input input_bytes
  input_round_trip i h =
      subst (λ (x : Witness). Reads (read_tx_input w) (record i { witness = x }) (input_bytes i))
        (sym h.witness_fits)
        (subst (Reads (read_tx_input w) (record i { witness = default_witness }))
          (append_assoc (to_be 32 i.outpoint.txid) (to_le 4 i.outpoint.vout)
            (varuint_bytes i.script_len ++ (i.script_sig ++ to_le 4 i.seq_no)))
          (bind-Reads _ _ _ _ _ _ (outpoint_round_trip i.outpoint h.txid_fits h.vout_fits) (
            bind-Reads _ _ _ _ _ _ (varuint_round_trip w i.script_len h.script_fits.canonical) (
              bind-Reads _ _ _ _ _ _ (script_round_trip i.script_len i.script_sig h.script_fits)
                (map-Reads _ _ _ _ (u32_reads i.seq_no h.seq_fits))))))

  inputs_round_trip :
      (is : List (TxInput Witness))
      → All FitsInput is
      → Reads (read_tx_inputs w (length is)) is (inputs_bytes is)
  unfolding read_tx_inputs inputs_bytes
  inputs_round_trip [] h = pure-Reads []
  inputs_round_trip (i ∷ is) h =
      bind-Reads _ _ _ _ _ _ (input_round_trip i h.0) (map-Reads _ _ _ _ (inputs_round_trip is h.1))

  outputs_round_trip :
      (os : List TxOutput)
      → All FitsOutput os
      → Reads (read_tx_outputs w (length os)) os (outputs_bytes os)
  unfolding read_tx_outputs outputs_bytes
  outputs_round_trip [] h = pure-Reads []
  outputs_round_trip (o ∷ os) h =
      bind-Reads _ _ _ _ _ _ (output_round_trip o h.0)
        (map-Reads _ _ _ _ (outputs_round_trip os h.1))

  inputs_counted :
      (n : ℕ) (is : List (TxInput Witness))
      → n ≡ length is
      → All FitsInput is
      → Reads (read_tx_inputs w n) is (inputs_bytes is)
  inputs_counted n is e h = rw e (inputs_round_trip is h)

  outputs_counted :
      (n : ℕ) (os : List TxOutput)
      → n ≡ length os
      → All FitsOutput os
      → Reads (read_tx_outputs w n) os (outputs_bytes os)
  outputs_counted n os e h = rw e (outputs_round_trip os h)

  -- A transaction with inputs, whose counts are those of its lists.
  pub record FitsTx (tx : RawTx Witness) : Type 0 where
    pub version_fits : tx.version < 256 ^ 4
    pub in_canonical : IsVarUint tx.in_count
    pub in_counts : tx.in_count.value ≡ length tx.inputs
    pub in_some : tx.in_count.value ≢ 0
    pub inputs_fit : All FitsInput tx.inputs
    pub out_canonical : IsVarUint tx.out_count
    pub out_counts : tx.out_count.value ≡ length tx.outputs
    pub outputs_fit : All FitsOutput tx.outputs
    pub locktime_fits : tx.locktime < 256 ^ 4

  abbrev pub plain_bytes : RawTx Witness → List ℕ
  plain_bytes tx =
      inputs_bytes tx.inputs
      ++ (varuint_bytes tx.out_count ++ (outputs_bytes tx.outputs ++ to_le 4 tx.locktime))

  behind_round_trip :
      (tx : RawTx Witness)
      → FitsTx tx
      → Reads (read_tx_behind w tx.coin tx.version 0 tx.in_count) tx (plain_bytes tx)
  unfolding read_tx_behind
  behind_round_trip tx h =
      bind-Reads _ _ _ _ _ _ (inputs_counted tx.in_count.value tx.inputs h.in_counts h.inputs_fit) (
        bind-Reads _ _ _ _ _ _ (varuint_round_trip w tx.out_count h.out_canonical) (
          bind-Reads _ _ _ _ _ _
            (outputs_counted tx.out_count.value tx.outputs h.out_counts h.outputs_fit)
            (map-Reads read_u32 (λ (x : ℕ). record tx { locktime = x }) tx.locktime
              (to_le 4 tx.locktime) (u32_reads tx.locktime h.locktime_fits))))

  counted_round_trip :
      (tx : RawTx Witness)
      → FitsTx tx
      → Reads (read_tx_counted w tx.coin tx.version tx.in_count) tx (plain_bytes tx)
  unfolding read_tx_counted
  counted_round_trip tx h = rw (some_inputs) (behind_round_trip tx h)
    where
      some_inputs : (tx.in_count.value == 0) ≡ false
      some_inputs = ground (arith, h.in_some)

  outs-eval_scripts :
      {S : Type 0} (eval : List ℕ → CoinType → S) (os : List TxOutput) (coin : CoinType)
      → outs (eval_scripts eval os coin) ≡ os
  outs-eval_scripts eval [] coin = refl
  outs-eval_scripts eval (o ∷ os) coin =
      ap (λ (l : List TxOutput). o ∷ l) (outs-eval_scripts eval os coin)

  -- A transaction without witnesses is read back, whatever follows it, from the bytes that its hash
  -- is made of, if it has an input, its counts and lengths are those of its lists and scripts in the
  -- widths that the conversions give, and its numbers fit their fields.
  pub tx_round_trip :
      {S : Type 0} (eval : List ℕ → CoinType → S) (tx : RawTx Witness)
      → FitsTx tx
      → Reads (read_tx w tx.coin) tx (tx_bytes (evaluated eval tx))
  unfolding read_tx tx_bytes evaluated
  tx_round_trip eval tx h = rw outs-eval_scripts (
      bind-Reads _ _ _ _ _ _ (u32_reads tx.version h.version_fits) (
        bind-Reads _ _ _ _ _ _ (varuint_round_trip w tx.in_count h.in_canonical)
          (counted_round_trip tx h)))
