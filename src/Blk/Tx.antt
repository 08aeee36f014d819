-- ===== src/Blk/Tx.antt =====
-- Transactions of packages/new-blk-parser/src/blockchain/proto/tx.rs and their bytes, from which
-- their hashes are made.
use bel_20_indexer.Prelude.{
  ℕ, Bool, false, ◌&&◌, List, [], ◌∷◌, ◌++◌, ◌==◌, nat_eq, if◌then◌else◌, Option, none, some,
}
use bel_20_indexer.Bytes.{to_le, to_be}
use bel_20_indexer.Tokens.Types.{OutPoint}
use bel_20_indexer.Blk.VarUint.{VarUint, varuint_bytes}

-- `CoinType` of packages/new-blk-parser/src/blockchain/coins.rs
pub record CoinType : Type 0 where
  pub name : List ℕ
  pub pubkey_address : ℕ
  pub script_address : ℕ
  pub bech32 : List ℕ

-- `W` is the type of witnesses.
pub record TxInput (W : Type 0) : Type 0 where
  pub outpoint : OutPoint
  pub script_len : VarUint
  pub script_sig : List ℕ
  pub seq_no : ℕ
  pub witness : W

pub record TxOutput : Type 0 where
  pub value : ℕ
  pub script_len : VarUint
  pub script_pubkey : List ℕ

pub record RawTx (W : Type 0) : Type 0 where
  pub version : ℕ
  pub in_count : VarUint
  pub inputs : List (TxInput W)
  pub out_count : VarUint
  pub outputs : List TxOutput
  pub locktime : ℕ
  pub coin : CoinType

-- `S` is the type of evaluated scripts.
pub record EvaluatedTxOut (S : Type 0) : Type 0 where
  pub script : S
  pub out : TxOutput

pub record EvaluatedTx (W S : Type 0) : Type 0 where
  pub version : ℕ
  pub in_count : VarUint
  pub inputs : List (TxInput W)
  pub out_count : VarUint
  pub outputs : List (EvaluatedTxOut S)
  pub locktime : ℕ

-- `TxInput::to_bytes`, without the witness
unfoldable pub input_bytes : {W : Type 0} → TxInput W → List ℕ
input_bytes i =
    to_be 32 i.outpoint.txid
    ++ (to_le 4 i.outpoint.vout
        ++ (varuint_bytes i.script_len ++ (i.script_sig ++ to_le 4 i.seq_no)))

-- `TxOutput::to_bytes`
unfoldable pub output_bytes : TxOutput → List ℕ
output_bytes o = to_le 8 o.value ++ (varuint_bytes o.script_len ++ o.script_pubkey)

unfoldable pub inputs_bytes : {W : Type 0} → List (TxInput W) → List ℕ
inputs_bytes [] = []
inputs_bytes (i ∷ is) = input_bytes i ++ inputs_bytes is

unfoldable pub outputs_bytes : List TxOutput → List ℕ
outputs_bytes [] = []
outputs_bytes (o ∷ os) = output_bytes o ++ outputs_bytes os

module _ {S : Type 0} where
  abbrev pub outs : List (EvaluatedTxOut S) → List TxOutput
  outs [] = []
  outs (o ∷ os) = o.out ∷ outs os

-- `EvaluatedTx::to_bytes`
unfoldable pub tx_bytes : {W S : Type 0} → EvaluatedTx W S → List ℕ
tx_bytes tx =
    to_le 4 tx.version
    ++ (varuint_bytes tx.in_count
        ++ (inputs_bytes tx.inputs
            ++ (varuint_bytes tx.out_count
                ++ (outputs_bytes (outs tx.outputs) ++ to_le 4 tx.locktime))))

-- `EvaluatedTx::is_coinbase`: `unwrap` panics where there is no input.
unfoldable pub is_coinbase : {W S : Type 0} → EvaluatedTx W S → Option Bool
is_coinbase tx =
    if tx.in_count.value == 1
    then elim tx.inputs [
      | [] ↦ none
      | input ∷ _ ↦ some (input.outpoint.txid == 0 && input.outpoint.vout == 4294967295)
    ]
    else some false

-- `eval_from_bytes` of proto/script.rs evaluates a script; its result is `S` here.
module _ {S : Type 0} (eval_from_bytes : List ℕ → CoinType → S) where
  abbrev pub eval_script : TxOutput → CoinType → EvaluatedTxOut S
  eval_script out coin = record { script = eval_from_bytes out.script_pubkey coin; out = out }

  abbrev pub eval_scripts : List TxOutput → CoinType → List (EvaluatedTxOut S)
  eval_scripts [] coin = []
  eval_scripts (o ∷ os) coin = eval_script o coin ∷ eval_scripts os coin

  -- `EvaluatedTx::new` on the parts of a read transaction
  unfoldable pub evaluated : {W : Type 0} → RawTx W → EvaluatedTx W S
  evaluated tx = record {
    version = tx.version;
    in_count = tx.in_count;
    inputs = tx.inputs;
    out_count = tx.out_count;
    outputs = eval_scripts tx.outputs tx.coin;
    locktime = tx.locktime;
  }
