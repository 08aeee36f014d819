-- ===== src/Inscriptions/Prevouts.antt =====
-- The outputs that a block spends, `process_prevouts` of src/inscriptions/utils.rs. A panic is
-- `none`.
use bel_20_indexer.Prelude.{
  ℕ, ◌+◌, ◌%◌, ◌^◌, Option, none, some, List, [], ◌∷◌, ◌++◌, Bool, nat_eq, ◌>>=◌, if◌then◌else◌, Eq,
}
use bel_20_indexer.Map.{Map, lookup, insert}
use bel_20_indexer.Storage.Table.{Table, has}
use bel_20_indexer.Tokens.Types.{OutPoint, outpoint_eq, Txid}
use bel_20_indexer.Db.TxPrevout.{TxPrevout}
use bel_20_indexer.Blk.Tx.{EvaluatedTx, EvaluatedTxOut, is_coinbase}
use bel_20_indexer.Blk.Block.{Hashed}
use bel_20_indexer.Inscriptions.Template.{spent_outpoints}
use bel_20_indexer.Reorg.Write.{ProcessedData}

-- `collect` into a `HashMap`
unfoldable pub collect : {K V : Type 0} → ⦃e : Eq K⦄ → List (K × V) → Map K V → Map K V
collect [] m = m
collect (p ∷ ps) m = collect ps (insert p.0 p.1 m)

-- `unique`, behind the keys that were seen
unfoldable pub unique : {K : Type 0} → ⦃e : Eq K⦄ → List K → List K → List K
unique seen [] = []
unique seen (k ∷ ks) =
    let rest = unique (k ∷ seen) ks in
    let others = unique seen ks in if has k seen then others else k ∷ rest

-- What `anyhow::Result` holds: the error names a key.
pub data Resolved (A : Type 0) : Type 0 where
  missing : OutPoint → Resolved A
  found : A → Resolved A

module _ {W S : Type 0} where
  unfoldable pub block_spends : List (Hashed (EvaluatedTx W S)) → Option (List OutPoint)
  block_spends [] = some []
  block_spends (tx ∷ txs) = do
    coinbase ← is_coinbase tx.value
    rest ← block_spends txs
    some (if coinbase then rest else spent_outpoints tx.value.inputs ++ rest)

-- A row of the table, and what the block makes where there is none.
abbrev pub source : Table OutPoint TxPrevout → Map OutPoint TxPrevout → OutPoint → Option TxPrevout
source table outputs k = elim (table k) [ some v ↦ some v | none ↦ lookup k outputs ]

unfoldable pub resolve :
    Table OutPoint TxPrevout
    → Map OutPoint TxPrevout
    → List OutPoint
    → Map OutPoint TxPrevout
    → Resolved (Map OutPoint TxPrevout)
resolve table outputs [] result = Resolved.found result
resolve table outputs (k ∷ ks) result = elim (source table outputs k) [
  | none ↦ Resolved.missing k
  | some v ↦ resolve table outputs ks (insert k v result)
]

-- The script's tests and hash are of the crates bellscoin and bitcoin_hashes.
module _ {S : Type 0} (is_provably_unspendable : List ℕ → Bool) (script_hash : List ℕ → ℕ) where
  unfoldable pub made_outputs : Txid → ℕ → List (EvaluatedTxOut S) → List (OutPoint × TxPrevout)
  made_outputs txid vout [] = []
  made_outputs txid vout (o ∷ os) =
      let rest = made_outputs txid (vout + 1) os in
      if is_provably_unspendable o.out.script_pubkey
      then rest
      else (
        record { txid = txid; vout = vout % 2 ^ 32 },
        record { script_hash = script_hash o.out.script_pubkey; value = o.out.value },
      )
        ∷ rest

  unfoldable pub block_outputs :
      {W : Type 0} → List (Hashed (EvaluatedTx W S)) → List (OutPoint × TxPrevout)
  unfolding made_outputs
  block_outputs [] = []
  block_outputs (tx ∷ txs) = made_outputs tx.hash 0 tx.value.outputs ++ block_outputs txs

  -- The entries that are pushed are behind those that are there before.
  unfoldable pub process_prevouts :
      {W F : Type 0}
      → Table OutPoint TxPrevout
      → List (Hashed (EvaluatedTx W S))
      → List (ProcessedData F)
      → Option (Resolved (Map OutPoint TxPrevout × List (ProcessedData F)))
  process_prevouts table txs data_to_write = do
    spends ← block_spends txs
    let outputs = collect (block_outputs txs) []
    let keys = unique [] spends
    some (elim (resolve table outputs keys []) [
      | Resolved.missing k ↦ Resolved.missing k
      | Resolved.found result ↦
          Resolved.found (result, data_to_write ++ (ProcessedData.prevouts outputs keys ∷ []))
    ])
