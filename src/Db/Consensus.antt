-- ===== src/Db/Consensus.antt =====
-- The consensus encoding of the crate `bellscoin`, which src/db/structs.rs calls: an outpoint is the
-- 32 bytes of its transaction's hash and the four bytes of its index, the least significant first.
use bel_20_indexer.Prelude.{ℕ, ◌^◌, ◌<◌, ◌≡◌, ◌++◌, Option, some, List}
use bel_20_indexer.Bytes.{to_be, to_le}
use bel_20_indexer.Tokens.Types.{OutPoint, Txid}

pub record FitsOutPoint (o : OutPoint) : Type 0 where
  pub txid_fits : o.txid < 256 ^ 32
  pub vout_fits : o.vout < 256 ^ 4

pub record Consensus : Type 0 where
  pub serialize_outpoint : OutPoint → List ℕ
  pub deserialize_outpoint : List ℕ → Option OutPoint
  pub serialize_txid : Txid → List ℕ
  pub deserialize_txid : List ℕ → Option Txid
  pub outpoint_bytes : (o : OutPoint) → serialize_outpoint o ≡ to_be 32 o.txid ++ to_le 4 o.vout
  pub outpoint_back :
      (o : OutPoint) → FitsOutPoint o → deserialize_outpoint (serialize_outpoint o) ≡ some o
  pub txid_bytes : (t : Txid) → serialize_txid t ≡ to_be 32 t
  pub txid_back : (t : Txid) → t < 256 ^ 32 → deserialize_txid (serialize_txid t) ≡ some t
