-- ===== src/Db/TxPrevout.antt =====
-- `TxPrevout` of src/db/structs.rs, what is kept of an output.
use bel_20_indexer.Prelude.{
  ℕ, ◌^◌, ◌<◌, ◌≡◌, ◌++◌, arith, Option, some, List, ◌>>=◌, nat_eq, list_eq,
}
use bel_20_indexer.Bytes.{
  to_be, from_be, from_be-to_be, length-to_be, front, rest, array, front-append, rest-append,
  array-eq,
}
use bel_20_indexer.Tokens.Types.{FullHash}

pub record TxPrevout : Type 0 where
  pub script_hash : FullHash
  pub value : ℕ

unfoldable pub get_bytes : TxPrevout → List ℕ
unfolding to_be
get_bytes v = to_be 32 v.script_hash ++ to_be 8 v.value

-- `none` is an error or a panic of a slice.
unfoldable pub from_bytes : List ℕ → Option TxPrevout
unfolding front rest array from_be
from_bytes v = do
  a ← front 32 v
  script_hash ← array 32 a
  b ← rest 32 v
  value ← array 8 b
  some (record { script_hash = from_be script_hash; value = from_be value })

pub record FitsTxPrevout (v : TxPrevout) : Type 0 where
  pub script_hash_fits : v.script_hash < 256 ^ 32
  pub value_fits : v.value < 256 ^ 8

-- An output that is kept is read back from its bytes.
pub tx_prevout_round_trip : (v : TxPrevout) → FitsTxPrevout v → from_bytes (get_bytes v) ≡ some v
unfolding get_bytes from_bytes
tx_prevout_round_trip v h = ground (
  arith,
  front-append 32 (to_be 32 v.script_hash) (to_be 8 v.value) (length-to_be 32 v.script_hash),
  rest-append 32 (to_be 32 v.script_hash) (to_be 8 v.value) (length-to_be 32 v.script_hash),
  array-eq 32 (to_be 32 v.script_hash) (length-to_be 32 v.script_hash),
  array-eq 8 (to_be 8 v.value) (length-to_be 8 v.value),
  from_be-to_be 32 v.script_hash h.script_hash_fits,
  from_be-to_be 8 v.value h.value_fits,
)
