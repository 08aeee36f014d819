-- ===== src/Db/BlockInfo.antt =====
-- `BlockInfo` of src/db/structs.rs, what is kept of a block.
use bel_20_indexer.Prelude.{
  ℕ, ◌^◌, ◌<◌, ◌≡◌, ◌++◌, arith, Option, some, List, ◌>>=◌, nat_eq, list_eq,
}
use bel_20_indexer.Bytes.{
  to_be, from_be, from_be-to_be, length-to_be, front, rest, array, front-append, rest-append,
  array-eq,
}

pub record BlockInfo : Type 0 where
  pub hash : ℕ
  pub created : ℕ

unfoldable pub get_bytes : BlockInfo → List ℕ
unfolding to_be
get_bytes v = to_be 32 v.hash ++ to_be 4 v.created

-- `none` is an error or a panic of a slice.
unfoldable pub from_bytes : List ℕ → Option BlockInfo
unfolding front rest array from_be
from_bytes v = do
  a ← front 32 v
  hash ← array 32 a
  b ← rest 32 v
  created ← array 4 b
  some (record { hash = from_be hash; created = from_be created })

pub record FitsBlockInfo (v : BlockInfo) : Type 0 where
  pub hash_fits : v.hash < 256 ^ 32
  pub created_fits : v.created < 256 ^ 4

-- What is kept of a block is read back from its bytes.
pub block_info_round_trip : (v : BlockInfo) → FitsBlockInfo v → from_bytes (get_bytes v) ≡ some v
unfolding get_bytes from_bytes
block_info_round_trip v h = ground (
  arith,
  front-append 32 (to_be 32 v.hash) (to_be 4 v.created) (length-to_be 32 v.hash),
  rest-append 32 (to_be 32 v.hash) (to_be 4 v.created) (length-to_be 32 v.hash),
  array-eq 32 (to_be 32 v.hash) (length-to_be 32 v.hash),
  array-eq 4 (to_be 4 v.created) (length-to_be 4 v.created),
  from_be-to_be 32 v.hash h.hash_fits,
  from_be-to_be 4 v.created h.created_fits,
)
