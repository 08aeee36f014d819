-- ===== src/Db/AddressToken.antt =====
-- `AddressToken` of src/db/structs.rs, the key of an account.
use bel_20_indexer.Prelude.{
  ℕ, ◌^◌, ◌<◌, ◌≡◌, ◌++◌, arith, Option, some, List, ◌>>=◌, nat_eq, list_eq,
}
use bel_20_indexer.Bytes.{
  to_be, from_be, from_be-to_be, length-to_be, front, rest, array, front-append, rest-append,
  array-eq,
}
use bel_20_indexer.Tokens.Types.{AddressToken}

unfoldable pub get_bytes : AddressToken → List ℕ
unfolding to_be
get_bytes v = to_be 32 v.address ++ to_be 4 v.token

-- `none` is an error or a panic of a slice.
unfoldable pub from_bytes : List ℕ → Option AddressToken
unfolding front rest array from_be
from_bytes v = do
  a ← front 32 v
  address ← array 32 a
  b ← rest 32 v
  token ← array 4 b
  some (record { address = from_be address; token = from_be token })

pub record FitsAddressToken (v : AddressToken) : Type 0 where
  pub address_fits : v.address < 256 ^ 32
  pub token_fits : v.token < 256 ^ 4

-- The key of an account is read back from its bytes.
pub address_token_round_trip :
    (v : AddressToken) → FitsAddressToken v → from_bytes (get_bytes v) ≡ some v
unfolding get_bytes from_bytes
address_token_round_trip v h = ground (
  arith,
  front-append 32 (to_be 32 v.address) (to_be 4 v.token) (length-to_be 32 v.address),
  rest-append 32 (to_be 32 v.address) (to_be 4 v.token) (length-to_be 32 v.address),
  array-eq 32 (to_be 32 v.address) (length-to_be 32 v.address),
  array-eq 4 (to_be 4 v.token) (length-to_be 4 v.token),
  from_be-to_be 32 v.address h.address_fits,
  from_be-to_be 4 v.token h.token_fits,
)
