-- ===== src/Db/TokenId.antt =====
-- `TokenId` of src/db/structs.rs, the key of a token's history.
use bel_20_indexer.Prelude.{
  ℕ, ◌^◌, ◌<◌, ◌≡◌, ◌++◌, arith, Option, some, List, ◌>>=◌, ◌&&◌, ◌||◌, ◌==◌, nat_eq, ltb, ◌∙◌, sym,
  list_eq, Eq, ◌↔◌, true,
}
use bel_20_indexer.Bytes.{
  to_be, from_be, from_be-to_be, length-to_be, front, rest, array, front-append, rest-append,
  array-eq, bytes_lt, bytes_lt-append, bytes_lt-to_be, eq-to_be,
}
use bel_20_indexer.Tokens.Types.{OriginalTokenTick}

pub record TokenId : Type 0 where
  pub token : OriginalTokenTick
  pub id : ℕ

pub token_id_beq_iff : (a b : TokenId) → ((a.token == b.token && a.id == b.id) ≡ true) ↔ (a ≡ b)
token_id_beq_iff a b = ground arith

instance abbrev pub token_id_eq : Eq TokenId
token_id_eq = record {
  same = λ a b. a.token == b.token && a.id == b.id;
  beq_iff = token_id_beq_iff;
}

unfoldable pub get_bytes : TokenId → List ℕ
unfolding to_be
get_bytes v = to_be 4 v.token ++ to_be 8 v.id

-- `none` is an error or a panic of a slice.
unfoldable pub from_bytes : List ℕ → Option TokenId
unfolding front rest array from_be
from_bytes v = do
  a ← front 4 v
  token ← array 4 a
  b ← rest 4 v
  id ← array 8 b
  some (record { token = from_be token; id = from_be id })

pub record FitsTokenId (v : TokenId) : Type 0 where
  pub token_fits : v.token < 256 ^ 4
  pub id_fits : v.id < 256 ^ 8

-- The key of a token and a 64-bit number is read back from its bytes.
pub token_id_round_trip : (v : TokenId) → FitsTokenId v → from_bytes (get_bytes v) ≡ some v
unfolding get_bytes from_bytes
token_id_round_trip v h = ground (
  arith,
  front-append 4 (to_be 4 v.token) (to_be 8 v.id) (length-to_be 4 v.token),
  rest-append 4 (to_be 4 v.token) (to_be 8 v.id) (length-to_be 4 v.token),
  array-eq 4 (to_be 4 v.token) (length-to_be 4 v.token),
  array-eq 8 (to_be 8 v.id) (length-to_be 8 v.id),
  from_be-to_be 4 v.token h.token_fits,
  from_be-to_be 8 v.id h.id_fits,
)

-- The bytes of these keys are ordered as the keys: by token, then by number.
pub token_id_order :
    (v w : TokenId)
    → FitsTokenId v
    → FitsTokenId w
    → bytes_lt (get_bytes v) (get_bytes w)
      ≡ (ltb v.token w.token || v.token == w.token && ltb v.id w.id)
unfolding get_bytes
token_id_order v w hv hw = ground (
  arith,
  bytes_lt-append (to_be 4 v.token) (to_be 4 w.token) (to_be 8 v.id) (to_be 8 w.id)
      (length-to_be 4 v.token ∙ sym (length-to_be 4 w.token)),
  bytes_lt-to_be 4 v.token w.token hv.token_fits hw.token_fits,
  eq-to_be 4 v.token w.token hv.token_fits hw.token_fits,
  bytes_lt-to_be 8 v.id w.id hv.id_fits hw.id_fits,
)
