-- ===== src/Db/AddressTokenId.antt =====
-- `AddressTokenIdDb` of src/db/structs.rs, the key of an account's history.
use bel_20_indexer.Prelude.{
  ℕ, ◌-◌, ◌^◌, ◌<◌, ◌≡◌, ◌++◌, arith, Option, some, List, length, ◌>>=◌, ◌&&◌, ◌||◌, ◌==◌, nat_eq,
  ltb, length-append, ◌∙◌, sym, list_eq, append_assoc, subst, Eq, ◌↔◌, true,
}
use bel_20_indexer.Bytes.{
  to_be, from_be, from_be-to_be, length-to_be, front, rest, array, middle, front-append,
  rest-append, array-eq, middle-append, bytes_lt, bytes_lt-append, bytes_lt-to_be, eq-to_be,
}
use bel_20_indexer.Tokens.Types.{FullHash, OriginalTokenTick}

pub record AddressTokenIdDb : Type 0 where
  pub address : FullHash
  pub token : OriginalTokenTick
  pub id : ℕ

pub address_token_id_beq_iff :
    (a b : AddressTokenIdDb)
    → ((a.address == b.address && a.token == b.token && a.id == b.id) ≡ true) ↔ (a ≡ b)
address_token_id_beq_iff a b = ground arith

instance abbrev pub address_token_id_eq : Eq AddressTokenIdDb
address_token_id_eq = record {
  same = λ a b. a.address == b.address && a.token == b.token && a.id == b.id;
  beq_iff = address_token_id_beq_iff;
}

unfoldable pub get_bytes : AddressTokenIdDb → List ℕ
unfolding to_be
get_bytes v = to_be 32 v.address ++ (to_be 4 v.token ++ to_be 8 v.id)

-- `none` is an error or a panic of a slice; where `v.len() - 8` wraps, a slice panics too.
unfoldable pub from_bytes : List ℕ → Option AddressTokenIdDb
unfolding front rest array middle from_be
from_bytes v = do
  a ← front 32 v
  address ← array 32 a
  b ← middle 32 (length v - 8) v
  token ← array 4 b
  c ← rest (length v - 8) v
  id ← array 8 c
  some (record { address = from_be address; token = from_be token; id = from_be id })

pub record FitsAddressTokenId (v : AddressTokenIdDb) : Type 0 where
  pub address_fits : v.address < 256 ^ 32
  pub token_fits : v.token < 256 ^ 4
  pub id_fits : v.id < 256 ^ 8

length-get_bytes : (v : AddressTokenIdDb) → length (get_bytes v) ≡ 44
unfolding get_bytes
length-get_bytes v = omega (
  arith,
  length-append (to_be 32 v.address) (to_be 4 v.token ++ to_be 8 v.id),
  length-append (to_be 4 v.token) (to_be 8 v.id),
  length-to_be 32 v.address,
  length-to_be 4 v.token,
  length-to_be 8 v.id,
)

rest-get_bytes : (v : AddressTokenIdDb) → rest 36 (get_bytes v) ≡ some (to_be 8 v.id)
unfolding get_bytes
rest-get_bytes v =
    subst (λ (bs : List ℕ). rest 36 bs ≡ some (to_be 8 v.id))
      (append_assoc (to_be 32 v.address) (to_be 4 v.token) (to_be 8 v.id))
      (rest-append 36 (to_be 32 v.address ++ to_be 4 v.token) (to_be 8 v.id) (
        omega (
          arith,
          length-append (to_be 32 v.address) (to_be 4 v.token),
          length-to_be 32 v.address,
          length-to_be 4 v.token,
        )))

-- The key of an address, a token and a 64-bit number is read back from its bytes.
pub address_token_id_round_trip :
    (v : AddressTokenIdDb) → FitsAddressTokenId v → from_bytes (get_bytes v) ≡ some v
unfolding from_bytes
address_token_id_round_trip v h = ground (
  arith,
  length-get_bytes v,
  front_part,
  middle_part,
  rest-get_bytes v,
  array-eq 32 (to_be 32 v.address) (length-to_be 32 v.address),
  array-eq 4 (to_be 4 v.token) (length-to_be 4 v.token),
  array-eq 8 (to_be 8 v.id) (length-to_be 8 v.id),
  from_be-to_be 32 v.address h.address_fits,
  from_be-to_be 4 v.token h.token_fits,
  from_be-to_be 8 v.id h.id_fits,
)
  where
    front_part : front 32 (get_bytes v) ≡ some (to_be 32 v.address)
    front_part =
        unfold get_bytes in
        front-append 32 (to_be 32 v.address) (to_be 4 v.token ++ to_be 8 v.id)
          (length-to_be 32 v.address)

    middle_part : middle 32 36 (get_bytes v) ≡ some (to_be 4 v.token)
    middle_part =
        unfold get_bytes in
        middle-append 32 36 (to_be 32 v.address) (to_be 4 v.token) (to_be 8 v.id)
          (length-to_be 32 v.address) (omega (arith, length-to_be 4 v.token))

-- The bytes of these keys are ordered as the keys: by address, token and number.
pub address_token_id_order :
    (v w : AddressTokenIdDb)
    → FitsAddressTokenId v
    → FitsAddressTokenId w
    → bytes_lt (get_bytes v) (get_bytes w) ≡ (
        ltb v.address w.address
        || v.address == w.address && (ltb v.token w.token || v.token == w.token && ltb v.id w.id))
unfolding get_bytes
address_token_id_order v w hv hw = ground (
  arith,
  bytes_lt-append (to_be 32 v.address) (to_be 32 w.address) (to_be 4 v.token ++ to_be 8 v.id)
      (to_be 4 w.token ++ to_be 8 w.id)
      (length-to_be 32 v.address ∙ sym (length-to_be 32 w.address)),
  bytes_lt-append (to_be 4 v.token) (to_be 4 w.token) (to_be 8 v.id) (to_be 8 w.id)
      (length-to_be 4 v.token ∙ sym (length-to_be 4 w.token)),
  bytes_lt-to_be 32 v.address w.address hv.address_fits hw.address_fits,
  eq-to_be 32 v.address w.address hv.address_fits hw.address_fits,
  bytes_lt-to_be 4 v.token w.token hv.token_fits hw.token_fits,
  eq-to_be 4 v.token w.token hv.token_fits hw.token_fits,
  bytes_lt-to_be 8 v.id w.id hv.id_fits hw.id_fits,
)
