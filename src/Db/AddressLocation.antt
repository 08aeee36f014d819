-- ===== src/Db/AddressLocation.antt =====
-- `AddressLocation` of src/db/structs.rs, the key of a pending transfer, and the ranges of keys that
-- the table of transfers is searched by.
use bel_20_indexer.Prelude.{
  ℕ, ◌+◌, ◌-◌, ◌^◌, ◌<◌, ◌≡◌, ◌++◌, arith, Option, none, some, List, length, ◌>>=◌, nat_eq, list_eq,
  length-append, append_assoc, subst, Eq, ◌↔◌, true, ◌&&◌, ◌==◌,
}
use bel_20_indexer.Bytes.{
  to_be, from_be, to_le, from_be-to_be, length-to_be, length-to_le, front, rest, array, middle,
  front-append, rest-append, array-eq, middle-append,
}
use bel_20_indexer.Tokens.Types.{FullHash, OutPoint, Location, location_eq, outpoint_eq}
use bel_20_indexer.Db.Consensus.{Consensus, FitsOutPoint}

pub record AddressLocation : Type 0 where
  pub address : FullHash
  pub location : Location

pub address_location_beq_iff :
    (a b : AddressLocation)
    → ((a.address == b.address && a.location == b.location) ≡ true) ↔ (a ≡ b)
address_location_beq_iff a b = ground arith

instance abbrev pub address_location_eq : Eq AddressLocation
address_location_eq = record {
  same = λ a b. a.address == b.address && a.location == b.location;
  beq_iff = address_location_beq_iff;
}

pub record FitsAddressLocation (v : AddressLocation) : Type 0 where
  pub address_fits : v.address < 256 ^ 32
  pub outpoint_fits : FitsOutPoint v.location.outpoint
  pub offset_fits : v.location.offset < 256 ^ 8

-- The bounds of an inclusive range.
pub record RangeInclusive : Type 0 where
  pub start : AddressLocation
  pub end : AddressLocation

unfoldable pub search_with_offset : FullHash → OutPoint → RangeInclusive
search_with_offset address outpoint = record {
  start = record { address = address; location = record { outpoint = outpoint; offset = 0 } };
  end = record {
    address = address;
    location = record { outpoint = outpoint; offset = 2 ^ 64 - 1 };
  };
}

-- The last location that there is.
abbrev last_location : Location
last_location = record {
  outpoint = record { txid = 2 ^ 256 - 1; vout = 2 ^ 32 - 1 };
  offset = 2 ^ 64 - 1;
}

unfoldable pub search_offset : FullHash → OutPoint → RangeInclusive
search_offset address offset = record {
  start = record { address = address; location = record { outpoint = offset; offset = 0 } };
  end = record { address = address; location = last_location };
}

unfoldable pub search : FullHash → Option OutPoint → RangeInclusive
unfolding search_offset
search address (some offset) = search_offset address offset
search address none = record {
  start = record {
    address = address;
    location = record { outpoint = record { txid = 0; vout = 0 }; offset = 0 };
  };
  end = record { address = address; location = last_location };
}

module _ (c : Consensus) where
  open c use {serialize_outpoint, deserialize_outpoint, outpoint_bytes, outpoint_back}

  unfoldable pub get_bytes : AddressLocation → List ℕ
  unfolding to_be
  get_bytes v =
      to_be 32 v.address ++ (serialize_outpoint v.location.outpoint ++ to_be 8 v.location.offset)

  -- `none` is an error or a panic of a slice.
  unfoldable pub from_bytes : List ℕ → Option AddressLocation
  unfolding front rest array middle from_be
  from_bytes v = do
    a ← front 32 v
    address ← array 32 a
    b ← middle 32 (32 + 36) v
    outpoint ← deserialize_outpoint b
    d ← rest (32 + 32 + 4) v
    offset ← array 8 d
    some (record {
      address = from_be address;
      location = record { outpoint = outpoint; offset = from_be offset };
    })

  pub length-serialize_outpoint : (o : OutPoint) → length (serialize_outpoint o) ≡ 36
  length-serialize_outpoint o = rw (outpoint_bytes) (
      omega (
        arith,
        length-append (to_be 32 o.txid) (to_le 4 o.vout),
        length-to_be 32 o.txid,
        length-to_le 4 o.vout,
      ))

  rest-get_bytes : (v : AddressLocation) → rest 68 (get_bytes v) ≡ some (to_be 8 v.location.offset)
  unfolding get_bytes
  rest-get_bytes v =
      let o = serialize_outpoint v.location.outpoint in
      subst (λ (bs : List ℕ). rest 68 bs ≡ some (to_be 8 v.location.offset))
        (append_assoc (to_be 32 v.address) o (to_be 8 v.location.offset))
        (rest-append 68 (to_be 32 v.address ++ o) (to_be 8 v.location.offset) (
          omega (
            arith,
            length-append (to_be 32 v.address) o,
            length-to_be 32 v.address,
            length-serialize_outpoint v.location.outpoint,
          )))

  -- The key of a transfer is read back from its bytes.
  pub address_location_round_trip :
      (v : AddressLocation) → FitsAddressLocation v → from_bytes (get_bytes v) ≡ some v
  unfolding from_bytes
  address_location_round_trip v h = ground (
    arith,
    front_part,
    middle_part,
    rest-get_bytes v,
    array-eq 32 (to_be 32 v.address) (length-to_be 32 v.address),
    array-eq 8 (to_be 8 v.location.offset) (length-to_be 8 v.location.offset),
    outpoint_back v.location.outpoint h.outpoint_fits,
    from_be-to_be 32 v.address h.address_fits,
    from_be-to_be 8 v.location.offset h.offset_fits,
  )
    where
      front_part : front 32 (get_bytes v) ≡ some (to_be 32 v.address)
      front_part =
          unfold get_bytes in
          front-append 32 (to_be 32 v.address)
            (serialize_outpoint v.location.outpoint ++ to_be 8 v.location.offset)
            (length-to_be 32 v.address)

      middle_part : middle 32 68 (get_bytes v) ≡ some (serialize_outpoint v.location.outpoint)
      middle_part =
          unfold get_bytes in
          middle-append 32 68 (to_be 32 v.address) (serialize_outpoint v.location.outpoint)
            (to_be 8 v.location.offset) (length-to_be 32 v.address)
            (omega (arith, length-serialize_outpoint v.location.outpoint))
