-- ===== src/Db/Search.antt =====
-- What the ranges of src/db/structs.rs find in a table that is sorted by the bytes of its keys.
use bel_20_indexer.Prelude.{
  ◌-◌, ◌^◌, ◌<◌, ◌≡◌, ◌↔◌, ◌++◌, arith, Bool, true, false, ◌&&◌, ◌||◌, not, ◌==◌, nat_eq, list_eq,
  ltb, ◌∙◌, sym,
}
use bel_20_indexer.Bytes.{
  to_be, length-to_be, bytes_lt, bytes_lt-append, bytes_lt-to_be, eq-to_be, bytes_lt-total,
  bytes_lt_irrefl,
}
use bel_20_indexer.Tokens.Types.{FullHash, OutPoint}
use bel_20_indexer.Db.Consensus.{Consensus, FitsOutPoint}
use bel_20_indexer.Db.AddressLocation.{
  AddressLocation, FitsAddressLocation, RangeInclusive, search_with_offset, get_bytes,
  length-serialize_outpoint,
}

module _ (c : Consensus) where
  open c use {serialize_outpoint, outpoint_bytes, outpoint_back}

  -- A table returns the keys whose bytes lie between those of the bounds.
  abbrev pub in_range : RangeInclusive → AddressLocation → Bool
  in_range r x =
      not (bytes_lt (get_bytes c x) (get_bytes c r.start))
      && not (bytes_lt (get_bytes c r.end) (get_bytes c x))

  order :
      (v w : AddressLocation)
      → FitsAddressLocation v
      → FitsAddressLocation w
      → bytes_lt (get_bytes c v) (get_bytes c w) ≡ (
          ltb v.address w.address
          || v.address == w.address
            && (bytes_lt
                  (serialize_outpoint v.location.outpoint)
                  (serialize_outpoint w.location.outpoint)
                || serialize_outpoint v.location.outpoint == serialize_outpoint w.location.outpoint
                  && ltb v.location.offset w.location.offset))
  unfolding get_bytes
  order v w hv hw =
      let ov = serialize_outpoint v.location.outpoint in
      let ow = serialize_outpoint w.location.outpoint in
      ground (
        arith,
        bytes_lt-append (to_be 32 v.address) (to_be 32 w.address) (ov ++ to_be 8 v.location.offset)
            (ow ++ to_be 8 w.location.offset)
            (length-to_be 32 v.address ∙ sym (length-to_be 32 w.address)),
        bytes_lt-append ov ow (to_be 8 v.location.offset) (to_be 8 w.location.offset) (
            length-serialize_outpoint c v.location.outpoint
            ∙ sym (length-serialize_outpoint c w.location.outpoint)),
        bytes_lt-to_be 32 v.address w.address hv.address_fits hw.address_fits,
        eq-to_be 32 v.address w.address hv.address_fits hw.address_fits,
        bytes_lt-to_be 8 v.location.offset w.location.offset hv.offset_fits hw.offset_fits,
      )

  -- Two outpoints with the same bytes are the same.
  same_outpoint :
      (o p : OutPoint)
      → FitsOutPoint o
      → FitsOutPoint p
      → serialize_outpoint o ≡ serialize_outpoint p
      → o ≡ p
  same_outpoint o p ho hp e = ground (arith, outpoint_back o ho, outpoint_back p hp, e)

  -- The range of an address and an outpoint finds exactly the keys of that address and outpoint,
  -- whatever their offsets.
  pub search_with_offset_exact :
      (address : FullHash) (outpoint : OutPoint) (x : AddressLocation)
      → address < 256 ^ 32
      → FitsOutPoint outpoint
      → FitsAddressLocation x
      → (in_range (search_with_offset address outpoint) x ≡ true)
        ↔ ((x.address ≡ address) × (x.location.outpoint ≡ outpoint))
  unfolding search_with_offset
  search_with_offset_exact address outpoint x ha ho hx = (to, from)
    where
      first : AddressLocation
      first = record { address = address; location = record { outpoint = outpoint; offset = 0 } }

      last : AddressLocation
      last = record {
        address = address;
        location = record { outpoint = outpoint; offset = 2 ^ 64 - 1 };
      }

      below : bytes_lt (get_bytes c x) (get_bytes c first) ≡ (
          ltb x.address address
          || x.address == address
            && bytes_lt (serialize_outpoint x.location.outpoint) (serialize_outpoint outpoint))
      below =
          order x first hx
            (record { address_fits = ha; outpoint_fits = ho; offset_fits = omega arith })
          ∙ ground arith

      above : bytes_lt (get_bytes c last) (get_bytes c x) ≡ (
          ltb address x.address
          || address == x.address
            && bytes_lt (serialize_outpoint outpoint) (serialize_outpoint x.location.outpoint))
      above =
          order last x (record { address_fits = ha; outpoint_fits = ho; offset_fits = omega arith })
            hx
          ∙ ground (arith, hx.offset_fits)

      to :
          in_range (search_with_offset address outpoint) x ≡ true
          → (x.address ≡ address) × (x.location.outpoint ≡ outpoint)
      to h =
          let same : x.address ≡ address = ground (arith, h, below, above) in
          let before : bytes_lt (serialize_outpoint x.location.outpoint)
                (serialize_outpoint outpoint)
              ≡ false =
            ground (arith, h, below, same) in
          let behind : bytes_lt (serialize_outpoint outpoint)
                (serialize_outpoint x.location.outpoint)
              ≡ false =
            ground (arith, h, above, same) in
          (
            same,
            same_outpoint x.location.outpoint outpoint hx.outpoint_fits ho
                (bytes_lt-total _ _ before behind),
          )

      from :
          (x.address ≡ address) × (x.location.outpoint ≡ outpoint)
          → in_range (search_with_offset address outpoint) x ≡ true
      from p = ground (arith, p, below, above, bytes_lt_irrefl (serialize_outpoint outpoint))
