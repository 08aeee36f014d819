-- ===== src/Db/Tests.antt =====
-- Concrete keys and values for the theorems of src/db/structs.rs.
use bel_20_indexer.Db.History.{from_token_history, place, other_party, from_token_history-keeps}
use bel_20_indexer.Tokens.Types.{HistoryTokenAction}
use bel_20_indexer.Prelude.{
  ℕ, ◌≡◌, ◌↔◌, ◌++◌, refl, arith, some, [], ◌∷◌, true, false, ◌&&◌, ◌||◌, ◌==◌, nat_eq, ltb, ap,
  ◌>>=◌,
}
use bel_20_indexer.Bytes.{
  to_be, to_le, from_be, from_le, from_be-to_be, from_le-to_le, length-to_be, front, rest,
  front-append, rest-append, bytes_lt,
}
use bel_20_indexer.Db.Consensus.{Consensus}
use bel_20_indexer.Db.AddressLocation.{
  AddressLocation, FitsAddressLocation, search_with_offset, address_location_round_trip,
}
use bel_20_indexer.Db.Search.{in_range, search_with_offset_exact}
use bel_20_indexer.Db.Partials.{Part, Partials, partials_round_trip}
use bel_20_indexer.Db.AddressTokenId.{
  AddressTokenIdDb, address_token_id_round_trip, address_token_id_order,
}
use bel_20_indexer.Db.History as HistoryDb
use bel_20_indexer.Db.AddressLocation as AddressLocationKey
use bel_20_indexer.Db.Partials as PartialsValue
use bel_20_indexer.Db.AddressTokenId as AddressTokenIdKey

abbrev sample_consensus : Consensus
sample_consensus = record {
  serialize_outpoint = λ o. to_be 32 o.txid ++ to_le 4 o.vout;
  deserialize_outpoint = λ bs. do
    a ← front 32 bs
    b ← rest 32 bs
    some (record { txid = from_be a; vout = from_le b });
  serialize_txid = λ t. to_be 32 t;
  deserialize_txid = λ bs. some (from_be bs);
  outpoint_bytes = λ o. refl;
  outpoint_back = λ o h. ground (
    arith,
    front-append 32 (to_be 32 o.txid) (to_le 4 o.vout) (length-to_be 32 o.txid),
    rest-append 32 (to_be 32 o.txid) (to_le 4 o.vout) (length-to_be 32 o.txid),
    from_be-to_be 32 o.txid h.txid_fits,
    from_le-to_le 4 o.vout h.vout_fits,
  );
  txid_bytes = λ t. refl;
  txid_back = λ t h. ap some (from_be-to_be 32 t h);
}

abbrev sample_key : AddressLocation
sample_key = record {
  address = 77;
  location = record { outpoint = record { txid = 2000; vout = 1 }; offset = 546 };
}

abbrev other_key : AddressLocation
other_key = record {
  address = 77;
  location = record { outpoint = record { txid = 2000; vout = 2 }; offset = 0 };
}

sample_key-fits : FitsAddressLocation sample_key
sample_key-fits = record {
  address_fits = omega arith;
  outpoint_fits = record { txid_fits = omega arith; vout_fits = omega arith };
  offset_fits = omega arith;
}

address_location_round_trip_example :
    AddressLocationKey.from_bytes sample_consensus
      (AddressLocationKey.get_bytes sample_consensus sample_key)
    ≡ some sample_key
address_location_round_trip_example =
    address_location_round_trip sample_consensus sample_key sample_key-fits

search_with_offset_exact_example :
    (in_range sample_consensus (search_with_offset 77 other_key.location.outpoint) sample_key
      ≡ true)
    ↔ ((sample_key.address ≡ 77) × (sample_key.location.outpoint ≡ other_key.location.outpoint))
search_with_offset_exact_example =
    search_with_offset_exact sample_consensus 77 other_key.location.outpoint sample_key
      (omega arith) (record { txid_fits = omega arith; vout_fits = omega arith }) sample_key-fits

abbrev sample_partials : Partials
sample_partials = record {
  inscription_index = 3;
  genesis_txid = 2000;
  parts =
      record { is_tapscript = true; script_buffer = 1 ∷ 2 ∷ [] }
      ∷ record { is_tapscript = false; script_buffer = [] }
      ∷ [];
}

partials_round_trip_example :
    PartialsValue.from_bytes sample_consensus
      (PartialsValue.get_bytes sample_consensus sample_partials)
    ≡ some sample_partials
partials_round_trip_example = partials_round_trip sample_consensus sample_partials (record {
  index_fits = omega arith;
  txid_fits = omega arith;
  parts_fit = (omega arith, (omega arith, tt));
})

abbrev account_key : AddressTokenIdDb
account_key = record { address = 77; token = 5; id = 256 }

abbrev later_key : AddressTokenIdDb
later_key = record { address = 77; token = 6; id = 1 }

address_token_id_round_trip_example :
    AddressTokenIdKey.from_bytes (AddressTokenIdKey.get_bytes account_key) ≡ some account_key
address_token_id_round_trip_example =
    address_token_id_round_trip account_key
      (record { address_fits = omega arith; token_fits = omega arith; id_fits = omega arith })

address_token_id_order_example :
    bytes_lt (AddressTokenIdKey.get_bytes account_key) (AddressTokenIdKey.get_bytes later_key)
    ≡ (ltb 77 77 || ◌==◌ {A = ℕ} 77 77 && (ltb 5 6 || ◌==◌ {A = ℕ} 5 6 && ltb 256 1))
address_token_id_order_example =
    address_token_id_order account_key later_key
      (record { address_fits = omega arith; token_fits = omega arith; id_fits = omega arith })
      (record { address_fits = omega arith; token_fits = omega arith; id_fits = omega arith })

abbrev sample_send : HistoryTokenAction ℕ
sample_send = HistoryTokenAction.send 5 100 77 78 2000 1

from_token_history-keeps_example :
    (HistoryDb.outpoint (from_token_history sample_send) ≡ place sample_send)
    × (HistoryDb.address (from_token_history sample_send) ≡ other_party sample_send)
from_token_history-keeps_example = from_token_history-keeps sample_send
