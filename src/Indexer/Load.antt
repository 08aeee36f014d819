-- ===== src/Indexer/Load.antt =====
-- The cache that a block begins with, `TokenCache::load` of src/tokens/parser.rs and
-- `load_transfers` of src/db/mod.rs. What the table of transfers has in a range is given.
use bel_20_indexer.Prelude.{List, [], ◌∷◌, ◌++◌}
use bel_20_indexer.Map.{Map}
use bel_20_indexer.Tokens.Types.{
  FullHash, OutPoint, Location, location_eq, TransferProtoDb, TokenCache,
}
use bel_20_indexer.Db.AddressLocation.{AddressLocation, RangeInclusive, search_with_offset}
use bel_20_indexer.Db.TxPrevout.{TxPrevout}
use bel_20_indexer.Inscriptions.Prevouts.{collect}

unfoldable pub spent_places : Map OutPoint TxPrevout → List (FullHash × OutPoint)
spent_places [] = []
spent_places (p ∷ ps) = (p.1.script_hash, p.0) ∷ spent_places ps

module _ {F : Type 0} where
  abbrev located :
      List (AddressLocation × TransferProtoDb F) → List (Location × (FullHash × TransferProtoDb F))
  located [] = []
  located (p ∷ ps) = (p.0.location, (p.0.address, p.1)) ∷ located ps

  unfoldable pub load_transfers :
      (RangeInclusive → List (AddressLocation × TransferProtoDb F))
      → List (FullHash × OutPoint)
      → List (Location × (FullHash × TransferProtoDb F))
  unfolding search_with_offset
  load_transfers range [] = []
  load_transfers range (k ∷ ks) =
      located (range (search_with_offset k.0 k.1)) ++ load_transfers range ks

  unfoldable pub protos_of :
      Map Location (FullHash × TransferProtoDb F) → Map Location (TransferProtoDb F)
  protos_of [] = []
  protos_of (p ∷ ps) = (p.0, p.1.1) ∷ protos_of ps

  unfoldable pub load :
      (RangeInclusive → List (AddressLocation × TransferProtoDb F))
      → Map OutPoint TxPrevout
      → TokenCache F
  unfolding load_transfers protos_of
  load range prevouts =
      let valid_transfers = collect (load_transfers range (spent_places prevouts)) [] in
      record {
        tokens = [];
        token_accounts = [];
        token_actions = [];
        all_transfers = protos_of valid_transfers;
        valid_transfers = valid_transfers;
      }
