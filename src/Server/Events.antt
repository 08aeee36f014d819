-- ===== src/Server/Events.antt =====
-- The events of src/server/structs.rs, and the addresses of src/utils/address_fullhash.rs.
use bel_20_indexer.Prelude.{ℕ, Option, none, some, List, [], ◌∷◌, nat_eq, if◌then◌else◌}
use bel_20_indexer.Map.{Map, lookup}
use bel_20_indexer.Env.{Env}
use bel_20_indexer.Tokens.Types.{FullHash, Txid, OriginalTokenTick}
use bel_20_indexer.Tokens.Process.{is_op_return_hash}
use bel_20_indexer.Db.History.{TokenHistoryDb, HistoryValue}
use bel_20_indexer.Db.AddressTokenId.{AddressTokenIdDb}

-- A text is the list of its bytes.
abbrev pub AddressesFullHash : Type 0
AddressesFullHash = Map FullHash (List ℕ)

-- "BURNED"
abbrev pub op_return_address : List ℕ
op_return_address = 66 ∷ 85 ∷ 82 ∷ 78 ∷ 69 ∷ 68 ∷ []

-- "non-standard"
abbrev pub non_standard_address : List ℕ
non_standard_address = 110 ∷ 111 ∷ 110 ∷ 45 ∷ 115 ∷ 116 ∷ 97 ∷ 110 ∷ 100 ∷ 97 ∷ 114 ∷ 100 ∷ []

unfoldable pub fullhash_to_address_str : Env → FullHash → Option (List ℕ) → List ℕ
fullhash_to_address_str env hash (some value) = value
fullhash_to_address_str env hash none =
    if is_op_return_hash env hash then op_return_address else non_standard_address

unfoldable pub address_of : Env → AddressesFullHash → FullHash → List ℕ
unfolding fullhash_to_address_str
address_of env addresses hash = fullhash_to_address_str env hash (lookup hash addresses)

pub data TokenHistoryEvent (F : Type 0) : Type 0 where
  deploy : (max lim : F) (dec : ℕ) (txid : Txid) (vout : ℕ) → TokenHistoryEvent F
  mint : (amt : F) (txid : Txid) (vout : ℕ) → TokenHistoryEvent F
  deploy_transfer : (amt : F) (txid : Txid) (vout : ℕ) → TokenHistoryEvent F
  send : (amt : F) (to : List ℕ) (txid : Txid) (vout : ℕ) → TokenHistoryEvent F
  receive : (amt : F) (from : List ℕ) (txid : Txid) (vout : ℕ) → TokenHistoryEvent F
  send_receive : (amt : F) (txid : Txid) (vout : ℕ) → TokenHistoryEvent F

pub record HistoryValueEvent (F : Type 0) : Type 0 where
  pub height : ℕ
  pub action : TokenHistoryEvent F

pub record AddressTokenIdEvent : Type 0 where
  pub address : List ℕ
  pub token : OriginalTokenTick
  pub id : ℕ

module _ {F : Type 0} (env : Env) (addresses : AddressesFullHash) where
  unfoldable pub into_event : TokenHistoryDb F → TokenHistoryEvent F
  unfolding address_of
  into_event (TokenHistoryDb.deploy max lim dec txid vout) =
      TokenHistoryEvent.deploy max lim dec txid vout
  into_event (TokenHistoryDb.mint amt txid vout) = TokenHistoryEvent.mint amt txid vout
  into_event (TokenHistoryDb.deploy_transfer amt txid vout) =
      TokenHistoryEvent.deploy_transfer amt txid vout
  into_event (TokenHistoryDb.send amt to txid vout) =
      TokenHistoryEvent.send amt (address_of env addresses to) txid vout
  into_event (TokenHistoryDb.receive amt from txid vout) =
      TokenHistoryEvent.receive amt (address_of env addresses from) txid vout
  into_event (TokenHistoryDb.send_receive amt txid vout) =
      TokenHistoryEvent.send_receive amt txid vout

  unfoldable pub value_into_event : HistoryValue F → HistoryValueEvent F
  unfolding into_event
  value_into_event value = record { height = value.height; action = into_event value.action }

-- The key of an event, as src/server/threads/event_sender.rs sends it
unfoldable pub key_into_event : Env → AddressesFullHash → AddressTokenIdDb → AddressTokenIdEvent
unfolding address_of
key_into_event env addresses k = record {
  address = address_of env addresses k.address;
  token = k.token;
  id = k.id;
}
