-- ===== src/Server/Rest.antt =====
-- The values of src/rest/types.rs that stand for an event of a token: those made of what the
-- server sends, and those made of what is stored.
use bel_20_indexer.Prelude.{ℕ, ◌≡◌, refl, List}
use bel_20_indexer.Env.{Env}
use bel_20_indexer.Tokens.Types.{Txid, OriginalTokenTick}
use bel_20_indexer.Db.History.{TokenHistoryDb, HistoryValue}
use bel_20_indexer.Db.AddressTokenId.{AddressTokenIdDb}
use bel_20_indexer.Server.Events.{
  AddressesFullHash, address_of, TokenHistoryEvent, HistoryValueEvent, AddressTokenIdEvent,
  into_event, value_into_event, key_into_event,
}

-- `TokenAction` of rest::types
pub data RestTokenAction (F : Type 0) : Type 0 where
  deploy : (max lim : F) (dec : ℕ) (txid : Txid) (vout : ℕ) → RestTokenAction F
  mint : (amt : F) (txid : Txid) (vout : ℕ) → RestTokenAction F
  deploy_transfer : (amt : F) (txid : Txid) (vout : ℕ) → RestTokenAction F
  send : (amt : F) (to : List ℕ) (txid : Txid) (vout : ℕ) → RestTokenAction F
  receive : (amt : F) (from : List ℕ) (txid : Txid) (vout : ℕ) → RestTokenAction F
  send_receive : (amt : F) (txid : Txid) (vout : ℕ) → RestTokenAction F

-- `AddressTokenId` and `History` of rest::types
pub record RestAddressTokenId : Type 0 where
  pub id : ℕ
  pub address : List ℕ
  pub tick : OriginalTokenTick

pub record RestHistory (F : Type 0) : Type 0 where
  pub address_token : RestAddressTokenId
  pub height : ℕ
  pub action : RestTokenAction F

unfoldable pub from_key_event : AddressTokenIdEvent → RestAddressTokenId
from_key_event value = record { address = value.address; id = value.id; tick = value.token }

module _ {F : Type 0} where
  unfoldable pub from_event : HistoryValueEvent F → RestTokenAction F
  from_event value = elim value.action [
    | TokenHistoryEvent.deploy max lim dec txid vout ↦ RestTokenAction.deploy max lim dec txid vout
    | TokenHistoryEvent.mint amt txid vout ↦ RestTokenAction.mint amt txid vout
    | TokenHistoryEvent.deploy_transfer amt txid vout ↦
        RestTokenAction.deploy_transfer amt txid vout
    | TokenHistoryEvent.send amt to txid vout ↦ RestTokenAction.send amt to txid vout
    | TokenHistoryEvent.receive amt from txid vout ↦ RestTokenAction.receive amt from txid vout
    | TokenHistoryEvent.send_receive amt txid vout ↦ RestTokenAction.send_receive amt txid vout
  ]

  unfoldable pub from_with_addresses :
      Env → AddressesFullHash → TokenHistoryDb F → RestTokenAction F
  from_with_addresses env addresses (TokenHistoryDb.deploy max lim dec txid vout) =
      RestTokenAction.deploy max lim dec txid vout
  from_with_addresses env addresses (TokenHistoryDb.mint amt txid vout) =
      RestTokenAction.mint amt txid vout
  from_with_addresses env addresses (TokenHistoryDb.deploy_transfer amt txid vout) =
      RestTokenAction.deploy_transfer amt txid vout
  from_with_addresses env addresses (TokenHistoryDb.send amt to txid vout) =
      RestTokenAction.send amt (address_of env addresses to) txid vout
  from_with_addresses env addresses (TokenHistoryDb.receive amt from txid vout) =
      RestTokenAction.receive amt (address_of env addresses from) txid vout
  from_with_addresses env addresses (TokenHistoryDb.send_receive amt txid vout) =
      RestTokenAction.send_receive amt txid vout

  -- The row that a proof of history hashes
  unfoldable pub rest_history :
      Env → AddressesFullHash → AddressTokenIdDb → HistoryValue F → RestHistory F
  unfolding from_with_addresses
  rest_history env addresses key value = record {
    height = value.height;
    action = from_with_addresses env addresses value.action;
    address_token = record {
      address = address_of env addresses key.address;
      id = key.id;
      tick = key.token;
    };
  }

  -- What is sent of a stored event and then served is what is hashed of it.
  pub from_event-value_into_event :
      (env : Env) (addresses : AddressesFullHash) (height : ℕ) (action : TokenHistoryDb F)
      → from_event (value_into_event env addresses (record { height = height; action = action }))
        ≡ from_with_addresses env addresses action
  unfolding from_event value_into_event into_event from_with_addresses
  from_event-value_into_event env addresses height (TokenHistoryDb.deploy _ _ _ _ _) = refl
  from_event-value_into_event env addresses height (TokenHistoryDb.mint _ _ _) = refl
  from_event-value_into_event env addresses height (TokenHistoryDb.deploy_transfer _ _ _) = refl
  from_event-value_into_event env addresses height (TokenHistoryDb.send _ _ _ _) = refl
  from_event-value_into_event env addresses height (TokenHistoryDb.receive _ _ _ _) = refl
  from_event-value_into_event env addresses height (TokenHistoryDb.send_receive _ _ _) = refl

  pub from_key_event-key_into_event :
      (env : Env) (addresses : AddressesFullHash) (k : AddressTokenIdDb) (v : HistoryValue F)
      → from_key_event (key_into_event env addresses k)
        ≡ (rest_history env addresses k v).address_token
  unfolding from_key_event key_into_event rest_history
  from_key_event-key_into_event env addresses k v = refl
