-- ===== src/Db/History.antt =====
-- The values of the tables of history, `TokenHistoryDB` and `HistoryValue` of src/db/structs.rs.
use bel_20_indexer.Prelude.{ℕ, ◌≡◌, refl, arith, Option, none, some, ◌==◌, nat_eq, if◌then◌else◌}
use bel_20_indexer.Tokens.Types.{FullHash, Txid, OutPoint, HistoryTokenAction, recipient, sender}

pub data TokenHistoryDb (F : Type 0) : Type 0 where
  deploy : (max lim : F) (dec : ℕ) (txid : Txid) (vout : ℕ) → TokenHistoryDb F
  mint : (amt : F) (txid : Txid) (vout : ℕ) → TokenHistoryDb F
  deploy_transfer : (amt : F) (txid : Txid) (vout : ℕ) → TokenHistoryDb F
  send : (amt : F) (to : FullHash) (txid : Txid) (vout : ℕ) → TokenHistoryDb F
  receive : (amt : F) (from : FullHash) (txid : Txid) (vout : ℕ) → TokenHistoryDb F
  send_receive : (amt : F) (txid : Txid) (vout : ℕ) → TokenHistoryDb F

pub record HistoryValue (F : Type 0) : Type 0 where
  pub height : ℕ
  pub action : TokenHistoryDb F

module _ {F : Type 0} where
  unfoldable pub from_token_history : HistoryTokenAction F → TokenHistoryDb F
  from_token_history (HistoryTokenAction.deploy _ max lim dec _ txid vout) =
      TokenHistoryDb.deploy max lim dec txid vout
  from_token_history (HistoryTokenAction.mint _ amt _ txid vout) = TokenHistoryDb.mint amt txid vout
  from_token_history (HistoryTokenAction.deploy_transfer _ amt _ txid vout) =
      TokenHistoryDb.deploy_transfer amt txid vout
  from_token_history (HistoryTokenAction.send _ amt to from txid vout) =
      if from == to
      then TokenHistoryDb.send_receive amt txid vout
      else TokenHistoryDb.send amt to txid vout

  unfoldable pub address : TokenHistoryDb F → Option FullHash
  address (TokenHistoryDb.receive _ from _ _) = some from
  address (TokenHistoryDb.send _ to _ _) = some to
  address _ = none

  unfoldable pub outpoint : TokenHistoryDb F → OutPoint
  outpoint (TokenHistoryDb.deploy _ _ _ txid vout) = record { txid = txid; vout = vout }
  outpoint (TokenHistoryDb.mint _ txid vout) = record { txid = txid; vout = vout }
  outpoint (TokenHistoryDb.deploy_transfer _ txid vout) = record { txid = txid; vout = vout }
  outpoint (TokenHistoryDb.send _ _ txid vout) = record { txid = txid; vout = vout }
  outpoint (TokenHistoryDb.receive _ _ txid vout) = record { txid = txid; vout = vout }
  outpoint (TokenHistoryDb.send_receive _ txid vout) = record { txid = txid; vout = vout }

  -- Where an event of a block took place.
  abbrev pub place : HistoryTokenAction F → OutPoint
  place (HistoryTokenAction.deploy _ _ _ _ _ txid vout) = record { txid = txid; vout = vout }
  place (HistoryTokenAction.mint _ _ _ txid vout) = record { txid = txid; vout = vout }
  place (HistoryTokenAction.deploy_transfer _ _ _ txid vout) = record { txid = txid; vout = vout }
  place (HistoryTokenAction.send _ _ _ _ txid vout) = record { txid = txid; vout = vout }

  -- The party of an event other than its owner: the recipient, where there is a sender and it is
  -- another.
  abbrev pub other_party : HistoryTokenAction F → Option FullHash
  other_party e = elim (sender e) [
    | none ↦ none
    | some from ↦ if from == recipient e then none else some (recipient e)
  ]

  -- What is stored of an event keeps its place, and names its recipient exactly where it has a
  -- sender that is not the recipient.
  pub from_token_history-keeps :
      (e : HistoryTokenAction F)
      → (outpoint (from_token_history e) ≡ place e)
        × (address (from_token_history e) ≡ other_party e)
  unfolding from_token_history address outpoint sender recipient
  from_token_history-keeps (HistoryTokenAction.deploy _ _ _ _ _ _ _) = (refl, refl)
  from_token_history-keeps (HistoryTokenAction.mint _ _ _ _ _) = (refl, refl)
  from_token_history-keeps (HistoryTokenAction.deploy_transfer _ _ _ _ _) = (refl, refl)
  from_token_history-keeps (HistoryTokenAction.send _ _ _ _ _ _) = ground arith
