-- ===== src/Tokens/Types.antt =====
-- The data of src/tokens/structs.rs, src/tokens/parser.rs and src/db/structs.rs that the token
-- engine works on. `F` is the type of the decimals.
-- A hash of 32 bytes and a tick of four bytes are the numbers that their bytes, read from the most
-- significant on, stand for, so that the derived orders are those of the numbers.
use bel_20_indexer.Prelude.{
  ℕ, ◌≡◌, ◌↔◌, ◌&&◌, Option, none, some, List, arith, Eq, ◌==◌, nat_eq, list_eq, list_beq_iff, true,
}
use bel_20_indexer.Map.{Map}

abbrev pub FullHash : Type 0
FullHash = ℕ

abbrev pub Txid : Type 0
Txid = ℕ

abbrev pub OriginalTokenTick : Type 0
OriginalTokenTick = ℕ

abbrev pub LowerCaseTokenTick : Type 0
LowerCaseTokenTick = List ℕ

pub record OutPoint : Type 0 where
  pub txid : Txid
  pub vout : ℕ

pub record InscriptionId : Type 0 where
  pub txid : Txid
  pub index : ℕ

pub record Location : Type 0 where
  pub outpoint : OutPoint
  pub offset : ℕ

pub record AddressToken : Type 0 where
  pub address : FullHash
  pub token : OriginalTokenTick

pub record TokenBalance (F : Type 0) : Type 0 where
  pub balance : F
  pub transferable_balance : F
  pub transfers_count : ℕ

pub record MintProtoWrapper (F : Type 0) : Type 0 where
  pub tick : OriginalTokenTick
  pub amt : F

pub record DeployProtoDb (F : Type 0) : Type 0 where
  pub tick : OriginalTokenTick
  pub max : F
  pub lim : F
  pub dec : ℕ
  pub supply : F
  pub transfer_count : ℕ
  pub mint_count : ℕ
  pub height : ℕ
  pub created : ℕ
  pub deployer : FullHash
  pub transactions : ℕ

pub record TokenMeta (F : Type 0) : Type 0 where
  pub genesis : InscriptionId
  pub proto : DeployProtoDb F

pub record TransferProtoDb (F : Type 0) : Type 0 where
  pub tick : OriginalTokenTick
  pub amt : F
  pub height : ℕ

pub data TokenAction (F : Type 0) : Type 0 where
  deploy : InscriptionId → DeployProtoDb F → FullHash → TokenAction F
  mint : FullHash → MintProtoWrapper F → Txid → ℕ → TokenAction F
  transfer : Location → FullHash → MintProtoWrapper F → Txid → ℕ → TokenAction F
  transferred : Location → FullHash → Txid → ℕ → TokenAction F

pub data HistoryTokenAction (F : Type 0) : Type 0 where
  deploy :
      (tick : OriginalTokenTick) (max lim : F) (dec : ℕ) (recipient : FullHash) (txid : Txid)
      (vout : ℕ)
      → HistoryTokenAction F
  mint :
      (tick : OriginalTokenTick) (amt : F) (recipient : FullHash) (txid : Txid) (vout : ℕ)
      → HistoryTokenAction F
  deploy_transfer :
      (tick : OriginalTokenTick) (amt : F) (recipient : FullHash) (txid : Txid) (vout : ℕ)
      → HistoryTokenAction F
  send :
      (tick : OriginalTokenTick) (amt : F) (recipient sender : FullHash) (txid : Txid) (vout : ℕ)
      → HistoryTokenAction F

module _ {F : Type 0} where
  unfoldable pub tick : HistoryTokenAction F → OriginalTokenTick
  tick (HistoryTokenAction.deploy t _ _ _ _ _ _) = t
  tick (HistoryTokenAction.mint t _ _ _ _) = t
  tick (HistoryTokenAction.deploy_transfer t _ _ _ _) = t
  tick (HistoryTokenAction.send t _ _ _ _ _) = t

  unfoldable pub recipient : HistoryTokenAction F → FullHash
  recipient (HistoryTokenAction.deploy _ _ _ _ r _ _) = r
  recipient (HistoryTokenAction.mint _ _ r _ _) = r
  recipient (HistoryTokenAction.deploy_transfer _ _ r _ _) = r
  recipient (HistoryTokenAction.send _ _ r _ _ _) = r

  unfoldable pub sender : HistoryTokenAction F → Option FullHash
  sender (HistoryTokenAction.send _ _ _ s _ _) = some s
  sender _ = none

pub outpoint_beq_iff : (a b : OutPoint) → ((a.txid == b.txid && a.vout == b.vout) ≡ true) ↔ (a ≡ b)
outpoint_beq_iff a b = ground arith

instance abbrev pub outpoint_eq : Eq OutPoint
outpoint_eq = record {
  same = λ a b. a.txid == b.txid && a.vout == b.vout;
  beq_iff = outpoint_beq_iff;
}

pub location_beq_iff :
    (a b : Location) → ((a.outpoint == b.outpoint && a.offset == b.offset) ≡ true) ↔ (a ≡ b)
location_beq_iff a b = ground arith

instance abbrev pub location_eq : Eq Location
location_eq = record {
  same = λ a b. a.outpoint == b.outpoint && a.offset == b.offset;
  beq_iff = location_beq_iff;
}

pub address_token_beq_iff :
    (a b : AddressToken) → ((a.address == b.address && a.token == b.token) ≡ true) ↔ (a ≡ b)
address_token_beq_iff a b = ground arith

instance abbrev pub address_token_eq : Eq AddressToken
address_token_eq = record {
  same = λ a b. a.address == b.address && a.token == b.token;
  beq_iff = address_token_beq_iff;
}

-- The maps and the actions that a block is processed with.
pub record TokenCache (F : Type 0) : Type 0 where
  pub tokens : Map LowerCaseTokenTick (TokenMeta F)
  pub token_accounts : Map AddressToken (TokenBalance F)
  pub token_actions : List (TokenAction F)
  pub all_transfers : Map Location (TransferProtoDb F)
  pub valid_transfers : Map Location (FullHash × TransferProtoDb F)

-- Lower-case ticks are compared byte by byte.
pub lower_eq_iff : (a b : LowerCaseTokenTick) → ((a == b) ≡ true) ↔ (a ≡ b)
lower_eq_iff a b = list_beq_iff a b
