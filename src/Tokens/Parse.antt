-- ===== src/Tokens/Parse.antt =====
-- `TokenCache::parse_token_action` of src/tokens/parser.rs, which turns an inscription into an action
-- that waits to be processed, and `transferred` and `burned_transfer`, which note a move.
use bel_20_indexer.Prelude.{
  ℕ, Bool, ◌||◌, none, some, Option, List, [], ◌∷◌, ◌++◌, ◌==◌, nat_eq, if◌then◌else◌,
}
use bel_20_indexer.Map.{insert}
use bel_20_indexer.Env.{Env}
use bel_20_indexer.Tokens.Types.{
  FullHash, Txid, InscriptionId, Location, DeployProtoDb, TransferProtoDb, TokenAction, TokenCache,
  location_eq,
}
use bel_20_indexer.Tokens.Proto.{
  Blockchain, Brc4, TransferProto, DeployProtoWrapper, Result, ok, err, mint_value, deploy_value,
  transfer_value, lim_or, try_parse,
}

pub record InscriptionTemplate : Type 0 where
  pub genesis : InscriptionId
  pub location : Location
  pub content_type : Option (List ℕ)
  pub owner : FullHash
  pub value : ℕ
  pub content : Option (List ℕ)
  pub leaked : Bool

module _ (env : Env) (chain : Blockchain) where
  open env use {Fixed128, zero_amount, op_return_hash}

  abbrev pub push_action : TokenAction Fixed128 → TokenCache Fixed128 → TokenCache Fixed128
  push_action a c = record c { token_actions = c.token_actions ++ a ∷ [] }

  -- What is kept of a deployment.
  abbrev pub deployed : DeployProtoWrapper Fixed128 → FullHash → ℕ → ℕ → DeployProtoDb Fixed128
  deployed v owner height created = record {
    tick = v.tick;
    max = v.max;
    lim = lim_or env v.lim v.max;
    dec = v.dec;
    supply = zero_amount;
    transfer_count = 0;
    mint_count = 0;
    height = height;
    created = created;
    deployer = owner;
    transactions = 1;
  }

  -- `TransferProtoDb::from_proto`
  unfoldable pub from_proto : TransferProto Fixed128 → ℕ → Option (TransferProtoDb Fixed128)
  unfolding transfer_value
  from_proto proto height = elim (transfer_value chain proto) [
    | none ↦ none
    | some v ↦ some (record { tick = v.tick; amt = v.amt; height = height })
  ]

  -- The action of a message that passed the tests, and the transfer that is returned.
  unfoldable pub add_brc4 :
      InscriptionTemplate
      → ℕ
      → ℕ
      → Brc4 Fixed128
      → TokenCache Fixed128
      → TokenCache Fixed128 × Option (TransferProto Fixed128)
  unfolding mint_value deploy_value transfer_value from_proto
  add_brc4 inc height created (Brc4.deploy proto) c = elim (deploy_value chain proto) [
    | none ↦ (c, none)
    | some v ↦ (
      push_action (TokenAction.deploy inc.genesis (deployed v inc.owner height created) inc.owner)
          c,
      none,
    )
  ]
  add_brc4 inc height created (Brc4.mint proto) c = elim (mint_value chain proto) [
    | none ↦ (c, none)
    | some v ↦ (
      push_action
          (TokenAction.mint inc.owner v inc.location.outpoint.txid inc.location.outpoint.vout) c,
      none,
    )
  ]
  add_brc4 inc height created (Brc4.transfer proto) c = elim (transfer_value chain proto) [
    | none ↦ (c, none)
    | some v ↦
        let c' : TokenCache Fixed128 =
          push_action
            (TokenAction.transfer inc.location inc.owner v inc.location.outpoint.txid
              inc.location.outpoint.vout)
            c in
        elim (from_proto proto height) [
          | none ↦ (c', none)
          | some stored ↦ (
            record c' { all_transfers = insert inc.location stored c'.all_transfers },
            some proto,
          )
        ]
  ]

  unfoldable pub parse_token_action :
      (List ℕ → Result (Brc4 Fixed128))
      → InscriptionTemplate
      → ℕ
      → ℕ
      → TokenCache Fixed128
      → TokenCache Fixed128 × Option (TransferProto Fixed128)
  unfolding add_brc4
  parse_token_action decode inc height created c =
      if inc.owner == op_return_hash || inc.leaked then (c, none) else elim inc.content_type [
        | none ↦ (c, none)
        | some content_type ↦ elim inc.content [
          | none ↦ (c, none)
          | some content ↦ elim (try_parse env chain decode content_type content) [
            | err e ↦ (c, none)
            | ok brc4 ↦ add_brc4 inc height created brc4 c
          ]
        ]
      ]

  unfoldable pub transferred :
      Location → FullHash → Txid → ℕ → TokenCache Fixed128 → TokenCache Fixed128
  transferred transfer_location recipient txid vout =
      push_action (TokenAction.transferred transfer_location recipient txid vout)

  unfoldable pub burned_transfer : Location → Txid → ℕ → TokenCache Fixed128 → TokenCache Fixed128
  burned_transfer location txid vout =
      push_action (TokenAction.transferred location op_return_hash txid vout)
