-- ===== src/Tokens/Process.antt =====
-- `TokenCache::process_token_actions` of src/tokens/parser.rs, an action at a time. A panic is
-- `none`; a `continue` returns the state that was reached.
use bel_20_indexer.Prelude.{
  ℕ, ◌+◌, ◌-◌, ◌^◌, ◌%◌, Bool, ◌||◌, Option, none, some, List, [], ◌∷◌, ◌++◌, ◌==◌, nat_eq, list_eq,
  ltb, if◌then◌else◌,
}
use bel_20_indexer.Map.{lookup, contains, insert, erase}
use bel_20_indexer.Env.{Env}
use bel_20_indexer.Tokens.Types.{
  FullHash, Txid, InscriptionId, Location, AddressToken, TokenBalance, MintProtoWrapper,
  DeployProtoDb, TokenMeta, TransferProtoDb, TokenAction, HistoryTokenAction, TokenCache,
  address_token_eq, location_eq, LowerCaseTokenTick,
}
use bel_20_indexer.Tokens.Holders.{Holders, default_balance, increase_by, decrease_by}

-- The loop's state: the cache, the registry that it shares with the server, and `history`.
pub record State (F : Type 0) : Type 0 where
  pub cache : TokenCache F
  pub open cache use *
  pub holders : Holders F
  pub history : List (HistoryTokenAction F)

-- `x += 1` on a u32 and a u64
abbrev pub next_u32 : ℕ → ℕ
next_u32 x = (x + 1) % 2 ^ 32

abbrev pub next_u64 : ℕ → ℕ
next_u64 x = (x + 1) % 2 ^ 64

module _ (env : Env) where
  open env use {Fixed128, units, add, sub, scale, to_lower, op_return_hash}

  abbrev pub is_op_return_hash : FullHash → Bool
  is_op_return_hash h = h == op_return_hash

  -- `account.unwrap_or(&TokenBalance::default())` and `entry(key).or_default()`
  abbrev pub or_default : Option (TokenBalance Fixed128) → TokenBalance Fixed128
  or_default none = default_balance env
  or_default (some b) = b

  abbrev pub min_amount : Fixed128 → Fixed128 → Fixed128
  min_amount a b = if ltb (units b) (units a) then b else a

  -- `holders.increase(...)` and `token_accounts.entry(key).or_default().balance += amt`
  unfoldable pub credit : AddressToken → Fixed128 → State Fixed128 → State Fixed128
  credit key amt s =
      let account = or_default (lookup key s.token_accounts) in
      record s {
        holders = increase_by env s.holders key account amt;
        cache = record (s.cache) {
          token_accounts =
              insert key (record account { balance = add account.balance amt }) s.token_accounts;
        };
      }

  unfoldable pub push_history : HistoryTokenAction Fixed128 → State Fixed128 → State Fixed128
  push_history e s = record s { history = s.history ++ e ∷ [] }

  unfoldable pub set_token :
      LowerCaseTokenTick → TokenMeta Fixed128 → State Fixed128 → State Fixed128
  set_token k m s = record s { cache = record (s.cache) { tokens = insert k m s.tokens } }

  unfoldable pub process_deploy :
      InscriptionId → DeployProtoDb Fixed128 → FullHash → State Fixed128 → State Fixed128
  unfolding set_token push_history
  process_deploy genesis proto owner s =
      if contains (to_lower proto.tick) s.tokens
      then s
      else push_history
          (HistoryTokenAction.deploy proto.tick proto.max proto.lim proto.dec owner genesis.txid
            genesis.index)
          (set_token (to_lower proto.tick) (record { genesis = genesis; proto = proto }) s)

  -- The part of a mint behind its tests: `amt` is what is left to mint, or less.
  unfoldable pub mint_into :
      TokenMeta Fixed128
      → FullHash
      → LowerCaseTokenTick
      → Fixed128
      → Txid
      → ℕ
      → State Fixed128
      → State Fixed128
  unfolding credit set_token push_history
  mint_into token owner k asked txid vout s =
      let p = token.proto in
      let amt = min_amount asked (sub p.max p.supply) in
      let key : AddressToken = record { address = owner; token = p.tick } in
      let p' : DeployProtoDb Fixed128 = record p {
        supply = add p.supply amt;
        transactions = next_u32 p.transactions;
        mint_count = next_u64 p.mint_count;
      } in
      push_history (HistoryTokenAction.mint p.tick amt owner txid vout)
        (credit key amt (set_token k (record token { proto = p' }) s))

  unfoldable pub process_mint :
      FullHash → MintProtoWrapper Fixed128 → Txid → ℕ → State Fixed128 → State Fixed128
  unfolding mint_into
  process_mint owner proto txid vout s = elim (lookup (to_lower proto.tick) s.tokens) [
    | none ↦ s
    | some token ↦
        if ltb token.proto.dec (scale proto.amt)
          || ltb (units token.proto.lim) (units proto.amt)
          || units token.proto.supply == units token.proto.max
        then s
        else mint_into token owner (to_lower proto.tick) proto.amt txid vout s
  ]

  -- The part of a transfer's inscription behind its tests.
  unfoldable pub lock :
      TokenMeta Fixed128
      → TokenBalance Fixed128
      → TransferProtoDb Fixed128
      → Location
      → FullHash
      → LowerCaseTokenTick
      → Fixed128
      → Txid
      → ℕ
      → State Fixed128
      → State Fixed128
  unfolding set_token push_history
  lock token account stored location owner k amt txid vout s =
      let p = token.proto in
      let key : AddressToken = record { address = owner; token = p.tick } in
      let account' : TokenBalance Fixed128 = record {
        balance = sub account.balance amt;
        transferable_balance = add account.transferable_balance amt;
        transfers_count = next_u64 account.transfers_count;
      } in
      let p' : DeployProtoDb Fixed128 = record p {
        transfer_count = next_u64 p.transfer_count;
        transactions = next_u32 p.transactions;
      } in
      let cache' : TokenCache Fixed128 = record (s.cache) {
        token_accounts = insert key account' s.token_accounts;
        valid_transfers =
            insert location (owner, record stored { tick = p.tick }) s.valid_transfers;
      } in
      push_history (HistoryTokenAction.deploy_transfer p.tick amt owner txid vout)
        (set_token k (record token { proto = p' }) (record s { cache = cache' }))

  unfoldable pub process_transfer :
      Location → FullHash → MintProtoWrapper Fixed128 → Txid → ℕ → State Fixed128 → State Fixed128
  unfolding lock
  process_transfer location owner proto txid vout s = elim (lookup location s.all_transfers) [
    | none ↦ s
    | some stored ↦
        let s' : State Fixed128 = record s {
          cache = record (s.cache) { all_transfers = erase location s.all_transfers };
        } in
        elim (lookup (to_lower proto.tick) s.tokens) [
          | none ↦ s'
          | some token ↦
              if ltb token.proto.dec (scale proto.amt)
              then s'
              else elim (lookup (record { address = owner; token = token.proto.tick })
                  s.token_accounts) [
                    | none ↦ s'
                    | some account ↦
                        if ltb (units account.balance) (units proto.amt)
                        then s'
                        else lock token account stored location owner (to_lower proto.tick)
                            proto.amt txid vout s'
                  ]
        ]
  ]

  -- The part of a move behind its lookups: the sender loses what was locked, and the recipient, if
  -- it is not the mark of a burn, gains it.
  unfoldable pub settle :
      TokenMeta Fixed128
      → TokenBalance Fixed128
      → FullHash
      → FullHash
      → LowerCaseTokenTick
      → Fixed128
      → Txid
      → ℕ
      → State Fixed128
      → State Fixed128
  unfolding credit set_token push_history
  settle token account sender recipient k amt txid vout s =
      let p = token.proto in
      let old_key : AddressToken = record { address = sender; token = p.tick } in
      let account' : TokenBalance Fixed128 = record account {
        transferable_balance = sub account.transferable_balance amt;
        transfers_count = account.transfers_count - 1;
      } in
      let p' : DeployProtoDb Fixed128 = record p { transactions = next_u32 p.transactions } in
      let debited : State Fixed128 = record s {
        holders = decrease_by env s.holders old_key account amt;
        cache = record (s.cache) { token_accounts = insert old_key account' s.token_accounts };
      } in
      let counted = set_token k (record token { proto = p' }) debited in
      push_history (HistoryTokenAction.send p.tick amt recipient sender txid vout) (
        if is_op_return_hash recipient
        then counted
        else credit (record { address = recipient; token = p.tick }) amt counted)

  unfoldable pub process_transferred :
      Location → FullHash → Txid → ℕ → State Fixed128 → Option (State Fixed128)
  unfolding settle
  process_transferred transfer_location recipient txid vout s =
      elim (lookup transfer_location s.valid_transfers) [
        | none ↦ some s
        | some (sender, data') ↦ elim (lookup (to_lower data'.tick) s.tokens) [
          | none ↦ none
          | some token ↦
              elim (lookup (record { address = sender; token = token.proto.tick })
                s.token_accounts) [
                  | none ↦ none
                  | some account ↦
                      if account.transfers_count == 0
                        || ltb (units account.transferable_balance) (units data'.amt)
                      then none
                      else some (
                          settle token account sender recipient (to_lower data'.tick) data'.amt txid
                            vout
                            (record s {
                              cache = record (s.cache) {
                                valid_transfers = erase transfer_location s.valid_transfers;
                              };
                            }))
                ]
        ]
      ]

  unfoldable pub step : TokenAction Fixed128 → State Fixed128 → Option (State Fixed128)
  step (TokenAction.deploy genesis proto owner) s = some (process_deploy genesis proto owner s)
  step (TokenAction.mint owner proto txid vout) s = some (process_mint owner proto txid vout s)
  step (TokenAction.transfer location owner proto txid vout) s =
      some (process_transfer location owner proto txid vout s)
  step (TokenAction.transferred location recipient txid vout) s =
      process_transferred location recipient txid vout s

  unfoldable pub run : List (TokenAction Fixed128) → State Fixed128 → Option (State Fixed128)
  run [] s = some s
  run (a ∷ actions) s = elim (step a s) [ none ↦ none | some s' ↦ run actions s' ]

  -- `process_token_actions`: the actions are drained, and `history` begins empty.
  unfoldable pub process_token_actions :
      TokenCache Fixed128 → Holders Fixed128 → Option (State Fixed128)
  unfolding run step
  process_token_actions cache h =
      run cache.token_actions
        (record { cache = record cache { token_actions = [] }; holders = h; history = [] })
