-- ===== src/Tokens/Needs.antt =====
-- What src/tokens/parser.rs looks up for an action is loaded before: load_tokens_data against
-- process_token_actions.
use bel_20_indexer.Prelude.{
  ◌≡◌, refl, arith, false, some, Option, [], ◌∷◌, ◌++◌, nat_eq, if◌then◌else◌, ℕ, Option-cases, inl,
  inr, subst, sym, ap, list_eq,
}
use bel_20_indexer.Map.{lookup}
use bel_20_indexer.Env.{Env}
use bel_20_indexer.Tokens.Types.{
  FullHash, Txid, OriginalTokenTick, LowerCaseTokenTick, Location, location_eq, InscriptionId,
  DeployProtoDb, MintProtoWrapper, AddressToken, address_token_eq, TokenMeta, TokenBalance,
  TransferProtoDb, TokenAction, TokenCache,
}
use bel_20_indexer.Tokens.Process.{is_op_return_hash}
use bel_20_indexer.Tokens.Load.{
  Elem, at_head, tickers_of, users_of, load_tokens_data, load_tokens_data-IsLoaded, moved_proto,
  Elem-prepend,
}

module _ (env : Env) where
  open env use {Fixed128, to_lower}

  -- The tickers that the processing of an action looks up, as long as no action before it spends
  -- the transfer that it moves.
  pub data NeedsTicker (c : TokenCache Fixed128)
      : TokenAction Fixed128 → LowerCaseTokenTick → Type 0 where
    deploys :
        (genesis : InscriptionId) (proto : DeployProtoDb Fixed128) (owner : FullHash)
        → NeedsTicker c (TokenAction.deploy genesis proto owner) (to_lower proto.tick)
    mints :
        (owner : FullHash) (proto : MintProtoWrapper Fixed128) (txid : Txid) (vout : ℕ)
        → NeedsTicker c (TokenAction.mint owner proto txid vout) (to_lower proto.tick)
    transfers :
        (location : Location) (owner : FullHash) (proto : MintProtoWrapper Fixed128) (txid : Txid)
        (vout : ℕ)
        → NeedsTicker c (TokenAction.transfer location owner proto txid vout) (to_lower proto.tick)
    moves :
        (l : Location) (to : FullHash) (txid : Txid) (vout : ℕ)
        (p : FullHash × TransferProtoDb Fixed128)
        → lookup l c.valid_transfers ≡ some p
        → NeedsTicker c (TokenAction.transferred l to txid vout) (to_lower p.1.tick)

  -- The users, with a ticker, whose accounts it looks up or writes.
  pub data NeedsUser (c : TokenCache Fixed128)
      : TokenAction Fixed128 → FullHash → OriginalTokenTick → Type 0 where
    mints_for :
        (owner : FullHash) (proto : MintProtoWrapper Fixed128) (txid : Txid) (vout : ℕ)
        → NeedsUser c (TokenAction.mint owner proto txid vout) owner proto.tick
    locks_for :
        (location : Location) (owner : FullHash) (proto : MintProtoWrapper Fixed128) (txid : Txid)
        (vout : ℕ)
        → NeedsUser c (TokenAction.transfer location owner proto txid vout) owner proto.tick
    moves_from :
        (l : Location) (to : FullHash) (txid : Txid) (vout : ℕ)
        (p : FullHash × TransferProtoDb Fixed128)
        → lookup l c.valid_transfers ≡ some p
        → NeedsUser c (TokenAction.transferred l to txid vout) p.0 p.1.tick
    moves_to :
        (l : Location) (to : FullHash) (txid : Txid) (vout : ℕ)
        (p : FullHash × TransferProtoDb Fixed128)
        → lookup l c.valid_transfers ≡ some p
        → is_op_return_hash env to ≡ false
        → NeedsUser c (TokenAction.transferred l to txid vout) to p.1.tick

  -- A transfer that waits at the location of a pending one is of the same token.
  abbrev pub Agrees : TokenCache Fixed128 → Type 0
  Agrees c =
      (l : Location) (p : FullHash × TransferProtoDb Fixed128) (x : TransferProtoDb Fixed128)
      → lookup l c.valid_transfers ≡ some p
      → lookup l c.all_transfers ≡ some x
      → x.tick ≡ p.1.tick

  module _ (c : TokenCache Fixed128) (agrees : Agrees c) where
    moved :
        (l : Location) (p : FullHash × TransferProtoDb Fixed128)
        → lookup l c.valid_transfers ≡ some p
        → (x : TransferProtoDb Fixed128) × (moved_proto env c l ≡ some x) × (x.tick ≡ p.1.tick)
    moved l p e = elim (Option-cases (lookup l c.all_transfers)) [
      | inl absent ↦ (p.1, ground (arith, absent, e), refl)
      | inr there ↦ (there.0, ground (arith, there.1), agrees l p there.0 e there.1)
    ]

    -- The lists of a move that is found.
    tickers_of-moved :
        (l : Location) (to : FullHash) (txid : Txid) (vout : ℕ)
        (p : FullHash × TransferProtoDb Fixed128)
        → lookup l c.valid_transfers ≡ some p
        → tickers_of env c (TokenAction.transferred l to txid vout) ≡ to_lower p.1.tick ∷ []
    unfolding tickers_of
    tickers_of-moved l to txid vout p e =
        let x = moved l p e in ground (arith, x.1, ap to_lower x.2)

    users_of-moved :
        (l : Location) (to : FullHash) (txid : Txid) (vout : ℕ)
        (p : FullHash × TransferProtoDb Fixed128)
        → lookup l c.valid_transfers ≡ some p
        → users_of env c (TokenAction.transferred l to txid vout)
          ≡ (if is_op_return_hash env to then [] else (to, p.1.tick) ∷ []) ++ (p.0, p.1.tick) ∷ []
    unfolding users_of
    users_of-moved l to txid vout p e = let x = moved l p e in ground (arith, x.1, x.2, e)

    Elem-tickers_of :
        (a : TokenAction Fixed128) (k : LowerCaseTokenTick)
        → NeedsTicker c a k
        → Elem k (tickers_of env c a)
    unfolding tickers_of
    Elem-tickers_of _ _ (deploys genesis proto owner) = at_head []
    Elem-tickers_of _ _ (mints owner proto txid vout) = at_head []
    Elem-tickers_of _ _ (transfers location owner proto txid vout) = at_head []
    Elem-tickers_of _ _ (moves l to txid vout p e) =
        subst (Elem (to_lower p.1.tick)) (sym (tickers_of-moved l to txid vout p e)) (at_head [])

    Elem-users_of :
        (a : TokenAction Fixed128) (h : FullHash) (t : OriginalTokenTick)
        → NeedsUser c a h t
        → Elem (h, t) (users_of env c a)
    unfolding users_of
    Elem-users_of _ _ _ (mints_for owner proto txid vout) = at_head []
    Elem-users_of _ _ _ (locks_for location owner proto txid vout) = at_head []
    Elem-users_of _ _ _ (moves_from l to txid vout p e) =
        subst (Elem (p.0, p.1.tick)) (sym (users_of-moved l to txid vout p e)) (
          Elem-prepend (p.0, p.1.tick)
            (if is_op_return_hash env to then [] else (to, p.1.tick) ∷ []) ((p.0, p.1.tick) ∷ [])
            (at_head []))
    Elem-users_of _ _ _ (moves_to l to txid vout p e live) =
        subst (Elem (to, p.1.tick)) (sym (users_of-moved l to txid vout p e))
          (rw live (at_head ((p.0, p.1.tick) ∷ [])))

    module _ (token_to_meta : LowerCaseTokenTick → Option (TokenMeta Fixed128))
        (address_token_to_balance : AddressToken → Option (TokenBalance Fixed128)) where
      abbrev pub loaded : TokenCache Fixed128
      loaded = load_tokens_data env token_to_meta address_token_to_balance c

      -- What is loaded for a block has each ticker that the processing of one of its actions looks
      -- up as the storage has it, if a waiting transfer at the location of a pending one is of the
      -- same token.
      pub load_tokens_data-tickers :
          (a : TokenAction Fixed128) (k : LowerCaseTokenTick)
          → Elem a c.token_actions
          → NeedsTicker c a k
          → lookup k loaded.tokens ≡ token_to_meta k
      load_tokens_data-tickers a k here n =
          (load_tokens_data-IsLoaded env token_to_meta address_token_to_balance c a here).tickers_ok
            k (Elem-tickers_of a k n)

      pub load_tokens_data-accounts :
          (a : TokenAction Fixed128) (h : FullHash) (t : OriginalTokenTick) (m : TokenMeta Fixed128)
          → Elem a c.token_actions
          → NeedsUser c a h t
          → lookup (to_lower t) loaded.tokens ≡ some m
          → lookup (record { address = h; token = m.proto.tick }) loaded.token_accounts
            ≡ address_token_to_balance (record { address = h; token = m.proto.tick })
      load_tokens_data-accounts a h t m here n found =
          (load_tokens_data-IsLoaded env token_to_meta address_token_to_balance c a
              here).accounts_ok
            (h, t) m (Elem-users_of a h t n) found
