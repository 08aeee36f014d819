-- ===== src/Tokens/Load.antt =====
-- What src/tokens/parser.rs loads from the storage before a block is processed: load_tokens_data and
-- fill_tickers_and_users. A `HashSet` is a list, in which a repeated element does no harm.
use bel_20_indexer.Storage.Table.{multi_get_kv, has, lookup-multi_get_kv}
use mathlib.Core.Option.{some-injective}
use bel_20_indexer.Prelude.{
  ◌≡◌, refl, arith, true, Option, none, some, List, [], ◌∷◌, ◌++◌, nat_eq, list_eq, if◌then◌else◌,
  Eq, eq_self, match_rule, ◌∙◌, subst, sym,
}
use bel_20_indexer.Map.{Map, lookup}
use bel_20_indexer.Env.{Env}
use bel_20_indexer.Tokens.Types.{
  FullHash, OriginalTokenTick, LowerCaseTokenTick, Location, location_eq, AddressToken,
  address_token_eq, TokenMeta, TokenBalance, TransferProtoDb, TokenAction, TokenCache,
}
use bel_20_indexer.Tokens.Process.{is_op_return_hash}

none≢some : {A : Type 0} {a : A} → none ≡ some a → ⊥
none≢some e = cc

-- The element is in the list.
pub data Elem {A : Type 0} (a : A) : List A → Type 0 where
  at_head : (xs : List A) → Elem a (a ∷ xs)
  in_tail : (x : A) (xs : List A) → Elem a xs → Elem a (x ∷ xs)

module _ {A : Type 0} (a : A) where
  pub Elem-append : (xs ys : List A) → Elem a xs → Elem a (xs ++ ys)
  Elem-append _ ys (at_head xs) = at_head (xs ++ ys)
  Elem-append _ ys (in_tail x xs m) = in_tail x (xs ++ ys) (Elem-append xs ys m)

  pub Elem-prepend : (xs ys : List A) → Elem a ys → Elem a (xs ++ ys)
  Elem-prepend [] ys m = m
  Elem-prepend (x ∷ xs) ys m = in_tail x (xs ++ ys) (Elem-prepend xs ys m)

Elem-has : {A : Type 0} ⦃e : Eq A⦄ (a : A) (xs : List A) → Elem a xs → has a xs ≡ true
Elem-has a _ (at_head xs) = rw (eq_self a) refl
Elem-has a _ (in_tail x xs m) = ground (arith, Elem-has a xs m)

module _ (env : Env) where
  open env use {Fixed128, to_lower}

  -- The transfer that a move finds: the one of this block's inscriptions, or a pending one.
  abbrev pub moved_proto : TokenCache Fixed128 → Location → Option (TransferProtoDb Fixed128)
  moved_proto c l = elim (lookup l c.all_transfers) [
    | some x ↦ some x
    | none ↦ elim (lookup l c.valid_transfers) [ none ↦ none | some x ↦ some x.1 ]
  ]

  abbrev pub sender_of :
      TokenCache Fixed128 → Location → OriginalTokenTick → List (FullHash × OriginalTokenTick)
  sender_of c l tick = elim (lookup l c.valid_transfers) [
    | none ↦ []
    | some transfer ↦ (transfer.0, tick) ∷ []
  ]

  -- What one action adds to `tickers` and to `users`.
  unfoldable pub tickers_of : TokenCache Fixed128 → TokenAction Fixed128 → List LowerCaseTokenTick
  tickers_of c (TokenAction.deploy genesis proto owner) = to_lower proto.tick ∷ []
  tickers_of c (TokenAction.mint owner proto txid vout) = to_lower proto.tick ∷ []
  tickers_of c (TokenAction.transfer location owner proto txid vout) = to_lower proto.tick ∷ []
  tickers_of c (TokenAction.transferred transfer_location recipient txid vout) =
      elim (moved_proto c transfer_location) [ none ↦ [] | some p ↦ to_lower p.tick ∷ [] ]

  unfoldable pub users_of :
      TokenCache Fixed128 → TokenAction Fixed128 → List (FullHash × OriginalTokenTick)
  users_of c (TokenAction.deploy genesis proto owner) = []
  users_of c (TokenAction.mint owner proto txid vout) = (owner, proto.tick) ∷ []
  users_of c (TokenAction.transfer location owner proto txid vout) = (owner, proto.tick) ∷ []
  users_of c (TokenAction.transferred transfer_location recipient txid vout) =
      elim (moved_proto c transfer_location) [
        | none ↦ []
        | some p ↦
            (if is_op_return_hash env recipient then [] else (recipient, p.tick) ∷ [])
            ++ sender_of c transfer_location p.tick
      ]

  unfoldable pub fill_tickers :
      TokenCache Fixed128 → List (TokenAction Fixed128) → List LowerCaseTokenTick
  fill_tickers c [] = []
  fill_tickers c (a ∷ actions) = tickers_of c a ++ fill_tickers c actions

  unfoldable pub fill_users :
      TokenCache Fixed128 → List (TokenAction Fixed128) → List (FullHash × OriginalTokenTick)
  fill_users c [] = []
  fill_users c (a ∷ actions) = users_of c a ++ fill_users c actions

  -- The keys of the accounts of `users`, whose tokens are registered.
  unfoldable pub account_keys :
      Map LowerCaseTokenTick (TokenMeta Fixed128)
      → List (FullHash × OriginalTokenTick)
      → List AddressToken
  account_keys tokens [] = []
  account_keys tokens (u ∷ users) = elim (lookup (to_lower u.1) tokens) [
    | none ↦ account_keys tokens users
    | some m ↦ record { address = u.0; token = m.proto.tick } ∷ account_keys tokens users
  ]

  module _ (token_to_meta : LowerCaseTokenTick → Option (TokenMeta Fixed128))
      (address_token_to_balance : AddressToken → Option (TokenBalance Fixed128)) where
    unfoldable pub load_tokens_data : TokenCache Fixed128 → TokenCache Fixed128
    load_tokens_data c =
        let tokens = multi_get_kv token_to_meta (fill_tickers c c.token_actions) in
        record c {
          tokens = tokens;
          token_accounts =
              multi_get_kv address_token_to_balance
                (account_keys tokens (fill_users c c.token_actions));
        }

    -- The tickers and the accounts of an action, as the storage has them.
    pub record IsLoaded (c c' : TokenCache Fixed128) (a : TokenAction Fixed128) : Type 0 where
      pub tickers_ok :
          (k : LowerCaseTokenTick) → Elem k (tickers_of c a) → lookup k c'.tokens ≡ token_to_meta k
      pub accounts_ok :
          (u : FullHash × OriginalTokenTick) (m : TokenMeta Fixed128)
          → Elem u (users_of c a)
          → lookup (to_lower u.1) c'.tokens ≡ some m
          → lookup (record { address = u.0; token = m.proto.tick }) c'.token_accounts
            ≡ address_token_to_balance (record { address = u.0; token = m.proto.tick })

    Elem-fill_tickers :
        (c : TokenCache Fixed128) (a : TokenAction Fixed128) (k : LowerCaseTokenTick)
        (actions : List (TokenAction Fixed128))
        → Elem a actions
        → Elem k (tickers_of c a)
        → Elem k (fill_tickers c actions)
    unfolding fill_tickers
    Elem-fill_tickers c a k _ (at_head as') h =
        Elem-append k (tickers_of c a) (fill_tickers c as') h
    Elem-fill_tickers c a k _ (in_tail b as' m) h =
        Elem-prepend k (tickers_of c b) (fill_tickers c as') (Elem-fill_tickers c a k as' m h)

    Elem-fill_users :
        (c : TokenCache Fixed128) (a : TokenAction Fixed128) (u : FullHash × OriginalTokenTick)
        (actions : List (TokenAction Fixed128))
        → Elem a actions
        → Elem u (users_of c a)
        → Elem u (fill_users c actions)
    unfolding fill_users
    Elem-fill_users c a u _ (at_head as') h = Elem-append u (users_of c a) (fill_users c as') h
    Elem-fill_users c a u _ (in_tail b as' m) h =
        Elem-prepend u (users_of c b) (fill_users c as') (Elem-fill_users c a u as' m h)

    Elem-account_keys :
        (tokens : Map LowerCaseTokenTick (TokenMeta Fixed128)) (u : FullHash × OriginalTokenTick)
        (users : List (FullHash × OriginalTokenTick)) (m : TokenMeta Fixed128)
        → Elem u users
        → lookup (to_lower u.1) tokens ≡ some m
        → Elem (record { address = u.0; token = m.proto.tick }) (account_keys tokens users)
    unfolding account_keys
    Elem-account_keys tokens u _ m (at_head us) e =
        match_rule (Elem (record { address = u.0; token = m.proto.tick }))
          (lookup (to_lower u.1) tokens) (account_keys tokens us)
          (λ n. record { address = u.0; token = n.proto.tick } ∷ account_keys tokens us)
          (λ absent. absurd (none≢some (sym absent ∙ e)))
          (λ n found.
            subst
              (λ (x : TokenMeta Fixed128).
                Elem {A = AddressToken} (record { address = u.0; token = m.proto.tick })
                  (record { address = u.0; token = x.proto.tick } ∷ account_keys tokens us))
              (some-injective _ _ (sym e ∙ found)) (at_head (account_keys tokens us)))
    Elem-account_keys tokens u _ m (in_tail v us h) e =
        match_rule (Elem (record { address = u.0; token = m.proto.tick }))
          (lookup (to_lower v.1) tokens) (account_keys tokens us)
          (λ n. record { address = v.0; token = n.proto.tick } ∷ account_keys tokens us)
          (λ _. Elem-account_keys tokens u us m h e)
          (λ n _. in_tail _ _ (Elem-account_keys tokens u us m h e))

    -- What is loaded for a block is enough for each of its actions: the tickers that the action adds
    -- are loaded as the storage has them, and so is each account of its users in a loaded token.
    pub load_tokens_data-IsLoaded :
        (c : TokenCache Fixed128) (a : TokenAction Fixed128)
        → Elem a c.token_actions
        → IsLoaded c (load_tokens_data c) a
    unfolding load_tokens_data
    load_tokens_data-IsLoaded c a here = record {
      tickers_ok = λ k h.
          let asked =
            Elem-has k (fill_tickers c c.token_actions)
              (Elem-fill_tickers c a k c.token_actions here h) in
          lookup-multi_get_kv token_to_meta (fill_tickers c c.token_actions) k ∙ rw asked refl;
      accounts_ok = λ u m h found.
          let tokens = multi_get_kv token_to_meta (fill_tickers c c.token_actions) in
          let key : AddressToken = record { address = u.0; token = m.proto.tick } in
          let keys = account_keys tokens (fill_users c c.token_actions) in
          let asked = Elem-has key keys (
            Elem-account_keys tokens u (fill_users c c.token_actions) m
              (Elem-fill_users c a u c.token_actions here h) found) in
          lookup-multi_get_kv address_token_to_balance keys key ∙ rw asked refl;
    }
