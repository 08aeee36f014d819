-- ===== src/Tokens/Terms.antt =====
-- What the actions of src/tokens/parser.rs never change: the terms of a registered token, and a
-- transfer that has been spent.
use mathlib.Core.Option.{some-injective}
use bel_20_indexer.Prelude.{
  ℕ, ◌≡◌, refl, none, some, arith, Option, List, [], ◌∷◌, ◌==◌, nat_eq, list_eq, Bool-cases, inl,
  inr, Returns, if_rule, match_rule, ltb, ◌||◌, ◌∙◌, subst,
}
use bel_20_indexer.Map.{Map, lookup, insert, erase, lookup-insert, contains-false}
use bel_20_indexer.Env.{Env}
use bel_20_indexer.Tokens.Types.{
  TokenMeta, LowerCaseTokenTick, lower_eq_iff, FullHash, InscriptionId, DeployProtoDb, TokenAction,
  Location, location_eq, Txid, MintProtoWrapper, TransferProtoDb, address_token_eq, TokenBalance,
}
use bel_20_indexer.Tokens.Process.{
  State, process_deploy, process_mint, process_transfer, process_transferred, step, run, mint_into,
  lock, settle,
}

module _ (env : Env) where
  open env use {Fixed128, units, scale, to_lower, op_return_hash}

  -- Everything that a deployment fixes.
  pub record SameTerms (m m' : TokenMeta Fixed128) : Type 0 where
    pub genesis_ok : m'.genesis ≡ m.genesis
    pub tick_ok : m'.proto.tick ≡ m.proto.tick
    pub max_ok : m'.proto.max ≡ m.proto.max
    pub lim_ok : m'.proto.lim ≡ m.proto.lim
    pub dec_ok : m'.proto.dec ≡ m.proto.dec
    pub height_ok : m'.proto.height ≡ m.proto.height
    pub created_ok : m'.proto.created ≡ m.proto.created
    pub deployer_ok : m'.proto.deployer ≡ m.proto.deployer

  pub record HasTerms (k : LowerCaseTokenTick) (m : TokenMeta Fixed128) (s : State Fixed128)
      : Type 0 where
    pub terms : Returns (lookup k s.tokens) (SameTerms m)

  insert-HasTerms :
      (k j : LowerCaseTokenTick) (m old new : TokenMeta Fixed128)
      (t : Map LowerCaseTokenTick (TokenMeta Fixed128))
      → lookup j t ≡ some old
      → SameTerms old new
      → Returns (lookup k t) (SameTerms m)
      → Returns (lookup k (insert j new t)) (SameTerms m)
  insert-HasTerms k j m old new t found same h = elim (Bool-cases (j == k)) [
    | inl hit ↦
        let there : lookup k t ≡ some old = rw (← (lower_eq_iff j k).0 hit) found in
        rw (lookup-insert, hit, Returns) (chained (rw (there, Returns) at h))
    | inr miss ↦ rw (lookup-insert, miss) h
  ]
    where
      chained : SameTerms m old → SameTerms m new
      chained p = record {
        genesis_ok = same.genesis_ok ∙ p.genesis_ok;
        tick_ok = same.tick_ok ∙ p.tick_ok;
        max_ok = same.max_ok ∙ p.max_ok;
        lim_ok = same.lim_ok ∙ p.lim_ok;
        dec_ok = same.dec_ok ∙ p.dec_ok;
        height_ok = same.height_ok ∙ p.height_ok;
        created_ok = same.created_ok ∙ p.created_ok;
        deployer_ok = same.deployer_ok ∙ p.deployer_ok;
      }

  -- The counters and the supply are no terms.
  counted-SameTerms :
      (m : TokenMeta Fixed128) (supply : Fixed128) (transfer_count mint_count transactions : ℕ)
      → SameTerms m (record m {
        proto = record (m.proto) {
          supply = supply;
          transfer_count = transfer_count;
          mint_count = mint_count;
          transactions = transactions;
        };
      })
  counted-SameTerms m supply transfer_count mint_count transactions = ground arith

  module _ (k : LowerCaseTokenTick) (m : TokenMeta Fixed128) (s : State Fixed128)
      (h : HasTerms k m s) where
    module _ (j : LowerCaseTokenTick) (token : TokenMeta Fixed128)
        (found : lookup j s.tokens ≡ some token) where
      mint_into-HasTerms :
          (owner : FullHash) (asked : Fixed128) (txid : Txid) (vout : ℕ)
          → HasTerms k m (mint_into env token owner j asked txid vout s)
      unfolding mint_into
      mint_into-HasTerms owner asked txid vout = record {
        terms =
            insert-HasTerms k j m token _ s.tokens found (counted-SameTerms token _ _ _ _) h.terms;
      }

      lock-HasTerms :
          (account : TokenBalance Fixed128) (stored : TransferProtoDb Fixed128)
          (location : Location) (owner : FullHash) (amt : Fixed128) (txid : Txid) (vout : ℕ)
          (s' : State Fixed128)
          → s'.tokens ≡ s.tokens
          → HasTerms k m (lock env token account stored location owner j amt txid vout s')
      unfolding lock
      lock-HasTerms account stored location owner amt txid vout s' e = record {
        terms = rw e (
            insert-HasTerms k j m token _ s.tokens found (counted-SameTerms token _ _ _ _) h.terms);
      }

      settle-HasTerms :
          (account : TokenBalance Fixed128) (sender recipient : FullHash) (amt : Fixed128)
          (txid : Txid) (vout : ℕ) (s' : State Fixed128)
          → s'.tokens ≡ s.tokens
          → HasTerms k m (settle env token account sender recipient j amt txid vout s')
      unfolding settle
      settle-HasTerms account sender recipient amt txid vout s' e =
          elim (Bool-cases (recipient == op_return_hash)) [
            | inl burn ↦ record {
              terms =
                  rw (burn, e)
                    (insert-HasTerms k j m token _ s.tokens found (counted-SameTerms token _ _ _ _)
                      h.terms);
            }
            | inr keep ↦ record {
              terms =
                  rw (keep, e)
                    (insert-HasTerms k j m token _ s.tokens found (counted-SameTerms token _ _ _ _)
                      h.terms);
            }
          ]

    process_deploy-HasTerms :
        (genesis : InscriptionId) (proto : DeployProtoDb Fixed128) (owner : FullHash)
        → HasTerms k m (process_deploy env genesis proto owner s)
    unfolding process_deploy
    process_deploy-HasTerms genesis proto owner =
        if_rule (HasTerms k m) _ _ _ (λ _. h)
          (λ fresh. elim (Bool-cases (to_lower proto.tick == k)) [
            | inl hit ↦ absurd (
                rw
                  (
                    ← (lower_eq_iff (to_lower proto.tick) k).0 hit,
                    contains-false (to_lower proto.tick) s.tokens fresh,
                    Returns,
                  )
                  at h.terms)
            | inr miss ↦ record { terms = rw (lookup-insert, miss) h.terms }
          ])

    process_mint-HasTerms :
        (owner : FullHash) (proto : MintProtoWrapper Fixed128) (txid : Txid) (vout : ℕ)
        → HasTerms k m (process_mint env owner proto txid vout s)
    unfolding process_mint
    process_mint-HasTerms owner proto txid vout =
        match_rule (HasTerms k m) (lookup (to_lower proto.tick) s.tokens) _ _ (λ _. h)
          (λ token found.
            if_rule (HasTerms k m) _ _ _ (λ _. h)
              (λ _. mint_into-HasTerms (to_lower proto.tick) token found owner proto.amt txid vout))

    process_transfer-HasTerms :
        (location : Location) (owner : FullHash) (proto : MintProtoWrapper Fixed128) (txid : Txid)
        (vout : ℕ)
        → HasTerms k m (process_transfer env location owner proto txid vout s)
    unfolding process_transfer
    process_transfer-HasTerms location owner proto txid vout =
        match_rule (HasTerms k m) (lookup location s.all_transfers) _ _ (λ _. h)
          (λ stored _.
            match_rule (HasTerms k m) (lookup (to_lower proto.tick) s.tokens) taken _ (λ _. skipped)
              (λ token found.
                if_rule (HasTerms k m) (ltb token.proto.dec (scale proto.amt)) taken _
                  (λ _. skipped)
                  (λ _.
                    match_rule (HasTerms k m)
                      (lookup (record { address = owner; token = token.proto.tick })
                        s.token_accounts)
                      taken _ (λ _. skipped)
                      (λ account _.
                        if_rule (HasTerms k m) (ltb (units account.balance) (units proto.amt)) taken
                          _ (λ _. skipped)
                          (λ _.
                            lock-HasTerms (to_lower proto.tick) token found account stored location
                              owner proto.amt txid vout taken refl)))))
      where
        taken : State Fixed128
        taken = record s {
          cache = record (s.cache) { all_transfers = erase location s.all_transfers };
        }

        skipped : HasTerms k m taken
        skipped = record { terms = h.terms }

    record Kept (o : Option (State Fixed128)) : Type 0 where
      kept : (s' : State Fixed128) → o ≡ some s' → HasTerms k m s'

    some-Kept : (s' : State Fixed128) → HasTerms k m s' → Kept (some s')
    some-Kept s' p = record { kept = λ t e. subst (HasTerms k m) (some-injective _ _ e) p }

    none-Kept : Kept none
    none-Kept = record { kept = λ t e. cc }

    process_transferred-HasTerms :
        (location : Location) (recipient : FullHash) (txid : Txid) (vout : ℕ)
        → Kept (process_transferred env location recipient txid vout s)
    unfolding process_transferred
    process_transferred-HasTerms location recipient txid vout =
        match_rule Kept (lookup location s.valid_transfers) _ _ (λ _. some-Kept s h)
          (λ p _.
            match_rule Kept (lookup (to_lower p.1.tick) s.tokens) _ _ (λ _. none-Kept)
              (λ token found.
                match_rule Kept (lookup _ s.token_accounts) _ _ (λ _. none-Kept)
                  (λ account _.
                    if_rule Kept
                      (account.transfers_count == 0
                        || ltb (units account.transferable_balance) (units p.1.amt))
                      none _ (λ _. none-Kept)
                      (λ _. some-Kept _ (
                        settle-HasTerms (to_lower p.1.tick) token found account p.0 recipient
                          p.1.amt txid vout
                          (record s {
                            cache = record (s.cache) {
                              valid_transfers = erase location s.valid_transfers;
                            };
                          })
                          refl)))))

    step-HasTerms : (a : TokenAction Fixed128) → Kept (step env a s)
    unfolding step
    step-HasTerms (TokenAction.deploy genesis proto owner) =
        some-Kept _ (process_deploy-HasTerms genesis proto owner)
    step-HasTerms (TokenAction.mint owner proto txid vout) =
        some-Kept _ (process_mint-HasTerms owner proto txid vout)
    step-HasTerms (TokenAction.transfer location owner proto txid vout) =
        some-Kept _ (process_transfer-HasTerms location owner proto txid vout)
    step-HasTerms (TokenAction.transferred location recipient txid vout) =
        process_transferred-HasTerms location recipient txid vout

  run_on :
      (actions : List (TokenAction Fixed128)) (k : LowerCaseTokenTick) (m : TokenMeta Fixed128)
      (s' : State Fixed128) (o : Option (State Fixed128))
      → ((t : State Fixed128) → HasTerms k m t → run env actions t ≡ some s' → HasTerms k m s')
      → ((t : State Fixed128) → o ≡ some t → HasTerms k m t)
      → elim o [ none ↦ none | some t ↦ run env actions t ] ≡ some s'
      → HasTerms k m s'
  run_on actions k m s' none ih h e = cc
  run_on actions k m s' (some t) ih h e = ih t (h t refl) e

  -- Once a token is registered under a lower-case tick, no run of actions unregisters it or changes
  -- its genesis, tick, maximum, limit, decimals, height, time or deployer: a later deployment of the
  -- same tick is ignored. (That a run returns is `process_token_actions-IsSound`.)
  pub run-HasTerms :
      (actions : List (TokenAction Fixed128)) (k : LowerCaseTokenTick) (m : TokenMeta Fixed128)
      (s s' : State Fixed128)
      → HasTerms k m s
      → run env actions s ≡ some s'
      → HasTerms k m s'
  unfolding run
  run-HasTerms [] k m s s' h e = subst (HasTerms k m) (some-injective _ _ e) h
  run-HasTerms (a ∷ actions) k m s s' h e =
      run_on actions k m s' (step env a s) (λ t h' e'. run-HasTerms actions k m t s' h' e')
        (step-HasTerms k m s h a).kept e
