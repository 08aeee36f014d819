-- ===== src/Tokens/Queue.antt =====
-- The messages that src/tokens/parser.rs turns into actions, and the cache that waits for a block to
-- be processed.
use bel_20_indexer.Env.{Env, max_units}
use bel_20_indexer.Prelude.{
  ℕ, suc, ◌+◌, ◌≤◌, ◌≡◌, ◌≢◌, ◌↔◌, refl, arith, true, false, Option, none, some, List, [], ◌∷◌,
  ◌++◌, ◌==◌, nat_eq, All, All-append, length, length-append, Returns, subst, ap, sym, Bool-cases,
  inl, inr, match_rule, ◌∙◌, if_rule,
}
use bel_20_indexer.Map.{insert, lookup-insert, lookup-insert_self}
use bel_20_indexer.Tokens.Types.{
  Location, location_eq, TokenAction, TokenCache, TransferProtoDb, MintProtoWrapper,
}
use bel_20_indexer.Tokens.Proto.{
  Blockchain, Brc4, DeployProto, TransferProto, DeployProtoWrapper, Result, ok, err, mint_value,
  deploy_value, transfer_value, lim_or, max_dec, accepts_content_type, check_brc4, try_parse,
}
use bel_20_indexer.Tokens.Parse.{InscriptionTemplate, add_brc4, from_proto, parse_token_action}
use bel_20_indexer.Tokens.Sound.{IsSound, IsSound-weaken}
use bel_20_indexer.Tokens.Ledger.{FitsAction, IsReady, Stored}

module _ (env : Env) (chain : Blockchain) where
  open env use {Fixed128, units, zero_amount, units-zero_amount, op_return_hash}

  -- A message of the chain, whose amounts are not zero and whose decimals are at most 18.
  abbrev pub IsValidMessage : Brc4 Fixed128 → Type 0
  IsValidMessage (Brc4.mint proto) = Returns (mint_value chain proto) (λ v. units v.amt ≢ 0)
  IsValidMessage (Brc4.transfer proto) = Returns (transfer_value chain proto) (λ v. units v.amt ≢ 0)
  IsValidMessage (Brc4.deploy proto) =
      Returns (deploy_value chain proto)
        (λ v. (v.dec ≤ max_dec) × (units v.max ≢ 0) × (units (lim_or env v.lim v.max) ≢ 0))

  check_brc4_iff :
      (b b' : Brc4 Fixed128) → (check_brc4 env chain b ≡ ok b') ↔ ((b ≡ b') × IsValidMessage b)
  unfolding check_brc4
  check_brc4_iff (Brc4.mint proto) b' = ground arith
  check_brc4_iff (Brc4.transfer proto) b' = ground arith
  check_brc4_iff (Brc4.deploy proto) b' = ground arith

  ok-injective : (b b' : Brc4 Fixed128) → ok b ≡ ok b' → b ≡ b'
  ok-injective b b' e = ground arith

  checked_iff :
      (r : Result (Brc4 Fixed128)) (b : Brc4 Fixed128)
      → (elim r [ ok brc4 ↦ check_brc4 env chain brc4 | err e ↦ err e ] ≡ ok b)
        ↔ ((r ≡ ok b) × IsValidMessage b)
  checked_iff (ok b') b = (
    λ h. let p = (check_brc4_iff b' b).0 h in (ap ok p.0, subst IsValidMessage p.0 p.1),
    λ p.
        (check_brc4_iff b' b).1
          (ok-injective b' b p.0, subst IsValidMessage (sym (ok-injective b' b p.0)) p.1),
  )
  checked_iff (err e) b = (λ h. ground arith, λ p. ground (arith, p.0))

  pub try_parse_iff :
      (decode : List ℕ → Result (Brc4 Fixed128)) (content_type content : List ℕ) (b : Brc4 Fixed128)
      → (try_parse env chain decode content_type content ≡ ok b) ↔ (
          (accepts_content_type chain content_type ≡ true)
          × (decode content ≡ ok b)
          × IsValidMessage b)
  unfolding try_parse
  try_parse_iff decode content_type content b =
      elim (Bool-cases (accepts_content_type chain content_type)) [
        | inl hit ↦ rw hit (
          λ h. let p = (checked_iff (decode content) b).0 h in (refl, p.0, p.1),
          λ p. (checked_iff (decode content) b).1 (p.1, p.2),
        )
        | inr miss ↦ rw miss (λ h. ground arith, λ p. ground (arith, p.0))
      ]

  -- The decimals of a message are validated when it is decoded.
  abbrev pub FitsMessage : Brc4 Fixed128 → Type 0
  FitsMessage (Brc4.deploy (DeployProto.bel20 v)) = units v.max ≤ max_units
  FitsMessage (Brc4.deploy (DeployProto.drc20 v)) = units v.max ≤ max_units
  FitsMessage (Brc4.deploy (DeployProto.prc20 v)) = units v.max ≤ max_units
  FitsMessage (Brc4.deploy (DeployProto.ltc20 v)) = units v.max ≤ max_units
  FitsMessage _ = Unit

  -- No transfer waits at a location.
  abbrev pub IsFree : Location → TokenAction Fixed128 → Type 0
  IsFree l (TokenAction.transfer location _ _ _ _) = (l == location) ≡ false
  IsFree l _ = Unit

  deploy_value-fits :
      (proto : DeployProto Fixed128)
      → FitsMessage (Brc4.deploy proto)
      → (v : DeployProtoWrapper Fixed128) → deploy_value chain proto ≡ some v
      → units v.max ≤ max_units
  unfolding deploy_value
  deploy_value-fits (DeployProto.bel20 w) fits v e = ground arith
  deploy_value-fits (DeployProto.drc20 w) fits v e = ground arith
  deploy_value-fits (DeployProto.prc20 w) fits v e = ground arith
  deploy_value-fits (DeployProto.ltc20 w) fits v e = ground arith

  insert-FitsAction :
      (l : Location) (stored : TransferProtoDb Fixed128) (kept : Stored env)
      (as' : List (TokenAction Fixed128))
      → All (IsFree l) as'
      → All (FitsAction env kept) as'
      → All (FitsAction env (insert l stored kept)) as'
  insert-FitsAction l stored kept [] free fits = tt
  insert-FitsAction l stored kept (TokenAction.transfer location o p x y ∷ as') free fits = (
    λ st e. fits.0 st (rw (lookup-insert, free.0) at e),
    insert-FitsAction l stored kept as' free.1 fits.1,
  )
  insert-FitsAction l stored kept (TokenAction.deploy g p o ∷ as') free fits =
      (fits.0, insert-FitsAction l stored kept as' free.1 fits.1)
  insert-FitsAction l stored kept (TokenAction.mint o p x y ∷ as') free fits =
      (tt, insert-FitsAction l stored kept as' free.1 fits.1)
  insert-FitsAction l stored kept (TokenAction.transferred o p x y ∷ as') free fits =
      (tt, insert-FitsAction l stored kept as' free.1 fits.1)

  -- A cache that is ready for as many actions as it holds and one more.
  abbrev pub HasRoom : TokenCache Fixed128 → Type 0
  HasRoom c =
      IsSound env (suc (length c.token_actions)) c.tokens c.token_accounts c.valid_transfers
      × All (FitsAction env c.all_transfers) c.token_actions

  HasRoom-IsReady : (c : TokenCache Fixed128) → HasRoom c → IsReady env c
  HasRoom-IsReady c h = (IsSound-weaken env h.0, h.1)

  push-IsReady :
      (c c' : TokenCache Fixed128) (a : TokenAction Fixed128)
      → c'.tokens ≡ c.tokens
      → c'.token_accounts ≡ c.token_accounts
      → c'.valid_transfers ≡ c.valid_transfers
      → c'.token_actions ≡ c.token_actions ++ a ∷ []
      → HasRoom c
      → All (FitsAction env c'.all_transfers) c.token_actions
      → FitsAction env c'.all_transfers a
      → IsReady env c'
  push-IsReady c c' a e1 e2 e3 e4 h fits last =
      rw (e1, e2, e3, e4)
        (
          subst (λ (n : ℕ). IsSound env n c.tokens c.token_accounts c.valid_transfers)
              (sym (length-append c.token_actions (a ∷ [])) ∙ refl) (one_more h.0),
          All-append (FitsAction env c'.all_transfers) c.token_actions (a ∷ []) (last, tt) fits,
        )
    where
      one_more :
          IsSound env (suc (length c.token_actions)) c.tokens c.token_accounts c.valid_transfers
          → IsSound env (length c.token_actions + 1) c.tokens c.token_accounts c.valid_transfers
      one_more =
          subst (λ (n : ℕ). IsSound env n c.tokens c.token_accounts c.valid_transfers) (omega arith)

  module _ (inc : InscriptionTemplate) (height created : ℕ) (c : TokenCache Fixed128)
      (room : HasRoom c) (free : All (IsFree inc.location) c.token_actions) where
    record Ready (r : TokenCache Fixed128 × Option (TransferProto Fixed128)) : Type 0 where
      ready : IsReady env r.0

    same-Ready : Ready (c, none)
    same-Ready = record { ready = HasRoom-IsReady c room }

    add_brc4-Ready :
        (b : Brc4 Fixed128) → FitsMessage b → Ready (add_brc4 env chain inc height created b c)
    unfolding add_brc4
    add_brc4-Ready (Brc4.deploy proto) fits =
        match_rule Ready (deploy_value chain proto) (c, none) _ (λ _. same-Ready)
          (λ v e. record {
            ready =
                push-IsReady c _ _ refl refl refl refl room room.1
                  (units-zero_amount, deploy_value-fits proto fits v e);
          })
    add_brc4-Ready (Brc4.mint proto) fits =
        match_rule Ready (mint_value chain proto) (c, none) _ (λ _. same-Ready)
          (λ v e. record { ready = push-IsReady c _ _ refl refl refl refl room room.1 tt })
    add_brc4-Ready (Brc4.transfer proto) fits =
        match_rule Ready (transfer_value chain proto) (c, none) _ (λ _. same-Ready)
          (λ v e.
            rw (from_proto, e)
              (record {
                ready =
                    push-IsReady c _ _ refl refl refl refl room
                      (insert-FitsAction inc.location (kept_of v) c.all_transfers c.token_actions
                        free room.1)
                      (λ stored found. ground (
                        arith,
                        found,
                        lookup-insert_self inc.location (kept_of v) c.all_transfers,
                      ));
              }))
      where
        kept_of : MintProtoWrapper Fixed128 → TransferProtoDb Fixed128
        kept_of v = record { tick = v.tick; amt = v.amt; height = height }

  -- Reading an inscription keeps the cache ready, so that processing it will not panic, if decimals
  -- are validated when messages are decoded, a count of transfers has room for one more, and no
  -- transfer waits already at the location of the inscription.
  pub parse_token_action-IsReady :
      (decode : List ℕ → Result (Brc4 Fixed128)) (inc : InscriptionTemplate) (height created : ℕ)
      (c : TokenCache Fixed128)
      → ((content : List ℕ) (b : Brc4 Fixed128) → decode content ≡ ok b → FitsMessage b)
      → HasRoom c
      → All (IsFree inc.location) c.token_actions
      → IsReady env (parse_token_action env chain decode inc height created c).0
  unfolding parse_token_action
  parse_token_action-IsReady decode inc height created c fits room free =
      (if_rule (Ready inc height created c room free) _ (c, none) _ (λ _. same)
        (λ _.
          match_rule (Ready inc height created c room free) inc.content_type (c, none) _ (λ _. same)
            (λ content_type _.
              match_rule (Ready inc height created c room free) inc.content (c, none) _ (λ _. same)
                (λ content _. read (try_parse env chain decode content_type content) (λ b e.
                  fits content b ((try_parse_iff decode content_type content b).0 e).1))))).ready
    where
      same : Ready inc height created c room free (c, none)
      same = same-Ready inc height created c room free

      read :
          (r : Result (Brc4 Fixed128))
          → ((b : Brc4 Fixed128) → r ≡ ok b → FitsMessage b)
          → Ready inc height created c room free
              (elim r [ err e ↦ (c, none) | ok b ↦ add_brc4 env chain inc height created b c ])
      read (err e) h = same
      read (ok b) h = add_brc4-Ready inc height created c room free b (h b refl)
