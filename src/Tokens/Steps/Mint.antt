-- ===== src/Tokens/Steps/Mint.antt =====
-- A mint of src/tokens/parser.rs: the supply and one balance grow by the minted amount, which is
-- at most what was left.
use bel_20_indexer.Prelude.{
  ℕ, ◌+◌, ◌≤◌, ◌≡◌, some, arith, ◌==◌, nat_eq, list_eq, if◌then◌else◌, if_rule, match_rule,
}
use bel_20_indexer.Map.{lookup, lookup-insert}
use bel_20_indexer.Env.{Env}
use bel_20_indexer.Tokens.Types.{
  TokenMeta, LowerCaseTokenTick, lower_eq_iff, address_token_eq, FullHash, Txid, MintProtoWrapper,
  HistoryTokenAction,
}
use bel_20_indexer.Tokens.Process.{State, mint_into, process_mint, min_amount, next_u32, next_u64}
use bel_20_indexer.Tokens.Measure.{held, minted-snoc, burned-snoc}
use bel_20_indexer.Tokens.Sound.{IsSound, supply_of, FitsToken, IsSound-token}
use bel_20_indexer.Tokens.Steps.Credit.{
  IsSoundState, AccountsFor, AccountsFor-refl, GoesOn, held-credited, credited-IsSound,
}

module _ (env : Env) where
  open env use {Fixed128, units, add, sub, scale, to_lower, units-add, units-sub}

  -- The minted amount: at most the asked one and at most what is left, and one of the two.
  pub min_amount-units :
      (a b : Fixed128)
      → (units (min_amount env a b) ≤ units a) × (units (min_amount env a b) ≤ units b)
  min_amount-units a b = ground arith

  module _ (token : TokenMeta Fixed128) (owner : FullHash) (k : LowerCaseTokenTick)
      (asked : Fixed128) (txid : Txid) (vout n : ℕ) (s : State Fixed128) (h : IsSoundState env n s)
      (found : lookup k s.tokens ≡ some token) where
    abbrev amt : Fixed128
    amt = min_amount env asked (sub token.proto.max token.proto.supply)

    abbrev after : State Fixed128
    after = mint_into env token owner k asked txid vout s

    abbrev event : HistoryTokenAction Fixed128
    event = HistoryTokenAction.mint token.proto.tick amt owner txid vout

    fits : FitsToken env k token
    fits = h.tokens_ok k token found

    amt_left : units token.proto.supply + units amt ≤ units token.proto.max
    amt_left = omega (
      arith,
      fits.supply_ok,
      units-sub token.proto.max token.proto.supply,
      min_amount-units asked (sub token.proto.max token.proto.supply),
    )

    new_supply : units (add token.proto.supply amt) ≡ units token.proto.supply + units amt
    new_supply = omega (arith, amt_left, fits.max_ok, units-add token.proto.supply amt)

    tokens_after : IsSound env n after.tokens s.token_accounts s.valid_transfers
    unfolding mint_into
    tokens_after =
        IsSound-token env k _ h
          (record {
            tick_ok = fits.tick_ok;
            supply_ok = omega (arith, new_supply, amt_left);
            max_ok = fits.max_ok;
          })
          (λ m' e. ground (arith, new_supply))

    supply_after :
        (j : LowerCaseTokenTick)
        → supply_of env j after.tokens
          ≡ supply_of env j s.tokens + (if k == j then units amt else 0)
    unfolding mint_into
    supply_after j = ground (
      arith,
      new_supply,
      lookup-insert k j
          (record token {
            proto = record (token.proto) {
              supply = add token.proto.supply amt;
              transactions = next_u32 token.proto.transactions;
              mint_count = next_u64 token.proto.mint_count;
            };
          })
          s.tokens,
      lower_eq_iff k j,
    )

    room :
        held env (to_lower token.proto.tick) s.token_accounts + units amt
        ≤ supply_of env (to_lower token.proto.tick) after.tokens
    room = ground (
      arith,
      supply_after (to_lower token.proto.tick),
      h.covered (to_lower token.proto.tick),
      lower_eq_iff k (to_lower token.proto.tick),
      fits.tick_ok,
    )

    pub mint_into-IsSound : IsSoundState env n after
    unfolding mint_into
    mint_into-IsSound =
        credited-IsSound env tokens_after (record { address = owner; token = token.proto.tick }) amt
          room

    pub mint_into-AccountsFor : AccountsFor env s after
    unfolding mint_into
    mint_into-AccountsFor = record {
      balances_ok = λ j. ground (
        arith,
        held-credited env tokens_after (record { address = owner; token = token.proto.tick }) amt
            room j,
        minted-snoc env j s.history event,
        burned-snoc env j s.history event,
      );
      supply_ok =
          λ j. ground (arith, supply_after j, fits.tick_ok, minted-snoc env j s.history event);
    }

  -- A mint, refused or not, keeps the invariant and accounts for its amount.
  pub process_mint-GoesOn :
      (owner : FullHash) (proto : MintProtoWrapper Fixed128) (txid : Txid) (vout n : ℕ)
      (s : State Fixed128)
      → IsSoundState env n s
      → GoesOn env n s (process_mint env owner proto txid vout s)
  unfolding process_mint
  process_mint-GoesOn owner proto txid vout n s h =
      match_rule (GoesOn env n s) (lookup (to_lower proto.tick) s.tokens) _ _
        (λ _. (h, AccountsFor-refl env s))
        (λ token found.
          if_rule (GoesOn env n s) _ _ _ (λ _. (h, AccountsFor-refl env s))
            (λ _. (
              mint_into-IsSound token owner (to_lower proto.tick) proto.amt txid vout n s h found,
              mint_into-AccountsFor token owner (to_lower proto.tick) proto.amt txid vout n s h
                  found,
            )))
