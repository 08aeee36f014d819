-- ===== src/Tokens/Holders.antt =====
-- The registry of holders of src/tokens/holders.rs: for each token the set of its holders with
-- their whole balances, and the number of holders.
-- A `BTreeSet` is a list without repetition; only the REST routes read its order.
use bel_20_indexer.Prelude.{
  ℕ, ◌+◌, ◌-◌, ◌^◌, ◌%◌, Bool, false, ◌&&◌, ◌||◌, Option, none, some, List, [], ◌∷◌, ◌==◌, nat_eq,
  if◌then◌else◌,
}
use bel_20_indexer.Map.{Map, lookup, insert}
use bel_20_indexer.Env.{Env}
use bel_20_indexer.Tokens.Types.{
  FullHash, OriginalTokenTick, AddressToken, TokenBalance, address_token_eq,
}

pub record SortedByBalance (F : Type 0) : Type 0 where
  pub balance : F
  pub address : FullHash

pub record Holders (F : Type 0) : Type 0 where
  pub balances : Map OriginalTokenTick (List (SortedByBalance F))
  pub stats : Map OriginalTokenTick ℕ

pub data Action : Type 0 where
  increase decrease : Action

module _ (env : Env) where
  open env use {Fixed128, units, zero_amount, add, sub}

  abbrev pub default_balance : TokenBalance Fixed128
  default_balance = record {
    balance = zero_amount;
    transferable_balance = zero_amount;
    transfers_count = 0;
  }

  abbrev pub is_zero : Fixed128 → Bool
  is_zero a = units a == 0

  -- The derived equality of `SortedByBalance`.
  abbrev pub same_entry : SortedByBalance Fixed128 → SortedByBalance Fixed128 → Bool
  same_entry x y = units x.balance == units y.balance && x.address == y.address

  unfoldable pub set_contains : SortedByBalance Fixed128 → List (SortedByBalance Fixed128) → Bool
  set_contains x [] = false
  set_contains x (y ∷ ys) = same_entry x y || set_contains x ys

  unfoldable pub set_remove :
      SortedByBalance Fixed128 → List (SortedByBalance Fixed128) → List (SortedByBalance Fixed128)
  set_remove x [] = []
  set_remove x (y ∷ ys) = let rest = set_remove x ys in if same_entry x y then rest else y ∷ rest

  unfoldable pub set_insert :
      SortedByBalance Fixed128 → List (SortedByBalance Fixed128) → List (SortedByBalance Fixed128)
  set_insert x ys = if set_contains x ys then ys else x ∷ ys

  -- `balances.entry(token).or_default()`
  unfoldable pub holders_of : Holders Fixed128 → OriginalTokenTick → List (SortedByBalance Fixed128)
  holders_of h t = elim (lookup t h.balances) [ none ↦ [] | some v ↦ v ]

  -- `stats.entry(token).and_modify(|x| *x += 1).or_insert(1)`
  unfoldable pub stats_up : OriginalTokenTick → Map OriginalTokenTick ℕ → Map OriginalTokenTick ℕ
  stats_up t m = insert t (elim (lookup t m) [ none ↦ 1 | some n ↦ (n + 1) % 2 ^ 64 ]) m

  -- `stats.entry(token).and_modify(|x| *x -= 1)`, which inserts nothing
  unfoldable pub stats_down : OriginalTokenTick → Map OriginalTokenTick ℕ → Map OriginalTokenTick ℕ
  stats_down t m = elim (lookup t m) [ none ↦ m | some n ↦ insert t ((n + 2 ^ 64 - 1) % 2 ^ 64) m ]

  unfoldable pub change :
      Holders Fixed128 → AddressToken → TokenBalance Fixed128 → Fixed128 → Action → Holders Fixed128
  unfolding set_contains set_remove set_insert holders_of stats_up stats_down
  change h key acc amt action =
      let old_balance = add acc.balance acc.transferable_balance in
      let old_entry : SortedByBalance Fixed128 = record {
        balance = old_balance;
        address = key.address;
      } in
      let existed = set_contains old_entry (holders_of h key.token) in
      let v = set_remove old_entry (holders_of h key.token) in
      elim action [
        | increase ↦ record {
          balances =
              insert key.token
                (set_insert (record { balance = add old_balance amt; address = key.address }) v)
                h.balances;
          stats = if existed then h.stats else stats_up key.token h.stats;
        }
        | decrease ↦
            let bal = sub old_balance amt in
            record {
              balances =
                  insert key.token
                    (if is_zero bal
                      then v
                      else set_insert (record { balance = bal; address = key.address }) v)
                    h.balances;
              stats = if is_zero bal then stats_down key.token h.stats else h.stats;
            }
      ]

  unfoldable pub increase_by :
      Holders Fixed128 → AddressToken → TokenBalance Fixed128 → Fixed128 → Holders Fixed128
  increase_by h key prev_balance amt = change h key prev_balance amt increase

  unfoldable pub decrease_by :
      Holders Fixed128 → AddressToken → TokenBalance Fixed128 → Fixed128 → Holders Fixed128
  decrease_by h key prev_balance amt = change h key prev_balance amt decrease

  unfoldable pub holders_by_tick : Holders Fixed128 → OriginalTokenTick → Option ℕ
  holders_by_tick h t = lookup t h.stats
