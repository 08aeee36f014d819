-- ===== src/Tokens/Registry.antt =====
-- The registry of src/tokens/holders.rs is the index of the accounts by token: who holds a token,
-- with which whole balance, and how many do.
use bel_20_indexer.Tokens.Sets.{
  Entry, IsDistinct, contains-remove, contains-insert, length-remove, length-insert,
  remove-IsDistinct, insert-IsDistinct,
}
use bel_20_indexer.Prelude.{
  ℕ, ◌+◌, ◌-◌, ◌≤◌, ◌<◌, ◌^◌, ◌%◌, ◌≡◌, refl, false, ◌&&◌, none, some, arith, Option, List, length,
  ◌==◌, nat_eq, if◌then◌else◌, Bool-cases, inl, inr, ltb, match_rule,
}
use bel_20_indexer.Map.{Map, lookup, insert, lookup-insert}
use bel_20_indexer.Env.{Env, max_units}
use bel_20_indexer.Tokens.Types.{
  FullHash, OriginalTokenTick, AddressToken, TokenBalance, address_token_eq,
}
use bel_20_indexer.Tokens.Holders.{
  Holders, set_contains, set_remove, set_insert, holders_of, stats_up, stats_down, change,
  increase_by, decrease_by, holders_by_tick,
}
use bel_20_indexer.Tokens.Process.{or_default}
use bel_20_indexer.Tokens.Measure.{whole}

module _ (env : Env) where
  open env use {Fixed128, units, add, sub, units-add, units-sub}

  -- Counting one token leaves the others alone.
  lookup-stats_up_ne :
      (k t : OriginalTokenTick) (c : Map OriginalTokenTick ℕ)
      → (k == t) ≡ false
      → lookup t (stats_up env k c) ≡ lookup t c
  unfolding stats_up
  lookup-stats_up_ne k t c ne = rw (lookup-insert, ne)

  lookup-stats_down_ne :
      (k t : OriginalTokenTick) (c : Map OriginalTokenTick ℕ)
      → (k == t) ≡ false
      → lookup t (stats_down env k c) ≡ lookup t c
  unfolding stats_down
  lookup-stats_down_ne k t c ne =
      match_rule (λ (r : Map OriginalTokenTick ℕ). lookup t r ≡ lookup t c) (lookup k c) c _
        (λ _. refl) (λ n _. rw (lookup-insert, ne))

  abbrev pub count_in : Option ℕ → ℕ
  count_in none = 0
  count_in (some n) = n

  abbrev pub balance_in :
      Map AddressToken (TokenBalance Fixed128) → FullHash → OriginalTokenTick → ℕ
  balance_in a address t =
      whole env (or_default env (lookup (record { address = address; token = t }) a))

  -- The registry holds an entry exactly for each account with a balance that is not zero, and with
  -- that balance; it holds none twice; and the number that it keeps is that of the entries.
  pub record Matches (h : Holders Fixed128) (a : Map AddressToken (TokenBalance Fixed128))
      : Type 0 where
    pub entries_ok :
        (e : (Entry env)) (t : OriginalTokenTick)
        → set_contains env e (holders_of env h t)
          ≡ (units e.balance == balance_in a e.address t && ltb 0 (units e.balance))
    pub distinct_ok : (t : OriginalTokenTick) → IsDistinct env (holders_of env h t)
    pub stats_ok :
        (t : OriginalTokenTick) → count_in (holders_by_tick env h t) ≡ length (holders_of env h t)

  module _ (h : Holders Fixed128) (a : Map AddressToken (TokenBalance Fixed128))
      (key : AddressToken) (b : TokenBalance Fixed128) (amt : Fixed128) (m : Matches h a)
      (positive : 0 < units amt) (room : length (holders_of env h key.token) + 1 < 2 ^ 64)
      (small : balance_in a key.address key.token ≤ max_units) where
    abbrev account : TokenBalance Fixed128
    account = or_default env (lookup key a)

    abbrev old_entry : (Entry env)
    old_entry = record {
      balance = add account.balance account.transferable_balance;
      address = key.address;
    }

    abbrev left : List (Entry env)
    left = set_remove env old_entry (holders_of env h key.token)

    old_units : units (add account.balance account.transferable_balance) ≡ whole env account
    old_units = omega (arith, units-add account.balance account.transferable_balance)

    contains-left :
        (e : (Entry env))
        → set_contains env e left ≡ (
            if e.address == key.address
            then false
            else set_contains env e (holders_of env h key.token))
    contains-left e = ground (
      arith,
      old_units,
      contains-remove env old_entry e (holders_of env h key.token),
      m.entries_ok e key.token,
    )

    length-left :
        length left + (if ltb 0 (whole env account) then 1 else 0)
        ≡ length (holders_of env h key.token)
    length-left = ground (
      arith,
      old_units,
      length-remove env old_entry (holders_of env h key.token) (m.distinct_ok key.token),
      m.entries_ok old_entry key.token,
    )

    balance_after :
        (address : FullHash) (t : OriginalTokenTick)
        → balance_in (insert key b a) address t ≡ (
            if key.address == address && key.token == t
            then whole env b
            else balance_in a address t)
    balance_after address t =
        ground (arith, lookup-insert key (record { address = address; token = t }) b a)

    module _ (grows : whole env b ≡ whole env account + units amt)
        (fits : units amt ≤ max_units) where
      abbrev new_entry : (Entry env)
      new_entry = record {
        balance = add (add account.balance account.transferable_balance) amt;
        address = key.address;
      }

      abbrev raised : Holders Fixed128
      raised = increase_by env h key account amt

      new_units :
          units (add (add account.balance account.transferable_balance) amt)
          ≡ whole env account + units amt
      new_units =
          omega (arith, old_units, units-add (add account.balance account.transferable_balance) amt)

      holders-raised :
          (t : OriginalTokenTick)
          → holders_of env raised t
            ≡ (if key.token == t then set_insert env new_entry left else holders_of env h t)
      unfolding increase_by change holders_of
      holders-raised t =
          ground (arith, lookup-insert key.token t (set_insert env new_entry left) h.balances)

      entries-raised :
          (e : (Entry env)) (t : OriginalTokenTick)
          → set_contains env e (holders_of env raised t) ≡ (
              units e.balance == balance_in (insert key b a) e.address t && ltb 0 (units e.balance))
      entries-raised e t = ground (
        arith,
        holders-raised t,
        contains-insert env new_entry e left,
        contains-left e,
        m.entries_ok e t,
        balance_after e.address t,
        new_units,
        grows,
      )

      stats-raised :
          (t : OriginalTokenTick)
          → count_in (holders_by_tick env raised t) ≡ length (holders_of env raised t)
      stats-raised t = elim (Bool-cases (key.token == t)) [
        | inl hit ↦
            rw (holders-raised, hit)
              (unfold increase_by change holders_by_tick stats_up in
                ground (
                  arith,
                  hit,
                  length-insert env new_entry left,
                  contains-left new_entry,
                  length-left,
                  old_units,
                  m.stats_ok key.token,
                  m.entries_ok old_entry key.token,
                  lookup-insert key.token t ((length (holders_of env h key.token) + 1) % 2 ^ 64)
                      h.stats,
                ))
        | inr miss ↦
            rw (holders-raised, miss)
              (unfold increase_by change holders_by_tick in
                ground (arith, m.stats_ok t, lookup-stats_up_ne key.token t h.stats miss))
      ]

      -- Where the registry is the index of the accounts, an increase of an account by a positive
      -- amount keeps it so, if the account and the amount are at most 2^64 - 1 whole tokens and the
      -- holders of the token fewer than 2^64 - 1.
      pub increase_by-Matches : Matches raised (insert key b a)
      increase_by-Matches = record {
        entries_ok = entries-raised;
        distinct_ok = distinct-raised;
        stats_ok = stats-raised;
      }
        where
          distinct-raised : (t : OriginalTokenTick) → IsDistinct env (holders_of env raised t)
          distinct-raised t = rw (holders-raised) (
              ground (
                arith,
                insert-IsDistinct env new_entry left,
                remove-IsDistinct env old_entry (holders_of env h key.token)
                    (m.distinct_ok key.token),
                m.distinct_ok t,
              ))

    module _ (shrinks : whole env b + units amt ≡ whole env account) where
      abbrev rest_entry : (Entry env)
      rest_entry = record {
        balance = sub (add account.balance account.transferable_balance) amt;
        address = key.address;
      }

      abbrev lowered : Holders Fixed128
      lowered = decrease_by env h key account amt

      rest_units : units (sub (add account.balance account.transferable_balance) amt) ≡ whole env b
      rest_units =
          omega (arith, old_units, units-sub (add account.balance account.transferable_balance) amt)

      holders-lowered :
          (t : OriginalTokenTick)
          → holders_of env lowered t ≡ (
              if key.token == t
              then (if whole env b == 0 then left else set_insert env rest_entry left)
              else holders_of env h t)
      unfolding decrease_by change holders_of
      holders-lowered t = ground (
        arith,
        rest_units,
        lookup-insert key.token t left h.balances,
        lookup-insert key.token t (set_insert env rest_entry left) h.balances,
      )

      entries-lowered :
          (e : (Entry env)) (t : OriginalTokenTick)
          → set_contains env e (holders_of env lowered t) ≡ (
              units e.balance == balance_in (insert key b a) e.address t && ltb 0 (units e.balance))
      entries-lowered e t = ground (
        arith,
        holders-lowered t,
        contains-insert env rest_entry e left,
        contains-left e,
        m.entries_ok e t,
        balance_after e.address t,
        rest_units,
      )

      stats-lowered :
          (t : OriginalTokenTick)
          → count_in (holders_by_tick env lowered t) ≡ length (holders_of env lowered t)
      stats-lowered t = elim (Bool-cases (key.token == t)) [
        | inl hit ↦
            rw (holders-lowered, hit)
              (unfold decrease_by change holders_by_tick stats_down in
                ground (
                  arith,
                  hit,
                  length-insert env rest_entry left,
                  contains-left rest_entry,
                  length-left,
                  old_units,
                  rest_units,
                  shrinks,
                  m.stats_ok key.token,
                  lookup-insert key.token t
                      ((length (holders_of env h key.token) + 2 ^ 64 - 1) % 2 ^ 64) h.stats,
                ))
        | inr miss ↦
            rw (holders-lowered, miss)
              (unfold decrease_by change holders_by_tick in
                ground (arith, m.stats_ok t, lookup-stats_down_ne key.token t h.stats miss))
      ]

      -- Where the registry is the index of the accounts, a decrease of an account by a positive
      -- amount keeps it so, and an account that is emptied is no holder any more, if the account is
      -- at most 2^64 - 1 whole tokens and the holders of the token fewer than 2^64 - 1.
      pub decrease_by-Matches : Matches lowered (insert key b a)
      decrease_by-Matches = record {
        entries_ok = entries-lowered;
        distinct_ok = distinct-lowered;
        stats_ok = stats-lowered;
      }
        where
          distinct-lowered : (t : OriginalTokenTick) → IsDistinct env (holders_of env lowered t)
          distinct-lowered t = rw (holders-lowered) (
              ground (
                arith,
                insert-IsDistinct env rest_entry left,
                remove-IsDistinct env old_entry (holders_of env h key.token)
                    (m.distinct_ok key.token),
                m.distinct_ok t,
              ))
