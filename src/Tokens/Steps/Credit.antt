-- ===== src/Tokens/Steps/Credit.antt =====
-- The credit of an account (`holders.increase` and `entry(key).or_default().balance += amt` in
-- src/tokens/parser.rs), and the relation between two states that the accounting is stated by.
use bel_20_indexer.Prelude.{
  ℕ, ◌+◌, ◌≤◌, ◌≡◌, refl, Option, none, some, arith, ◌==◌, nat_eq, list_eq, if◌then◌else◌,
}
use bel_20_indexer.Map.{lookup, insert}
use bel_20_indexer.Env.{Env, max_units}
use bel_20_indexer.Tokens.Types.{
  AddressToken, TokenBalance, TokenMeta, LowerCaseTokenTick, address_token_eq,
}
use bel_20_indexer.Tokens.Process.{State, or_default}
use bel_20_indexer.Tokens.Measure.{whole, held, minted, burned, held-insert, whole-le-held}
use bel_20_indexer.Tokens.Sound.{
  Tokens, Accounts, Transfers, IsSound, supply_of, supply_in, FitsToken, IsSound-account,
}

module _ (env : Env) where
  open env use {Fixed128, units, add, to_lower, units-add}

  abbrev pub IsSoundState : ℕ → State Fixed128 → Type 0
  IsSoundState n s = IsSound env n s.tokens s.token_accounts s.valid_transfers

  -- What the events of a run account for, in a token's balances and in its supply.
  pub record AccountsFor (s s' : State Fixed128) : Type 0 where
    pub balances_ok :
        (k : LowerCaseTokenTick)
        → held env k s'.token_accounts + burned env k s'.history + minted env k s.history
          ≡ held env k s.token_accounts + burned env k s.history + minted env k s'.history
    pub supply_ok :
        (k : LowerCaseTokenTick)
        → supply_of env k s'.tokens + minted env k s.history
          ≡ supply_of env k s.tokens + minted env k s'.history

  pub AccountsFor-refl : (s : State Fixed128) → AccountsFor s s
  AccountsFor-refl s = record { balances_ok = λ k. refl; supply_ok = λ k. refl }

  pub AccountsFor-trans :
      {s t u : State Fixed128} → AccountsFor s t → AccountsFor t u → AccountsFor s u
  AccountsFor-trans p q = record {
    balances_ok = λ k. omega (arith, p.balances_ok k, q.balances_ok k);
    supply_ok = λ k. omega (arith, p.supply_ok k, q.supply_ok k);
  }

  -- The invariant holds of the second state, and the events between the two account for it.
  abbrev pub GoesOn : ℕ → State Fixed128 → State Fixed128 → Type 0
  GoesOn n s s' = IsSoundState n s' × AccountsFor s s'

  supply_in-le :
      (k : LowerCaseTokenTick) (o : Option (TokenMeta Fixed128))
      → ((m : TokenMeta Fixed128) → o ≡ some m → FitsToken env k m)
      → supply_in env o ≤ max_units
  supply_in-le k none h = omega arith
  supply_in-le k (some m) h = let f = h m refl in omega (arith, f.supply_ok, f.max_ok)

  pub supply-le-max_units :
      {n : ℕ} {t : Tokens env} {a : Accounts env} {v : Transfers env}
      → IsSound env n t a v
      → (k : LowerCaseTokenTick) → supply_of env k t ≤ max_units
  supply-le-max_units {t} h k = supply_in-le k (lookup k t) (h.tokens_ok k)

  module _ {n : ℕ} {t : Tokens env} {a : Accounts env} {v : Transfers env} (h : IsSound env n t a v)
      (key : AddressToken) (amt : Fixed128)
      (room : held env (to_lower key.token) a + units amt
        ≤ supply_of env (to_lower key.token) t) where
    abbrev account : TokenBalance Fixed128
    account = or_default env (lookup key a)

    abbrev pub credited : TokenBalance Fixed128
    credited = record account { balance = add account.balance amt }

    whole-credited : whole env credited ≡ whole env account + units amt
    whole-credited = omega (
      arith,
      units-add account.balance amt,
      supply-le-max_units h (to_lower key.token),
      whole-le-held env key a,
    )

    pub held-credited :
        (k : LowerCaseTokenTick)
        → held env k (insert key credited a)
          ≡ held env k a + (if to_lower key.token == k then units amt else 0)
    held-credited k = ground (arith, held-insert env k key credited a, whole-credited)

    pub credited-IsSound : IsSound env n t (insert key credited a) v
    credited-IsSound =
        let c = h.locked_ok key in
        IsSound-account env key credited h (omega (arith, whole-credited))
          (omega (arith, c.amount_ok, c.count_ok, c.room_ok))
