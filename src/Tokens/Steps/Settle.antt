-- ===== src/Tokens/Steps/Settle.antt =====
-- The move of a pending transfer in src/tokens/parser.rs: the lookups that it expects to succeed do,
-- and the amount goes from the sender to the recipient or is burned.
use bel_20_indexer.Prelude.{
  refl, Returns, Option-cases, Option, none, ltb, ◌||◌, ℕ, ◌+◌, ◌-◌, ◌≤◌, ◌≡◌, true, false, some,
  arith, ◌==◌, nat_eq, list_eq, if◌then◌else◌, inl, inr, Bool-cases, ◌⊎◌,
}
use bel_20_indexer.Map.{erase, lookup, insert, lookup-insert}
use bel_20_indexer.Env.{Env}
use bel_20_indexer.Tokens.Types.{
  Location, TransferProtoDb, location_eq, TokenMeta, LowerCaseTokenTick, lower_eq_iff, FullHash,
  HistoryTokenAction, AddressToken, TokenBalance, Txid, address_token_eq,
}
use bel_20_indexer.Tokens.Process.{process_transferred, State, settle, next_u32}
use bel_20_indexer.Tokens.Measure.{
  locked, pending, locked-erase, minted, burned, minted-snoc, burned-snoc, held, whole, held-insert,
}
use bel_20_indexer.Tokens.Sound.{
  IsSound-erase, Covers, FitsToken, IsSound, IsSound-token, IsSound-account, supply_of,
}
use bel_20_indexer.Tokens.Steps.Credit.{
  GoesOn, AccountsFor-refl, IsSoundState, AccountsFor, held-credited, credited-IsSound,
}

module _ (env : Env) where
  open env use {Fixed128, units, add, sub, scale, to_lower, units-add, units-sub, op_return_hash}

  module _ (token : TokenMeta Fixed128) (account : TokenBalance Fixed128)
      (sender recipient : FullHash) (k : LowerCaseTokenTick) (amt : Fixed128) (txid : Txid)
      (vout n : ℕ) (s : State Fixed128) (h : IsSoundState env n s)
      (found : lookup k s.tokens ≡ some token)
      (funded : lookup (record { address = sender; token = token.proto.tick }) s.token_accounts
        ≡ some account)
      (enough : units amt ≤ units account.transferable_balance)
      (freed : Covers env n
        (record { address = sender; token = token.proto.tick })
        (record account {
          transferable_balance = sub account.transferable_balance amt;
          transfers_count = account.transfers_count - 1;
        })
        s.valid_transfers) where
    abbrev old_key : AddressToken
    old_key = record { address = sender; token = token.proto.tick }

    abbrev account' : TokenBalance Fixed128
    account' = record account {
      transferable_balance = sub account.transferable_balance amt;
      transfers_count = account.transfers_count - 1;
    }

    abbrev new_key : AddressToken
    new_key = record { address = recipient; token = token.proto.tick }

    abbrev token' : TokenMeta Fixed128
    token' = record token {
      proto = record (token.proto) { transactions = next_u32 token.proto.transactions };
    }

    abbrev event : HistoryTokenAction Fixed128
    event = HistoryTokenAction.send token.proto.tick amt recipient sender txid vout

    abbrev after : State Fixed128
    after = settle env token account sender recipient k amt txid vout s

    fits : FitsToken env k token
    fits = h.tokens_ok k token found

    whole_after : whole env account' + units amt ≡ whole env account
    whole_after = omega (arith, enough, units-sub account.transferable_balance amt)

    held_debited :
        (j : LowerCaseTokenTick)
        → held env j (insert old_key account' s.token_accounts)
            + (if to_lower token.proto.tick == j then units amt else 0)
          ≡ held env j s.token_accounts
    held_debited j =
        ground (arith, held-insert env j old_key account' s.token_accounts, funded, whole_after)

    debited : IsSound env n s.tokens (insert old_key account' s.token_accounts) s.valid_transfers
    debited =
        IsSound-account env old_key account' h
          (rw funded (omega (arith, whole_after, h.covered (to_lower token.proto.tick)))) freed

    supply_same :
        (j : LowerCaseTokenTick)
        → supply_of env j (insert k token' s.tokens) ≡ supply_of env j s.tokens
    supply_same j = ground (arith, found, lower_eq_iff k j, lookup-insert k j token' s.tokens)

    counted :
        IsSound env n
          (insert k token' s.tokens)
          (insert old_key account' s.token_accounts)
          s.valid_transfers
    counted =
        IsSound-token env k token' debited
          (record { tick_ok = fits.tick_ok; supply_ok = fits.supply_ok; max_ok = fits.max_ok })
          (λ m' e. ground arith)

    room :
        held env (to_lower token.proto.tick) (insert old_key account' s.token_accounts) + units amt
        ≤ supply_of env (to_lower token.proto.tick) (insert k token' s.tokens)
    room = ground (
      arith,
      held_debited (to_lower token.proto.tick),
      lower_eq_iff (to_lower token.proto.tick) (to_lower token.proto.tick),
      h.covered (to_lower token.proto.tick),
      supply_same (to_lower token.proto.tick),
    )

    pub settle-IsSound : IsSoundState env n after
    unfolding settle
    settle-IsSound = elim (Bool-cases (recipient == op_return_hash)) [
      | inl burn ↦ rw burn counted
      | inr keep ↦ rw keep (credited-IsSound env counted new_key amt room)
    ]

    pub settle-AccountsFor : AccountsFor env s after
    unfolding settle
    settle-AccountsFor = record {
      balances_ok = λ j. balances j (Bool-cases (recipient == op_return_hash));
      supply_ok = λ j. supplies j (Bool-cases (recipient == op_return_hash));
    }
      where
        balances :
            (j : LowerCaseTokenTick)
            → ((recipient == op_return_hash) ≡ true) ⊎ ((recipient == op_return_hash) ≡ false)
            → held env j after.token_accounts + burned env j after.history + minted env j s.history
              ≡ held env j s.token_accounts + burned env j s.history + minted env j after.history
        balances j (inl burn) = rw burn (
            ground (
              arith,
              burn,
              held_debited j,
              minted-snoc env j s.history event,
              burned-snoc env j s.history event,
            ))
        balances j (inr keep) = rw keep (
            ground (
              arith,
              keep,
              held_debited j,
              held-credited env counted new_key amt room j,
              minted-snoc env j s.history event,
              burned-snoc env j s.history event,
            ))

        supplies :
            (j : LowerCaseTokenTick)
            → ((recipient == op_return_hash) ≡ true) ⊎ ((recipient == op_return_hash) ≡ false)
            → supply_of env j after.tokens + minted env j s.history
              ≡ supply_of env j s.tokens + minted env j after.history
        supplies j (inl burn) =
            rw burn (omega (arith, supply_same j, minted-snoc env j s.history event))
        supplies j (inr keep) =
            rw keep (omega (arith, supply_same j, minted-snoc env j s.history event))

  module _ (l : Location) (recipient : FullHash) (txid : Txid) (vout n : ℕ) (s : State Fixed128)
      (h : IsSoundState env n s) where
    abbrev taken : State Fixed128
    taken = record s { cache = record (s.cache) { valid_transfers = erase l s.valid_transfers } }

    module _ (sender : FullHash) (stored : TransferProtoDb Fixed128)
        (waits : lookup l s.valid_transfers ≡ some (sender, stored)) (token : TokenMeta Fixed128)
        (found : lookup (to_lower stored.tick) s.tokens ≡ some token)
        (same : token.proto.tick ≡ stored.tick) where
      abbrev key : AddressToken
      key = record { address = sender; token = token.proto.tick }

      -- The pending transfer is one of its sender's, with its whole amount.
      waiting :
          (locked env key (erase l s.valid_transfers) + units stored.amt
            ≤ locked env key s.valid_transfers)
          × (pending env key (erase l s.valid_transfers) + 1 ≤ pending env key s.valid_transfers)
      waiting =
          ground (arith, same, locked-erase env key l (sender, stored) s.valid_transfers waits)

      funded : (account : TokenBalance Fixed128) × (lookup key s.token_accounts ≡ some account)
      funded = elim (Option-cases (lookup key s.token_accounts)) [
        | inl absent ↦
            absurd (let c = rw absent at (h.locked_ok key) in omega (arith, c.count_ok, waiting.1))
        | inr there ↦ there
      ]

      module _ (account : TokenBalance Fixed128)
          (is_account : lookup key s.token_accounts ≡ some account) where
        covers : Covers env n key account s.valid_transfers
        covers = rw is_account at (h.locked_ok key)

        enough : units stored.amt ≤ units account.transferable_balance
        enough = omega (arith, covers.amount_ok, waiting.0)

        passes :
            (account.transfers_count == 0
              || ltb (units account.transferable_balance) (units stored.amt))
            ≡ false
        passes = ground (arith, enough, covers.count_ok, waiting.1)

        freed :
            Covers env n key
              (record account {
                transferable_balance = sub account.transferable_balance stored.amt;
                transfers_count = account.transfers_count - 1;
              })
              (erase l s.valid_transfers)
        freed = omega (
          arith,
          units-sub account.transferable_balance stored.amt,
          enough,
          covers.amount_ok,
          covers.count_ok,
          covers.room_ok,
          waiting,
        )

        taken-IsSound : IsSoundState env n taken
        taken-IsSound = IsSound-erase env l (sender, stored) waits h

        settled : GoesOn env n s (
            settle env token account sender recipient
              (to_lower stored.tick)
              stored.amt
              txid
              vout
              taken)
        settled =
            let through =
              settle-AccountsFor token account sender recipient (to_lower stored.tick) stored.amt
                txid vout n taken taken-IsSound found is_account enough freed in
            (
              settle-IsSound token account sender recipient (to_lower stored.tick) stored.amt txid
                  vout n taken taken-IsSound found is_account enough freed,
              record { balances_ok = through.balances_ok; supply_ok = through.supply_ok },
            )

    process_from :
        (o : Option (FullHash × TransferProtoDb Fixed128))
        → lookup l s.valid_transfers ≡ o
        → Returns (process_transferred env l recipient txid vout s) (GoesOn env n s)
    unfolding process_transferred
    process_from none e = rw (e, Returns) (h, AccountsFor-refl env s)
    process_from (some (sender, stored)) e =
        let (token, found, same) = h.transfers_ok l (sender, stored) e in
        let (account, is_account) = funded sender stored e token found same in
        rw
          (
            e,
            Returns,
            found,
            is_account,
            passes sender stored e token found same account is_account,
          )
          (settled sender stored e token found same account is_account)

  -- The move of a transfer does not panic, keeps the invariant and accounts for its amount.
  pub process_transferred-GoesOn :
      (l : Location) (recipient : FullHash) (txid : Txid) (vout n : ℕ) (s : State Fixed128)
      → IsSoundState env n s
      → Returns (process_transferred env l recipient txid vout s) (GoesOn env n s)
  process_transferred-GoesOn l recipient txid vout n s h =
      process_from l recipient txid vout n s h (lookup l s.valid_transfers) refl
