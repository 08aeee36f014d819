-- ===== src/Tokens/Steps/Lock.antt =====
-- A transfer's inscription in src/tokens/parser.rs: an amount moves from the balance of its owner to
-- the transferable balance, and the pending transfer locks it.
use bel_20_indexer.Prelude.{
  ℕ, suc, ◌+◌, ◌≤◌, ◌≡◌, refl, some, arith, ◌==◌, nat_eq, list_eq, inl, inr, Bool-cases, match_rule,
  if_rule, ltb, false,
}
use bel_20_indexer.Map.{lookup, insert, lookup-insert, erase}
use bel_20_indexer.Env.{Env, max_units}
use bel_20_indexer.Tokens.Types.{
  TokenMeta, LowerCaseTokenTick, lower_eq_iff, FullHash, HistoryTokenAction, Location, AddressToken,
  TokenBalance, TransferProtoDb, Txid, address_token_eq, location_eq, MintProtoWrapper,
}
use bel_20_indexer.Tokens.Process.{State, lock, or_default, next_u64, next_u32, process_transfer}
use bel_20_indexer.Tokens.Measure.{
  minted-snoc, burned-snoc, whole, held-insert, whole-le-held, locked-insert,
}
use bel_20_indexer.Tokens.Sound.{
  FitsToken, IsSound, Covers, IsSound-token, IsSound-account, IsSound-insert, IsSound-weaken,
}
use bel_20_indexer.Tokens.Steps.Credit.{
  IsSoundState, AccountsFor, supply-le-max_units, GoesOn, AccountsFor-refl,
}

module _ (env : Env) where
  open env use {Fixed128, units, add, sub, scale, to_lower, units-add, units-sub}

  -- The stored amount of a transfer is the amount that its action asks to lock.
  abbrev pub SameAmount : Fixed128 → TransferProtoDb Fixed128 → Type 0
  SameAmount amt stored = units stored.amt ≡ units amt

  module _ (token : TokenMeta Fixed128) (account : TokenBalance Fixed128)
      (stored : TransferProtoDb Fixed128) (location : Location) (owner : FullHash)
      (k : LowerCaseTokenTick) (amt : Fixed128) (txid : Txid) (vout n : ℕ) (s : State Fixed128)
      (h : IsSoundState env (suc n) s) (found : lookup k s.tokens ≡ some token)
      (funded : lookup (record { address = owner; token = token.proto.tick }) s.token_accounts
        ≡ some account)
      (enough : units amt ≤ units account.balance) (same : SameAmount amt stored) where
    abbrev key : AddressToken
    key = record { address = owner; token = token.proto.tick }

    abbrev account' : TokenBalance Fixed128
    account' = record {
      balance = sub account.balance amt;
      transferable_balance = add account.transferable_balance amt;
      transfers_count = next_u64 account.transfers_count;
    }

    abbrev entry : FullHash × TransferProtoDb Fixed128
    entry = (owner, record stored { tick = token.proto.tick })

    abbrev event : HistoryTokenAction Fixed128
    event = HistoryTokenAction.deploy_transfer token.proto.tick amt owner txid vout

    abbrev after : State Fixed128
    after = lock env token account stored location owner k amt txid vout s

    fits : FitsToken env k token
    fits = h.tokens_ok k token found

    covers : Covers env (suc n) key account s.valid_transfers
    covers = rw funded at (h.locked_ok key)

    whole-small : whole env account ≤ max_units
    whole-small =
        let w = rw funded at (whole-le-held env key s.token_accounts) in
        omega (
          arith,
          w,
          h.covered (to_lower token.proto.tick),
          supply-le-max_units env h (to_lower token.proto.tick),
        )

    transferable_after :
        units (add account.transferable_balance amt)
        ≡ units account.transferable_balance + units amt
    transferable_after = omega (arith, whole-small, units-add account.transferable_balance amt)

    whole_after : whole env account' ≡ whole env account
    whole_after = omega (arith, transferable_after, units-sub account.balance amt)

    cover_after : Covers env n key account' (insert location entry s.valid_transfers)
    cover_after = ground (
      arith,
      locked-insert env key location entry s.valid_transfers,
      transferable_after,
      covers.amount_ok,
      covers.count_ok,
      covers.room_ok,
    )

    accounts_after : IsSound env n s.tokens (insert key account' s.token_accounts) s.valid_transfers
    accounts_after =
        IsSound-account env key account' (IsSound-weaken env h)
          (rw funded (omega (arith, whole_after, h.covered (to_lower token.proto.tick))))
          (ground (arith, transferable_after, covers.amount_ok, covers.count_ok, covers.room_ok))

    cover_all :
        (j : AddressToken)
        → Covers env n j
            (or_default env (lookup j (insert key account' s.token_accounts)))
            (insert location entry s.valid_transfers)
    cover_all j = elim (Bool-cases (key == j)) [
      | inl hit ↦ rw (lookup-insert, hit, ← (address_token_eq.beq_iff key j).0 hit) cover_after
      | inr miss ↦
          rw (lookup-insert, miss)
            (ground (
              arith,
              locked-insert env j location entry s.valid_transfers,
              (h.locked_ok j).amount_ok,
              (h.locked_ok j).count_ok,
              (h.locked_ok j).room_ok,
            ))
    ]

    transfers_after :
        IsSound env n s.tokens
          (insert key account' s.token_accounts)
          (insert location entry s.valid_transfers)
    transfers_after =
        IsSound-insert env location entry token (rw fits.tick_ok found) refl accounts_after
          cover_all

    pub lock-IsSound : IsSoundState env n after
    unfolding lock
    lock-IsSound =
        IsSound-token env k _ transfers_after
          (record { tick_ok = fits.tick_ok; supply_ok = fits.supply_ok; max_ok = fits.max_ok })
          (λ m' e. ground arith)

    pub lock-AccountsFor : AccountsFor env s after
    unfolding lock
    lock-AccountsFor = record {
      balances_ok = λ j. ground (
        arith,
        held-insert env j key account' s.token_accounts,
        funded,
        whole_after,
        minted-snoc env j s.history event,
        burned-snoc env j s.history event,
      );
      supply_ok = λ j. ground (
        arith,
        found,
        lower_eq_iff k j,
        minted-snoc env j s.history event,
        lookup-insert k j
            (record token {
              proto = record (token.proto) {
                transfer_count = next_u64 token.proto.transfer_count;
                transactions = next_u32 token.proto.transactions;
              };
            })
            s.tokens,
      );
    }

  leb_of_not_ltb : (a b : ℕ) → ltb a b ≡ false → b ≤ a
  leb_of_not_ltb a b h = ground arith

  -- A transfer's inscription, refused or not, keeps the invariant and moves no amount between
  -- accounts, where the stored amount is that of the action.
  pub process_transfer-GoesOn :
      (location : Location) (owner : FullHash) (proto : MintProtoWrapper Fixed128) (txid : Txid)
      (vout n : ℕ) (s : State Fixed128)
      → IsSoundState env (suc n) s
      → ((stored : TransferProtoDb Fixed128)
          → lookup location s.all_transfers ≡ some stored
          → SameAmount proto.amt stored)
      → GoesOn env n s (process_transfer env location owner proto txid vout s)
  unfolding process_transfer
  process_transfer-GoesOn location owner proto txid vout n s h same =
      match_rule (GoesOn env n s) (lookup location s.all_transfers) _ _
        (λ _. (IsSound-weaken env h, AccountsFor-refl env s))
        (λ stored is_stored.
          match_rule (GoesOn env n s) (lookup (to_lower proto.tick) s.tokens) taken _ (λ _. skipped)
            (λ token found.
              if_rule (GoesOn env n s) _ taken _ (λ _. skipped)
                (λ _.
                  match_rule (GoesOn env n s) (lookup _ s.token_accounts) taken _ (λ _. skipped)
                    (λ account funded.
                      if_rule (GoesOn env n s) _ taken _ (λ _. skipped)
                        (λ covered.
                          locked_now token account stored found funded (leb_of_not_ltb _ _ covered)
                            (same stored is_stored))))))
    where
      taken : State Fixed128
      taken = record s {
        cache = record (s.cache) { all_transfers = erase location s.all_transfers };
      }

      skipped : GoesOn env n s taken
      skipped = (IsSound-weaken env h, record { balances_ok = λ k. refl; supply_ok = λ k. refl })

      locked_now :
          (token : TokenMeta Fixed128) (account : TokenBalance Fixed128)
          (stored : TransferProtoDb Fixed128)
          → lookup (to_lower proto.tick) s.tokens ≡ some token
          → lookup (record { address = owner; token = token.proto.tick }) s.token_accounts
            ≡ some account
          → units proto.amt ≤ units account.balance
          → SameAmount proto.amt stored
          → GoesOn env n s (
              lock env token account stored location owner
                (to_lower proto.tick)
                proto.amt
                txid
                vout
                taken)
      locked_now token account stored found funded enough agree =
          let through =
            lock-AccountsFor token account stored location owner (to_lower proto.tick) proto.amt
              txid vout n taken h found funded enough agree in
          (
            lock-IsSound token account stored location owner (to_lower proto.tick) proto.amt txid
                vout n taken h found funded enough agree,
            record { balances_ok = through.balances_ok; supply_ok = through.supply_ok },
          )
