-- ===== src/Tokens/Spent.antt =====
-- The transfers that src/tokens/parser.rs has taken out of its maps.
use bel_20_indexer.Tokens.Process.{State, process_transfer, process_transferred, settle, lock}
use bel_20_indexer.Tokens.Types.{
  FullHash, Txid, Location, location_eq, address_token_eq, TokenMeta, TokenBalance, TransferProtoDb,
  MintProtoWrapper, LowerCaseTokenTick,
}
use bel_20_indexer.Prelude.{
  ℕ, ◌≡◌, Option, none, some, arith, ◌==◌, ◌||◌, nat_eq, ltb, if_rule, match_rule, eq_self, subst,
  ◌∙◌, list_eq,
}
use bel_20_indexer.Env.{Env}
use mathlib.Core.Option.{some-injective}
use bel_20_indexer.Map.{lookup, erase, lookup-erase}

module _ (env : Env) where
  open env use {Fixed128, units, scale, to_lower, op_return_hash}

  module _ (l : Location) where
    record Spent (s : State Fixed128) : Type 0 where
      spent : lookup l s.valid_transfers ≡ none

    record Taken (s : State Fixed128) : Type 0 where
      taken : lookup l s.all_transfers ≡ none

    record Settled (o : Option (State Fixed128)) : Type 0 where
      settled : (s' : State Fixed128) → o ≡ some s' → Spent s'

    some-Settled : (s' : State Fixed128) → Spent s' → Settled (some s')
    some-Settled s' p = record { settled = λ t e. subst Spent (some-injective _ _ e) p }

    none-Settled : Settled none
    none-Settled = record { settled = λ t e. cc }

    settle-Spent :
        (token : TokenMeta Fixed128) (account : TokenBalance Fixed128) (from to : FullHash)
        (k : LowerCaseTokenTick) (amt : Fixed128) (txid : Txid) (vout : ℕ) (s : State Fixed128)
        → Spent s
        → Spent (settle env token account from to k amt txid vout s)
    unfolding settle
    settle-Spent token account from to k amt txid vout s h = record {
      spent = ground (arith, h.spent);
    }

    process_transferred-Settled :
        (to : FullHash) (txid : Txid) (vout : ℕ) (s : State Fixed128)
        → Settled (process_transferred env l to txid vout s)
    unfolding process_transferred
    process_transferred-Settled to txid vout s =
        match_rule Settled (lookup l s.valid_transfers) _ _
          (λ e. some-Settled s (record { spent = e }))
          (λ p _.
            match_rule Settled (lookup (to_lower p.1.tick) s.tokens) _ _ (λ _. none-Settled)
              (λ token _.
                match_rule Settled
                  (lookup (record { address = p.0; token = token.proto.tick }) s.token_accounts) _ _
                  (λ _. none-Settled)
                  (λ account _.
                    if_rule Settled
                      (account.transfers_count == 0
                        || ltb (units account.transferable_balance) (units p.1.amt))
                      none _ (λ _. none-Settled)
                      (λ _. some-Settled _ (
                        settle-Spent token account p.0 to (to_lower p.1.tick) p.1.amt txid vout
                          erased
                          (record {
                            spent = lookup-erase l l s.valid_transfers ∙ ground (arith, eq_self l);
                          }))))))
      where
        erased : State Fixed128
        erased = record s {
          cache = record (s.cache) { valid_transfers = erase l s.valid_transfers };
        }

    Spent-idle :
        (to : FullHash) (txid : Txid) (vout : ℕ) (s : State Fixed128)
        → Spent s
        → process_transferred env l to txid vout s ≡ some s
    unfolding process_transferred
    Spent-idle to txid vout s h = ground (arith, h.spent)

    lock-Taken :
        (token : TokenMeta Fixed128) (account : TokenBalance Fixed128)
        (stored : TransferProtoDb Fixed128) (owner : FullHash) (k : LowerCaseTokenTick)
        (amt : Fixed128) (txid : Txid) (vout : ℕ) (s : State Fixed128)
        → Taken s
        → Taken (lock env token account stored l owner k amt txid vout s)
    unfolding lock
    lock-Taken token account stored owner k amt txid vout s h = record { taken = h.taken }

    process_transfer-Taken :
        (owner : FullHash) (proto : MintProtoWrapper Fixed128) (txid : Txid) (vout : ℕ)
        (s : State Fixed128)
        → Taken (process_transfer env l owner proto txid vout s)
    unfolding process_transfer lock
    process_transfer-Taken owner proto txid vout s = record {
      taken = ground (arith, lookup-erase l l s.all_transfers, eq_self l);
    }

    Taken-idle :
        (owner : FullHash) (proto : MintProtoWrapper Fixed128) (txid : Txid) (vout : ℕ)
        (s : State Fixed128)
        → Taken s
        → process_transfer env l owner proto txid vout s ≡ s
    unfolding process_transfer
    Taken-idle owner proto txid vout s h = ground (arith, h.taken)

  pub process_transferred-once :
      (l : Location) (to to' : FullHash) (txid txid' : Txid) (vout vout' : ℕ)
      (s s' : State Fixed128)
      → process_transferred env l to txid vout s ≡ some s'
      → process_transferred env l to' txid' vout' s' ≡ some s'
  process_transferred-once l to to' txid txid' vout vout' s s' e =
      Spent-idle l to' txid' vout' s' ((process_transferred-Settled l to txid vout s).settled s' e)

  -- The inscription of a transfer locks once: when the one at a location has been processed, locked
  -- or refused, a second one there changes nothing.
  pub process_transfer-once :
      (l : Location) (owner owner' : FullHash) (proto proto' : MintProtoWrapper Fixed128)
      (txid txid' : Txid) (vout vout' : ℕ) (s : State Fixed128)
      → process_transfer env l owner' proto' txid' vout'
          (process_transfer env l owner proto txid vout s)
        ≡ process_transfer env l owner proto txid vout s
  process_transfer-once l owner owner' proto proto' txid txid' vout vout' s =
      Taken-idle l owner' proto' txid' vout' _ (process_transfer-Taken l owner proto txid vout s)
