-- ===== src/Tokens/Tests.antt =====
-- Concrete tokens, accounts and actions for the theorems of src/tokens.
use bel_20_indexer.Storage.Table.{multi_get_kv}
use bel_20_indexer.Tokens.Samples.{
  sample_env, sample_meta, first_location, second_location, first_key, sample_transfer,
  next_transfer, sample_cache, sample_holders, none≢some, sample-IsSound, sample-IsReady,
}
use bel_20_indexer.Tokens.Needs.{
  Agrees, loaded, load_tokens_data-tickers, load_tokens_data-accounts, moves, moves_from,
}
use bel_20_indexer.Tokens.Load.{Elem, fill_tickers, tickers_of, load_tokens_data}
use bel_20_indexer.Tokens.Parse.{InscriptionTemplate, parse_token_action}
use bel_20_indexer.Tokens.Proto.{
  Result, ok, Brc4, TransferProto, Blockchain, bel_20_validate, try_parse, text_plain,
  accepts_content_type,
}
use bel_20_indexer.Tokens.Accept.{bel_20_validate_iff, Accepted}
use bel_20_indexer.Tokens.Queue.{
  parse_token_action-IsReady, try_parse_iff, FitsMessage, IsValidMessage,
}
use bel_20_indexer.Tokens.Registry.{Matches, increase_by-Matches, decrease_by-Matches}
use bel_20_indexer.Tokens.Terms.{HasTerms, run-HasTerms}
use bel_20_indexer.Tokens.Spent.{process_transferred-once, process_transfer-once}
use mathlib.Core.Option.{some-injective}
use bel_20_indexer.Prelude.{
  ℕ, ◌+◌, ◌≡◌, refl, arith, List, [], ◌∷◌, ◌==◌, nat_eq, list_eq, Option, some, true, false,
  Bool-cases, inl, inr, subst, list_beq, ◌↔◌, Returns, ap, sym, ◌∙◌,
}
use bel_20_indexer.Map.{lookup, insert, contains}
use bel_20_indexer.Tokens.Types.{
  TokenMeta, TokenCache, TokenAction, TokenBalance, TransferProtoDb, Location, location_eq,
  AddressToken, address_token_eq, FullHash, LowerCaseTokenTick,
}
use bel_20_indexer.Tokens.Holders.{
  increase_by, decrease_by, set_contains, holders_of, holders_by_tick,
}
use bel_20_indexer.Tokens.Process.{
  State, run, step, process_token_actions, process_transfer, process_transferred, process_deploy,
  or_default,
}
use bel_20_indexer.Tokens.Sound.{IsSound, supply_of, IsSound-weaken}
use bel_20_indexer.Tokens.Measure.{held, burned, minted}
use bel_20_indexer.Tokens.Ledger.{
  IsReady, process_token_actions-IsSound, process_token_actions-conserves,
}

process_token_actions-IsSound_example :
    Returns
      (process_token_actions sample_env sample_cache sample_holders)
      (λ s. IsSound sample_env 0 s.tokens s.token_accounts s.valid_transfers)
process_token_actions-IsSound_example =
    process_token_actions-IsSound sample_env sample_cache sample_holders sample-IsReady

process_token_actions-conserves_example :
    Returns (process_token_actions sample_env sample_cache sample_holders) (λ s.
      (held sample_env (5 ∷ []) s.token_accounts + burned sample_env (5 ∷ []) s.history
        ≡ held sample_env (5 ∷ []) sample_cache.token_accounts
          + minted sample_env (5 ∷ []) s.history)
      × (supply_of sample_env (5 ∷ []) s.tokens
          ≡ supply_of sample_env (5 ∷ []) sample_cache.tokens
            + minted sample_env (5 ∷ []) s.history))
process_token_actions-conserves_example =
    process_token_actions-conserves sample_env sample_cache sample_holders (5 ∷ []) sample-IsReady

abbrev sample_state : State ℕ
sample_state = record { cache = sample_cache; holders = sample_holders; history = [] }

abbrev deploy_again : List (TokenAction ℕ)
deploy_again =
    TokenAction.deploy (record { txid = 4000; index = 0 })
      (record (sample_meta.proto) { max = 9; deployer = 2 }) 2
    ∷ []

sample-HasTerms : HasTerms sample_env (5 ∷ []) sample_meta sample_state
unfolding lookup list_beq
sample-HasTerms = record { terms = ground arith }

run-HasTerms_example : HasTerms sample_env (5 ∷ []) sample_meta sample_state
unfolding run step process_deploy contains lookup list_beq
run-HasTerms_example =
    run-HasTerms sample_env deploy_again (5 ∷ []) sample_meta sample_state sample_state
      sample-HasTerms refl

-- The registry over the accounts of the sample.
sample-Matches : Matches sample_env sample_holders sample_cache.token_accounts
unfolding lookup set_contains holders_of holders_by_tick
sample-Matches = record {
  entries_ok = λ e t. elim (Bool-cases (5 == t)) [
    | inl hit ↦ elim (Bool-cases (1 == e.address)) [
      | inl own ↦ rw (hit, own) (ground arith)
      | inr other ↦ rw (hit, other) (ground arith)
    ]
    | inr miss ↦ rw (miss) (ground arith)
  ];
  distinct_ok = λ t. elim (Bool-cases (5 == t)) [
    | inl hit ↦ rw (holders_of, hit) (refl, tt)
    | inr miss ↦ rw (holders_of, miss) tt
  ];
  stats_ok = λ t. elim (Bool-cases (5 == t)) [
    | inl hit ↦ rw (holders_of, hit) refl
    | inr miss ↦ rw (holders_of, miss) refl
  ];
}

abbrev grown : TokenBalance ℕ
grown = record { balance = 260; transferable_balance = 100; transfers_count = 1 }

abbrev shrunk : TokenBalance ℕ
shrunk = record { balance = 200; transferable_balance = 0; transfers_count = 0 }

increase_by-Matches_example :
    Matches sample_env
      (increase_by sample_env sample_holders first_key
        (or_default sample_env (lookup first_key sample_cache.token_accounts))
        60)
      (insert first_key grown sample_cache.token_accounts)
unfolding lookup holders_of
increase_by-Matches_example =
    increase_by-Matches sample_env sample_holders sample_cache.token_accounts first_key grown 60
      sample-Matches (omega arith) (omega arith) (omega arith) (omega arith) (omega arith)

decrease_by-Matches_example :
    Matches sample_env
      (decrease_by sample_env sample_holders first_key
        (or_default sample_env (lookup first_key sample_cache.token_accounts))
        100)
      (insert first_key shrunk sample_cache.token_accounts)
unfolding lookup holders_of
decrease_by-Matches_example =
    decrease_by-Matches sample_env sample_holders sample_cache.token_accounts first_key shrunk 100
      sample-Matches (omega arith) (omega arith) (omega arith) (omega arith)

process_transferred-once_example :
    process_transferred sample_env second_location 3 5000 1 sample_state ≡ some sample_state
unfolding process_transferred lookup
process_transferred-once_example =
    process_transferred-once sample_env second_location 2 3 4000 5000 0 1 sample_state sample_state
      refl

process_transfer-once_example :
    process_transfer sample_env second_location 2
      (record { tick = 5; amt = 70 })
      4001
      1
      (process_transfer sample_env second_location 1
        (record { tick = 5; amt = 50 })
        2001
        0
        sample_state)
    ≡ process_transfer sample_env second_location 1
        (record { tick = 5; amt = 50 })
        2001
        0
        sample_state
process_transfer-once_example =
    process_transfer-once sample_env second_location 1 2 (record { tick = 5; amt = 50 })
      (record { tick = 5; amt = 70 }) 2001 4001 0 1 sample_state

-- The text "12", which is read as the decimal 12.
abbrev twelve : List ℕ
twelve = b'1' ∷ b'2' ∷ []

abbrev read_any : List ℕ → Result ℕ
read_any _ = ok 12

bel_20_validate_iff_example :
    (bel_20_validate sample_env read_any twelve ≡ ok 12) ↔ Accepted sample_env read_any twelve 12
bel_20_validate_iff_example = bel_20_validate_iff sample_env read_any twelve 12

abbrev sample_message : Brc4 ℕ
sample_message = Brc4.transfer (TransferProto.bel20 (record { tick = 5; amt = 40 }))

abbrev decode_any : List ℕ → Result (Brc4 ℕ)
decode_any _ = ok sample_message

try_parse_iff_example :
    (try_parse sample_env Blockchain.bellscoin decode_any text_plain twelve ≡ ok sample_message) ↔ (
      (accepts_content_type Blockchain.bellscoin text_plain ≡ true)
      × (decode_any twelve ≡ ok sample_message)
      × IsValidMessage sample_env Blockchain.bellscoin sample_message)
try_parse_iff_example =
    try_parse_iff sample_env Blockchain.bellscoin decode_any text_plain twelve sample_message

-- An inscription of a transfer in the block of the sample.
abbrev sample_inscription : InscriptionTemplate
sample_inscription = record {
  genesis = record { txid = 6000; index = 0 };
  location = record { outpoint = record { txid = 6000; vout = 0 }; offset = 0 };
  content_type = some text_plain;
  owner = 1;
  value = 1000;
  content = some twelve;
  leaked = false;
}

abbrev first_cache : TokenCache ℕ
first_cache = record sample_cache {
  token_actions = TokenAction.transferred first_location 2 3001 0 ∷ [];
}

ok-injective : {a b : Brc4 ℕ} → ok a ≡ ok b → a ≡ b
ok-injective e = ground arith

parse_token_action-IsReady_example :
    IsReady sample_env
      (parse_token_action sample_env Blockchain.bellscoin decode_any sample_inscription 9 90
        first_cache).0
parse_token_action-IsReady_example =
    parse_token_action-IsReady sample_env Blockchain.bellscoin decode_any sample_inscription 9 90
      first_cache
      (λ content b e. subst (FitsMessage sample_env Blockchain.bellscoin) (ok-injective e) tt)
      (IsSound-weaken sample_env (IsSound-weaken sample_env sample-IsSound), (tt, tt)) (tt, tt)

abbrev table_of_tokens : LowerCaseTokenTick → Option (TokenMeta ℕ)
table_of_tokens k = lookup k sample_cache.tokens

abbrev table_of_accounts : AddressToken → Option (TokenBalance ℕ)
table_of_accounts k = lookup k sample_cache.token_accounts

-- The pending and the waiting transfer of the sample are at two locations.
sample-Agrees : Agrees sample_env sample_cache
unfolding lookup
sample-Agrees = λ l p x e f. waiting l x f ∙ sym (pending_tick l p e)
  where
    waiting :
        (l : Location) (x : TransferProtoDb ℕ)
        → lookup l sample_cache.all_transfers ≡ some x
        → x.tick ≡ 5
    waiting l x f = elim (Bool-cases (second_location == l)) [
      | inl hit ↦
          let f' : some next_transfer ≡ some x = rw hit at f in
          ap (λ (y : TransferProtoDb ℕ). y.tick) (sym (some-injective _ _ f'))
      | inr miss ↦ absurd (none≢some (rw miss at f))
    ]

    pending_tick :
        (l : Location) (p : FullHash × TransferProtoDb ℕ)
        → lookup l sample_cache.valid_transfers ≡ some p
        → p.1.tick ≡ 5
    pending_tick l p e = elim (Bool-cases (first_location == l)) [
      | inl hit ↦
          let e' : some (1, sample_transfer) ≡ some p = rw hit at e in
          ap (λ (y : FullHash × TransferProtoDb ℕ). y.1.tick) (sym (some-injective _ _ e'))
      | inr miss ↦ absurd (none≢some (rw miss at e))
    ]

abbrev sample_loaded : TokenCache ℕ
sample_loaded = loaded sample_env sample_cache sample-Agrees table_of_tokens table_of_accounts

abbrev moved_first : TokenAction ℕ
moved_first = TokenAction.transferred first_location 2 3001 0

load_tokens_data-tickers_example : lookup (5 ∷ []) sample_loaded.tokens ≡ table_of_tokens (5 ∷ [])
unfolding lookup
load_tokens_data-tickers_example =
    load_tokens_data-tickers sample_env sample_cache sample-Agrees table_of_tokens table_of_accounts
      moved_first (5 ∷ []) (Elem.in_tail _ _ (Elem.in_tail _ _ (Elem.at_head _)))
      (moves first_location 2 3001 0 (1, sample_transfer) refl)

load_tokens_data-accounts_example :
    lookup (record { address = 1; token = 5 }) sample_loaded.token_accounts
    ≡ table_of_accounts (record { address = 1; token = 5 })
unfolding lookup list_beq load_tokens_data multi_get_kv fill_tickers tickers_of
load_tokens_data-accounts_example =
    load_tokens_data-accounts sample_env sample_cache sample-Agrees table_of_tokens
      table_of_accounts moved_first 1 5 sample_meta
      (Elem.in_tail _ _ (Elem.in_tail _ _ (Elem.at_head _)))
      (moves_from first_location 2 3001 0 (1, sample_transfer) refl) refl
