-- ===== src/Tokens/Samples.antt =====
-- Concrete tokens, accounts and actions of src/tokens, for its tests.

use mathlib.Core.Option.{some-injective}
use bel_20_indexer.Env.{Env}
use bel_20_indexer.Prelude.{
  ℕ, ◌+◌, ◌-◌, ◌≡◌, refl, arith, List, [], ◌∷◌, ◌==◌, nat_eq, list_eq, Option, none, some, length,
  Bool-cases, inl, inr, subst, list_beq, ap, sym,
}
use bel_20_indexer.Map.{lookup, sum_by, insert, erase}
use bel_20_indexer.Tokens.Types.{
  TokenMeta, TokenCache, TokenAction, TransferProtoDb, Location, location_eq, AddressToken,
  address_token_eq, FullHash, lower_eq_iff,
}
use bel_20_indexer.Tokens.Holders.{Holders, increase_by, decrease_by, change}
use bel_20_indexer.Tokens.Process.{
  State, run, step, process_token_actions, process_mint, process_transfer, process_transferred,
  mint_into, lock, settle, credit, set_token, push_history,
}
use bel_20_indexer.Tokens.Sound.{IsSound, FitsToken}
use bel_20_indexer.Tokens.Measure.{held, locked, pending}
use bel_20_indexer.Tokens.Ledger.{IsReady}

abbrev pub sample_env : Env
sample_env = record {
  Fixed128 = ℕ;
  units = λ n. n;
  zero_amount = 0;
  add = λ a b. a + b;
  sub = λ a b. a - b;
  scale = λ _. 0;
  units-inj = λ a b e. e;
  units-zero_amount = refl;
  units-add = λ a b _ _. refl;
  units-sub = λ a b _. refl;
  to_lower = λ t. t ∷ [];
  op_return_hash = 99;
}

abbrev pub sample_meta : TokenMeta ℕ
sample_meta = record {
  genesis = record { txid = 1000; index = 0 };
  proto = record {
    tick = 5;
    max = 1000;
    lim = 100;
    dec = 18;
    supply = 300;
    transfer_count = 1;
    mint_count = 3;
    height = 7;
    created = 70;
    deployer = 1;
    transactions = 5;
  };
}

abbrev pub first_location : Location
first_location = record { outpoint = record { txid = 2000; vout = 0 }; offset = 0 }

abbrev pub second_location : Location
second_location = record { outpoint = record { txid = 2001; vout = 0 }; offset = 0 }

abbrev pub first_key : AddressToken
first_key = record { address = 1; token = 5 }

abbrev pub sample_transfer : TransferProtoDb ℕ
sample_transfer = record { tick = 5; amt = 100; height = 8 }

abbrev pub next_transfer : TransferProtoDb ℕ
next_transfer = record { tick = 5; amt = 50; height = 9 }

abbrev pub sample_actions : List (TokenAction ℕ)
sample_actions =
    TokenAction.mint 2 (record { tick = 5; amt = 60 }) 3000 0
    ∷ TokenAction.transfer second_location 1 (record { tick = 5; amt = 50 }) 2001 0
    ∷ TokenAction.transferred first_location 2 3001 0
    ∷ TokenAction.transferred second_location 99 3002 0
    ∷ []

abbrev pub sample_cache : TokenCache ℕ
sample_cache = record {
  tokens = (5 ∷ [], sample_meta) ∷ [];
  token_accounts =
      (
        record { address = 1; token = 5 },
        record { balance = 200; transferable_balance = 100; transfers_count = 1 },
      )
      ∷ [];
  token_actions = sample_actions;
  all_transfers = (second_location, next_transfer) ∷ [];
  valid_transfers = (first_location, (1, sample_transfer)) ∷ [];
}

abbrev pub sample_holders : Holders ℕ
sample_holders = record {
  balances = (5, record { balance = 300; address = 1 } ∷ []) ∷ [];
  stats = (5, 1) ∷ [];
}

-- What the run of the sample leaves: a mint, a lock, a move and a burn.
summary : Option (State ℕ) → ℕ × ℕ
summary none = (0, 0)
summary (some s) = (held sample_env (5 ∷ []) s.token_accounts, length s.history)

sample_run : summary (process_token_actions sample_env sample_cache sample_holders) ≡ (310, 4)
unfolding process_token_actions run step process_mint process_transfer process_transferred mint_into
    lock settle credit set_token push_history lookup insert erase held sum_by increase_by
    decrease_by change list_beq summary
sample_run = refl

pub none≢some : {A : Type 0} {a : A} → none ≡ some a → ⊥
none≢some e = cc

abbrev Registered : FullHash × TransferProtoDb ℕ → Type 0
Registered p =
    (m : TokenMeta ℕ) × (lookup (p.1.tick ∷ []) sample_cache.tokens ≡ some m)
    × (m.proto.tick ≡ p.1.tick)

pub sample-IsSound :
    IsSound sample_env 4 sample_cache.tokens sample_cache.token_accounts
      sample_cache.valid_transfers
unfolding lookup held sum_by locked pending list_beq
sample-IsSound = record {
  tokens_ok = λ k m e. elim (Bool-cases ((5 ∷ []) == k)) [
    | inl hit ↦
        let e' : some sample_meta ≡ some m = rw hit at e in
        let k' : 5 ∷ [] ≡ k = (lower_eq_iff (5 ∷ []) k).0 hit in
        subst (FitsToken sample_env k) (some-injective _ _ e')
          (record { tick_ok = k'; supply_ok = omega arith; max_ok = omega arith })
    | inr miss ↦ absurd (none≢some (rw miss at e))
  ];
  covered = λ k. elim (Bool-cases ((5 ∷ []) == k)) [
    | inl hit ↦ rw hit (omega arith)
    | inr miss ↦ rw miss (omega arith)
  ];
  transfers_ok = λ l p e. elim (Bool-cases (first_location == l)) [
    | inl hit ↦
        let e' : some (1, sample_transfer) ≡ some p = rw hit at e in
        subst Registered (some-injective _ _ e') (sample_meta, refl, refl)
    | inr miss ↦ absurd (none≢some (rw miss at e))
  ];
  locked_ok = λ key. elim (Bool-cases (first_key == key)) [
    | inl hit ↦
        rw (← (address_token_eq.beq_iff first_key key).0 hit)
          (record { amount_ok = omega arith; count_ok = omega arith; room_ok = omega arith })
    | inr miss ↦ record {
      amount_ok = ground (arith, miss);
      count_ok = ground (arith, miss);
      room_ok = ground (arith, miss);
    }
  ];
}

abbrev pub amount_of : Option (TransferProtoDb ℕ) → ℕ
amount_of none = 0
amount_of (some p) = p.amt

pub sample-IsReady : IsReady sample_env sample_cache
unfolding lookup
sample-IsReady = (
  sample-IsSound,
  (tt, (λ stored e. ap (λ (o : Option (TransferProtoDb ℕ)). amount_of o) (sym e), (tt, (tt, tt)))),
)
