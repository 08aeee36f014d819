-- ===== src/Tokens/Sound.antt =====
-- The invariant of the maps of `TokenCache` (src/tokens/parser.rs), and how it goes through the
-- writes that the token engine is made of.
use bel_20_indexer.Prelude.{
  ℕ, suc, ◌+◌, ◌≤◌, ◌<◌, ◌^◌, ◌≡◌, refl, true, false, inl, inr, Option, none, some, arith, ◌==◌,
  nat_eq, list_eq, Bool-cases, ◌⊎◌, ◌∙◌, subst,
}
use bel_20_indexer.Map.{Map, lookup, insert, erase, lookup-insert, lookup-erase}
use bel_20_indexer.Env.{Env, max_units}
use bel_20_indexer.Tokens.Types.{
  FullHash, Location, AddressToken, TokenBalance, TransferProtoDb, TokenMeta, LowerCaseTokenTick,
  lower_eq_iff, address_token_eq, location_eq,
}
use bel_20_indexer.Tokens.Process.{or_default}
use bel_20_indexer.Tokens.Measure.{whole, held, locked, pending, held-insert, locked-erase}

module _ (env : Env) where
  open env use {Fixed128, units, to_lower}

  abbrev pub Tokens : Type 0
  Tokens = Map LowerCaseTokenTick (TokenMeta Fixed128)

  abbrev pub Accounts : Type 0
  Accounts = Map AddressToken (TokenBalance Fixed128)

  abbrev pub Transfers : Type 0
  Transfers = Map Location (FullHash × TransferProtoDb Fixed128)

  -- The minted amount of a token, which is 0 before its deployment.
  abbrev pub supply_in : Option (TokenMeta Fixed128) → ℕ
  supply_in none = 0
  supply_in (some m) = units m.proto.supply

  abbrev pub supply_of : LowerCaseTokenTick → Tokens → ℕ
  supply_of k t = supply_in (lookup k t)

  -- The token that is kept under `k` has this tick and room below its limits.
  pub record FitsToken (k : LowerCaseTokenTick) (m : TokenMeta Fixed128) : Type 0 where
    pub tick_ok : to_lower m.proto.tick ≡ k
    pub supply_ok : units m.proto.supply ≤ units m.proto.max
    pub max_ok : units m.proto.max ≤ max_units

  -- `n` is the number of actions that may still raise the counter of transfers.
  pub record Covers (n : ℕ) (key : AddressToken) (b : TokenBalance Fixed128) (v : Transfers)
      : Type 0 where
    pub amount_ok : locked env key v ≤ units b.transferable_balance
    pub count_ok : pending env key v ≤ b.transfers_count
    pub room_ok : b.transfers_count + n < 2 ^ 64

  pub record IsSound (n : ℕ) (t : Tokens) (a : Accounts) (v : Transfers) : Type 0 where
    pub tokens_ok :
        (k : LowerCaseTokenTick) (m : TokenMeta Fixed128) → lookup k t ≡ some m → FitsToken k m
    pub covered : (k : LowerCaseTokenTick) → held env k a ≤ supply_of k t
    pub transfers_ok :
        (l : Location) (p : FullHash × TransferProtoDb Fixed128)
        → lookup l v ≡ some p
        → (m : TokenMeta Fixed128) × (lookup (to_lower p.1.tick) t ≡ some m)
          × (m.proto.tick ≡ p.1.tick)
    pub locked_ok : (key : AddressToken) → Covers n key (or_default env (lookup key a)) v

  pub IsSound-weaken :
      {n : ℕ} {t : Tokens} {a : Accounts} {v : Transfers} → IsSound (suc n) t a v → IsSound n t a v
  IsSound-weaken h = record {
    tokens_ok = h.tokens_ok;
    covered = h.covered;
    transfers_ok = h.transfers_ok;
    locked_ok = λ key. let c = h.locked_ok key in omega (arith, c.amount_ok, c.count_ok, c.room_ok);
  }

  supply_in-kept :
      (o : Option (TokenMeta Fixed128)) (m : TokenMeta Fixed128)
      → ((m' : TokenMeta Fixed128)
          → o ≡ some m'
          → (m.proto.tick ≡ m'.proto.tick) × (units m'.proto.supply ≤ units m.proto.supply))
      → supply_in o ≤ units m.proto.supply
  supply_in-kept none m keeps = omega arith
  supply_in-kept (some m') m keeps = (keeps m' refl).1

  -- A token may be put under a new key, or changed with its tick kept and its supply not lowered.
  pub IsSound-token :
      {n : ℕ} {t : Tokens} {a : Accounts} {v : Transfers} (k : LowerCaseTokenTick)
      (m : TokenMeta Fixed128)
      → IsSound n t a v
      → FitsToken k m
      → ((m' : TokenMeta Fixed128)
          → lookup k t ≡ some m'
          → (m.proto.tick ≡ m'.proto.tick) × (units m'.proto.supply ≤ units m.proto.supply))
      → IsSound n (insert k m t) a v
  IsSound-token {t} {v} k m h fits keeps = record {
    tokens_ok = λ j x e. grind (arith, lookup-insert k j m t, lower_eq_iff k j, h.tokens_ok j x);
    covered = λ j. ground (
      arith,
      lookup-insert k j m t,
      h.covered j,
      lower_eq_iff k j,
      supply_in-kept (lookup k t) m keeps,
    );
    transfers_ok = λ l p e.
        let (x, found, same) = h.transfers_ok l p e in
        elim (Bool-cases (k == to_lower p.1.tick)) [
          | inl hit ↦
              let back : lookup k t ≡ some x = rw ((lower_eq_iff _ _).0 hit) found in
              (m, rw (lookup-insert, hit), (keeps x back).0 ∙ same)
          | inr miss ↦ (x, rw (lookup-insert, miss) found, same)
        ];
    locked_ok = h.locked_ok;
  }

  -- An account may be changed where the supply covers the new total.
  pub IsSound-account :
      {n : ℕ} {t : Tokens} {a : Accounts} {v : Transfers} (key : AddressToken)
      (b : TokenBalance Fixed128)
      → IsSound n t a v
      → held env (to_lower key.token) a + whole env b
        ≤ supply_of (to_lower key.token) t + whole env (or_default env (lookup key a))
      → Covers n key b v
      → IsSound n t (insert key b a) v
  IsSound-account {n} {a} {v} key b h room c = record {
    tokens_ok = h.tokens_ok;
    covered = λ j.
        ground (arith, held-insert env j key b a, h.covered j, lower_eq_iff (to_lower key.token) j);
    transfers_ok = h.transfers_ok;
    locked_ok = λ j. locked_after j (Bool-cases (key == j));
  }
    where
      locked_after :
          (j : AddressToken)
          → ((key == j) ≡ true) ⊎ ((key == j) ≡ false)
          → Covers n j (or_default env (lookup j (insert key b a))) v
      locked_after j (inl hit) = rw (lookup-insert, hit, ← (address_token_eq.beq_iff key j).0 hit) c
      locked_after j (inr miss) = rw (lookup-insert, miss) (h.locked_ok j)

  pub IsSound-erase :
      {n : ℕ} {t : Tokens} {a : Accounts} {v : Transfers} (l : Location)
      (p : FullHash × TransferProtoDb Fixed128)
      → lookup l v ≡ some p
      → IsSound n t a v
      → IsSound n t a (erase l v)
  IsSound-erase {v} l p e h = record {
    tokens_ok = h.tokens_ok;
    covered = h.covered;
    transfers_ok = λ j q f. h.transfers_ok j q (ground (arith, lookup-erase l j v));
    locked_ok = λ j.
        let c = h.locked_ok j in
        omega (arith, c.amount_ok, c.count_ok, c.room_ok, locked-erase env j l p v e);
  }

  -- A transfer may be added where its account covers it.
  pub IsSound-insert :
      {n : ℕ} {t : Tokens} {a : Accounts} {v : Transfers} (l : Location)
      (p : FullHash × TransferProtoDb Fixed128) (m : TokenMeta Fixed128)
      → lookup (to_lower p.1.tick) t ≡ some m
      → m.proto.tick ≡ p.1.tick
      → IsSound n t a v
      → ((key : AddressToken) → Covers n key (or_default env (lookup key a)) (insert l p v))
      → IsSound n t a (insert l p v)
  IsSound-insert {t} {v} l p m found same h covers = record {
    tokens_ok = h.tokens_ok;
    covered = h.covered;
    transfers_ok = λ j q f. elim (Bool-cases (l == j)) [
      | inl hit ↦
          let e : p ≡ q = ground (arith, lookup-insert l j p v) in
          subst
            (λ (r : FullHash × TransferProtoDb Fixed128).
              (x : TokenMeta Fixed128) × (lookup (to_lower r.1.tick) t ≡ some x)
              × (x.proto.tick ≡ r.1.tick))
            e (m, found, same)
      | inr miss ↦ h.transfers_ok j q (ground (arith, lookup-insert l j p v))
    ];
    locked_ok = covers;
  }
