-- ===== src/Tokens/Measure.antt =====
-- What the proofs about src/tokens/parser.rs count: the amounts that accounts hold, the amounts
-- that pending transfers lock, and the amounts that history events mint and burn.
use bel_20_indexer.Prelude.{
  ℕ, ◌+◌, ◌≤◌, ◌≡◌, refl, ◌&&◌, Option, none, some, List, [], ◌∷◌, ◌++◌, arith, ◌==◌, nat_eq,
  list_eq, if◌then◌else◌, eq_self,
}
use bel_20_indexer.Map.{
  Map, lookup, insert, erase, sum_by, share, sum_by-insert, sum_by-erase, share-le-sum_by,
}
use bel_20_indexer.Env.{Env}
use bel_20_indexer.Tokens.Types.{
  FullHash, Location, AddressToken, TokenBalance, TransferProtoDb, HistoryTokenAction,
  LowerCaseTokenTick, address_token_eq, location_eq,
}
use bel_20_indexer.Tokens.Process.{or_default}

module _ (env : Env) where
  open env use {
    Fixed128, units, zero_amount, add, sub, to_lower, op_return_hash, units-zero_amount, units-add,
    units-sub,
  }

  abbrev pub whole : TokenBalance Fixed128 → ℕ
  whole b = units b.balance + units b.transferable_balance

  abbrev pub weight : LowerCaseTokenTick → AddressToken → TokenBalance Fixed128 → ℕ
  weight k key b = if to_lower key.token == k then whole b else 0

  -- The whole balances of one token over all accounts.
  unfoldable pub held : LowerCaseTokenTick → Map AddressToken (TokenBalance Fixed128) → ℕ
  held k m = sum_by (weight k) m

  abbrev pub lock_weight : AddressToken → Location → FullHash × TransferProtoDb Fixed128 → ℕ
  lock_weight key l p = if p.0 == key.address && p.1.tick == key.token then units p.1.amt else 0

  abbrev pub lock_one : AddressToken → Location → FullHash × TransferProtoDb Fixed128 → ℕ
  lock_one key l p = if p.0 == key.address && p.1.tick == key.token then 1 else 0

  -- What the pending transfers of one account lock, and how many they are.
  unfoldable pub locked : AddressToken → Map Location (FullHash × TransferProtoDb Fixed128) → ℕ
  locked key m = sum_by (lock_weight key) m

  unfoldable pub pending : AddressToken → Map Location (FullHash × TransferProtoDb Fixed128) → ℕ
  pending key m = sum_by (lock_one key) m

  abbrev pub event_minted : LowerCaseTokenTick → HistoryTokenAction Fixed128 → ℕ
  event_minted k (HistoryTokenAction.mint t amt _ _ _) = if to_lower t == k then units amt else 0
  event_minted k _ = 0

  abbrev pub event_burned : LowerCaseTokenTick → HistoryTokenAction Fixed128 → ℕ
  event_burned k (HistoryTokenAction.send t amt r _ _ _) =
      if to_lower t == k && r == op_return_hash then units amt else 0
  event_burned k _ = 0

  unfoldable pub minted : LowerCaseTokenTick → List (HistoryTokenAction Fixed128) → ℕ
  minted k [] = 0
  minted k (e ∷ es) = event_minted k e + minted k es

  unfoldable pub burned : LowerCaseTokenTick → List (HistoryTokenAction Fixed128) → ℕ
  burned k [] = 0
  burned k (e ∷ es) = event_burned k e + burned k es

  pub minted-append :
      (k : LowerCaseTokenTick) (xs ys : List (HistoryTokenAction Fixed128))
      → minted k (xs ++ ys) ≡ minted k xs + minted k ys
  unfolding minted
  minted-append k [] ys = omega arith
  minted-append k (x ∷ xs) ys = omega (arith, minted-append k xs ys)

  pub burned-append :
      (k : LowerCaseTokenTick) (xs ys : List (HistoryTokenAction Fixed128))
      → burned k (xs ++ ys) ≡ burned k xs + burned k ys
  unfolding burned
  burned-append k [] ys = omega arith
  burned-append k (x ∷ xs) ys = omega (arith, burned-append k xs ys)

  pub minted-snoc :
      (k : LowerCaseTokenTick) (xs : List (HistoryTokenAction Fixed128))
      (e : HistoryTokenAction Fixed128)
      → minted k (xs ++ e ∷ []) ≡ minted k xs + event_minted k e
  unfolding minted
  minted-snoc k xs e = omega (arith, minted-append k xs (e ∷ []))

  pub burned-snoc :
      (k : LowerCaseTokenTick) (xs : List (HistoryTokenAction Fixed128))
      (e : HistoryTokenAction Fixed128)
      → burned k (xs ++ e ∷ []) ≡ burned k xs + event_burned k e
  unfolding burned
  burned-snoc k xs e = omega (arith, burned-append k xs (e ∷ []))

  -- The weight of an absent account is that of the default.
  pub share-weight :
      (k : LowerCaseTokenTick) (key : AddressToken) (o : Option (TokenBalance Fixed128))
      → share (weight k) key o ≡ weight k key (or_default env o)
  share-weight k key none = ground (arith, units-zero_amount)
  share-weight k key (some b) = refl

  pub held-insert :
      (k : LowerCaseTokenTick) (key : AddressToken) (b : TokenBalance Fixed128)
      (m : Map AddressToken (TokenBalance Fixed128))
      → held k (insert key b m) + weight k key (or_default env (lookup key m))
        ≡ held k m + weight k key b
  unfolding held
  held-insert k key b m =
      omega (arith, sum_by-insert (weight k) key b m, share-weight k key (lookup key m))

  pub whole-le-held :
      (key : AddressToken) (m : Map AddressToken (TokenBalance Fixed128))
      → whole (or_default env (lookup key m)) ≤ held (to_lower key.token) m
  unfolding held
  whole-le-held key m = ground (
    arith,
    share-le-sum_by (weight (to_lower key.token)) key m,
    share-weight (to_lower key.token) key (lookup key m),
    eq_self (to_lower key.token),
  )

  pub locked-erase :
      (key : AddressToken) (l : Location) (p : FullHash × TransferProtoDb Fixed128)
      (m : Map Location (FullHash × TransferProtoDb Fixed128))
      → lookup l m ≡ some p
      → (locked key (erase l m) + lock_weight key l p ≤ locked key m)
        × (pending key (erase l m) + lock_one key l p ≤ pending key m)
  unfolding locked pending
  locked-erase key l p m h =
      ground (arith, sum_by-erase (lock_weight key) l m, sum_by-erase (lock_one key) l m)

  pub locked-insert :
      (key : AddressToken) (l : Location) (p : FullHash × TransferProtoDb Fixed128)
      (m : Map Location (FullHash × TransferProtoDb Fixed128))
      → (locked key (insert l p m) ≤ locked key m + lock_weight key l p)
        × (pending key (insert l p m) ≤ pending key m + lock_one key l p)
  unfolding locked pending
  locked-insert key l p m =
      omega (arith, sum_by-insert (lock_weight key) l p m, sum_by-insert (lock_one key) l p m)
