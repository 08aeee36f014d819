-- ===== src/Map.antt =====
-- Rust's `HashMap` and `BTreeMap`, as association lists over a key with `Eq`. A map that is
-- built by `insert` holds a key once; the laws hold for any list.
use bel_20_indexer.Prelude.{
  ℕ, ◌+◌, ◌≤◌, ◌≡◌, refl, Bool, true, false, Option, none, some, List, [], ◌∷◌, arith, Eq, ◌==◌,
  if◌then◌else◌, eq_self,
}

abbrev pub Map {ℓ κ} : Type ℓ → Type κ → Type (ℓ ⊔ κ)
Map K V = List (K × V)

module _ {ℓ κ} {K : Type ℓ} {V : Type κ} ⦃e : Eq K⦄ where
  unfoldable pub lookup : K → Map K V → Option V
  lookup k [] = none
  lookup k (p ∷ m) = if p.0 == k then some p.1 else lookup k m

  unfoldable pub contains : K → Map K V → Bool
  contains k m = elim (lookup k m) [ none ↦ false | some _ ↦ true ]

  -- `map.insert(k, v)`, and the write through `entry` or `get_mut`
  unfoldable pub insert : K → V → Map K V → Map K V
  insert k v [] = (k, v) ∷ []
  insert k v (p ∷ m) = if p.0 == k then (p.0, v) ∷ m else p ∷ insert k v m

  -- `map.remove(&k)`
  unfoldable pub erase : K → Map K V → Map K V
  erase k [] = []
  erase k ((j, w) ∷ m) = let rest = erase k m in if j == k then rest else (j, w) ∷ rest

  pub lookup-insert :
      (k j : K) (v : V) (m : Map K V)
      → lookup j (insert k v m) ≡ (if k == j then some v else lookup j m)
  unfolding lookup insert
  lookup-insert k j v [] = refl
  lookup-insert k j v (p ∷ m) =
      ground (arith, lookup-insert k j v m, e.beq_iff p.0 j, e.beq_iff p.0 k, e.beq_iff k j)

  pub lookup-erase :
      (k j : K) (m : Map K V) → lookup j (erase k m) ≡ (if k == j then none else lookup j m)
  unfolding lookup erase
  lookup-erase k j [] = ground arith
  lookup-erase k j ((i, w) ∷ m) =
      ground (arith, e.beq_iff k j, e.beq_iff i k, e.beq_iff i j, lookup-erase k j m)

  pub lookup-insert_self : (k : K) (v : V) (m : Map K V) → lookup k (insert k v m) ≡ some v
  lookup-insert_self k v m = ground (arith, lookup-insert k k v m, eq_self k)

  -- A sum over the entries.
  unfoldable pub sum_by : (K → V → ℕ) → Map K V → ℕ
  sum_by f [] = 0
  sum_by f ((k, v) ∷ m) = f k v + sum_by f m

  -- What the entry of one key adds to the sum.
  abbrev pub share : (K → V → ℕ) → K → Option V → ℕ
  share f k none = 0
  share f k (some v) = f k v

  pub sum_by-insert :
      (f : K → V → ℕ) (k : K) (v : V) (m : Map K V)
      → sum_by f (insert k v m) + share f k (lookup k m) ≡ sum_by f m + f k v
  unfolding lookup insert sum_by
  sum_by-insert f k v [] = omega arith
  sum_by-insert f k v ((j, w) ∷ m) = ground (arith, e.beq_iff j k, sum_by-insert f k v m)

  pub sum_by-erase :
      (f : K → V → ℕ) (k : K) (m : Map K V)
      → sum_by f (erase k m) + share f k (lookup k m) ≤ sum_by f m
  unfolding lookup erase sum_by
  sum_by-erase f k [] = omega arith
  sum_by-erase f k ((j, w) ∷ m) = ground (arith, e.beq_iff j k, sum_by-erase f k m)

  pub share-le-sum_by : (f : K → V → ℕ) (k : K) (m : Map K V) → share f k (lookup k m) ≤ sum_by f m
  unfolding lookup sum_by
  share-le-sum_by f k [] = omega arith
  share-le-sum_by f k ((j, w) ∷ m) = ground (arith, e.beq_iff j k, share-le-sum_by f k m)

  pub contains-false : (k : K) (m : Map K V) → contains k m ≡ false → lookup k m ≡ none
  unfolding contains
  contains-false k m h = ground arith
