-- ===== src/Storage/Table.antt =====
-- A table of RocksDB, `RocksTable` of packages/rocksdb-wrapper/src/storage.rs, as the function from
-- its keys to its values: what a key is looked up with is what was last written at it.
use bel_20_indexer.Prelude.{
  ◌≡◌, refl, arith, Bool, false, ◌||◌, Option, none, some, List, [], ◌∷◌, ◌==◌, if◌then◌else◌, Eq,
  Bool-cases, inl, inr, eq_self, ◌>>=◌, All, match_rule,
}
use bel_20_indexer.Map.{Map, lookup, contains}

abbrev pub Table : Type 0 → Type 0 → Type 0
Table K V = K → Option V

module _ {K V : Type 0} ⦃e : Eq K⦄ where
  unfoldable pub set : K → V → Table K V → Table K V
  set k v table j = if k == j then some v else table j

  unfoldable pub remove : K → Table K V → Table K V
  remove k table j = if k == j then none else table j

  -- `extend` and `remove_batch` write a batch, whose items take effect in their order.
  unfoldable pub extend : List (K × V) → Table K V → Table K V
  extend [] table = table
  extend (p ∷ ps) table = extend ps (set p.0 p.1 table)

  unfoldable pub remove_batch : List K → Table K V → Table K V
  remove_batch [] table = table
  remove_batch (k ∷ ks) table = remove_batch ks (remove k table)

module _ {K V : Type 0} where
  unfoldable pub multi_get : Table K V → List K → List (Option V)
  multi_get table [] = []
  multi_get table (k ∷ ks) = table k ∷ multi_get table ks

  -- `multi_get_kv` where a key that is not there panics
  unfoldable pub multi_get_all : Table K V → List K → Option (List (K × V))
  multi_get_all table [] = some []
  multi_get_all table (k ∷ ks) = do v ← table k; rest ← multi_get_all table ks; some ((k, v) ∷ rest)

-- `multi_get_kv` where a key that is not there is left out.
module _ {K V : Type 0} where
  unfoldable pub multi_get_kv : Table K V → List K → Map K V
  multi_get_kv table [] = []
  multi_get_kv table (k ∷ ks) = elim (table k) [
    | none ↦ multi_get_kv table ks
    | some v ↦ (k, v) ∷ multi_get_kv table ks
  ]

abbrev pub has : {K : Type 0} ⦃e : Eq K⦄ → K → List K → Bool
has k [] = false
has k (j ∷ ks) = j == k || has k ks

module _ {K V : Type 0} ⦃e : Eq K⦄ where
  pub lookup-multi_get_kv :
      (table : K → Option V) (ks : List K) (k : K)
      → lookup k (multi_get_kv table ks) ≡ (if has k ks then table k else none)
  unfolding multi_get_kv lookup
  lookup-multi_get_kv table [] k = refl
  lookup-multi_get_kv table (j ∷ ks) k = elim (Bool-cases (j == k)) [
    | inl hit ↦
        rw (← (e.beq_iff j k).0 hit) (ground (arith, eq_self j, lookup-multi_get_kv table ks j))
    | inr miss ↦ rw miss (ground (arith, miss, lookup-multi_get_kv table ks k))
  ]

-- The keys that the map of what there was before does not have.
module _ {K V : Type 0} ⦃e : Eq K⦄ where
  unfoldable pub new_keys : Map K V → List K → List K
  new_keys before [] = []
  new_keys before (k ∷ ks) =
      let others = new_keys before ks in if contains k before then others else k ∷ others

abbrev pub keys : {K V : Type 0} → List (K × V) → List K
keys [] = []
keys (p ∷ ps) = p.0 ∷ keys ps

module _ {K V : Type 0} ⦃e : Eq K⦄ where
  pub remove_batch-at :
      (ks : List K) (table : Table K V) (k : K)
      → remove_batch ks table k ≡ (if has k ks then none else table k)
  unfolding remove_batch remove
  remove_batch-at [] table k = refl
  remove_batch-at (j ∷ ks) table k = ground (arith, remove_batch-at ks (remove j table) k)

  -- A batch does nothing at a key that it does not have.
  pub extend-away :
      (ps : List (K × V)) (table : Table K V) (k : K)
      → has k (keys ps) ≡ false
      → extend ps table k ≡ table k
  unfolding extend set
  extend-away [] table k h = refl
  extend-away (p ∷ ps) table k h = ground (arith, extend-away ps (set p.0 p.1 table) k)

  -- The entries are what the table has.
  abbrev pub Stored : Table K V → List (K × V) → Type 0
  Stored table ps = All (λ (p : K × V). table p.0 ≡ some p.1) ps

  -- Entries of one table that are written into another.
  pub extend-Stored :
      (ps : List (K × V)) (before table : Table K V) (k : K)
      → Stored before ps
      → extend ps table k ≡ (if has k (keys ps) then before k else table k)
  unfolding extend set
  extend-Stored [] before table k h = refl
  extend-Stored (p ∷ ps) before table k h =
      ground (arith, extend-Stored ps before (set p.0 p.1 table) k h.1, e.beq_iff p.0 k, h.0)

  pub multi_get_kv-Stored : (table : Table K V) (ks : List K) → Stored table (multi_get_kv table ks)
  unfolding multi_get_kv
  multi_get_kv-Stored table [] = tt
  multi_get_kv-Stored table (k ∷ ks) =
      match_rule (λ m. Stored table m) (table k) (multi_get_kv table ks)
        (λ v. (k, v) ∷ multi_get_kv table ks) (λ _. multi_get_kv-Stored table ks)
        (λ v h. (h, multi_get_kv-Stored table ks))
