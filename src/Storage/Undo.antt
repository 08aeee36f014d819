-- ===== src/Storage/Undo.antt =====
-- How batches of writes to a table are taken back by other batches.
use bel_20_indexer.Prelude.{
  ◌≡◌, refl, arith, Bool, true, false, ◌&&◌, not, Option, none, some, List, [], ◌∷◌, Eq, Bool-cases,
  Option-cases, All, Returns, ◌⊎◌, fun_ext, Returns-bind, ap,
}
use bel_20_indexer.Map.{Map, contains}
use bel_20_indexer.Storage.Table.{
  Table, set, remove, extend, remove_batch, multi_get_kv, multi_get_all, has, keys, Stored,
  lookup-multi_get_kv, remove_batch-at, extend-away, extend-Stored, multi_get_kv-Stored, new_keys,
}

abbrev is_some : {V : Type 0} → Option V → Bool
is_some none = false
is_some (some v) = true

module _ {K V : Type 0} ⦃e : Eq K⦄ where
  has-new_keys :
      (before : Map K V) (ks : List K) (k : K)
      → has k (new_keys before ks) ≡ (has k ks && not (contains k before))
  unfolding new_keys
  has-new_keys before [] k = refl
  has-new_keys before (j ∷ ks) k =
      ground (arith, has-new_keys before ks k, e.beq_iff j k, Bool-cases (contains j before))

  has-keys-multi_get_kv :
      (table : Table K V) (ks : List K) (k : K)
      → has k (keys (multi_get_kv table ks)) ≡ (has k ks && is_some (table k))
  unfolding multi_get_kv
  has-keys-multi_get_kv table [] k = refl
  has-keys-multi_get_kv table (j ∷ ks) k =
      ground (arith, has-keys-multi_get_kv table ks k, e.beq_iff j k, Option-cases (table j))

module _ {K V : Type 0} ⦃e : Eq K⦄ (table : Table K V) (items : List (K × V)) where
  abbrev before : Map K V
  before = multi_get_kv table (keys items)

  abbrev fresh : List K
  fresh = new_keys before (keys items)

  has-fresh : (k : K) → has k fresh ≡ (has k (keys items) && not (is_some (table k)))
  unfolding contains
  has-fresh k = ground (
    arith,
    has-new_keys before (keys items) k,
    lookup-multi_get_kv table (keys items) k,
    Option-cases (table k),
  )

  -- Overwritten rows are restored, and then new ones are removed, or the other way round.
  pub restore_remove : remove_batch fresh (extend before (extend items table)) ≡ table
  restore_remove = fun_ext λ k. ground (
    arith,
    remove_batch-at fresh (extend before (extend items table)) k,
    has-fresh k,
    has-keys-multi_get_kv table (keys items) k,
    extend-Stored before table (extend items table) k (multi_get_kv-Stored table (keys items)),
    extend-away items table k,
    Option-cases (table k),
  )

  pub remove_restore : extend before (remove_batch fresh (extend items table)) ≡ table
  remove_restore = fun_ext λ k. ground (
    arith,
    remove_batch-at fresh (extend items table) k,
    has-fresh k,
    has-keys-multi_get_kv table (keys items) k,
    extend-Stored before table (remove_batch fresh (extend items table)) k
        (multi_get_kv-Stored table (keys items)),
    extend-away items table k,
    Option-cases (table k),
  )

module _ {K V : Type 0} ⦃e : Eq K⦄ (table : Table K V) where
  -- Each entry is new to the table, or at a key that is removed before.
  abbrev pub AreNew : List K → List (K × V) → Type 0
  AreNew removed written =
      All (λ (p : K × V). (table p.0 ≡ none) ⊎ (has p.0 removed ≡ true)) written

  pub AreNew-at :
      (removed : List K) (written : List (K × V)) (k : K)
      → AreNew removed written
      → has k (keys written) ≡ true
      → (table k ≡ none) ⊎ (has k removed ≡ true)
  AreNew-at removed [] k h m = ground arith
  AreNew-at removed (p ∷ written) k h m =
      ground (arith, AreNew-at removed written k h.1, e.beq_iff p.0 k, h.0)

  -- A batch that removes what the table has and writes what is new is taken back.
  pub replace_undone :
      (removed written : List (K × V))
      → Stored table removed
      → AreNew (keys removed) written
      → extend removed
          (remove_batch (keys written) (extend written (remove_batch (keys removed) table)))
        ≡ table
  replace_undone removed written held news = fun_ext λ k. ground (
    arith,
    extend-Stored removed table
        (remove_batch (keys written) (extend written (remove_batch (keys removed) table))) k held,
    remove_batch-at (keys written) (extend written (remove_batch (keys removed) table)) k,
    extend-away written (remove_batch (keys removed) table) k,
    remove_batch-at (keys removed) table k,
    AreNew-at (keys removed) written k news,
    Bool-cases (has k (keys written)),
  )

  pub append_undone :
      (written : List (K × V))
      → AreNew [] written
      → remove_batch (keys written) (extend written table) ≡ table
  unfolding extend remove_batch
  append_undone written news = replace_undone [] written tt news

  pub set_undone : (k : K) (v : V) → table k ≡ none → remove k (set k v table) ≡ table
  unfolding remove set
  set_undone k v h = fun_ext λ j. ground (arith, e.beq_iff k j)

  -- The table has all the keys.
  abbrev pub AreThere : List K → Type 0
  AreThere ks = All (λ (k : K). (v : V) × (table k ≡ some v)) ks

  pub multi_get_all-Stored :
      (ks : List K)
      → AreThere ks
      → Returns (multi_get_all table ks) (λ ps. Stored table ps × (keys ps ≡ ks))
  unfolding multi_get_all
  multi_get_all-Stored [] h = (tt, refl)
  multi_get_all-Stored (k ∷ ks) h =
      rw (Returns, h.0.1)
        (Returns-bind _ _ _ (multi_get_all table ks) (multi_get_all-Stored ks h.1)
          (λ ps q. ((h.0.1, q.0), ap (λ js. k ∷ js) q.1)))
