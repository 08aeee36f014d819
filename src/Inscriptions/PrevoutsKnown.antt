-- ===== src/Inscriptions/PrevoutsKnown.antt =====
-- What the map of spent outputs has, after `process_prevouts` of src/inscriptions/utils.rs.
use bel_20_indexer.Prelude.{
  ℕ, ◌≡◌, refl, sym, ap, arith, Option, none, some, List, [], ◌∷◌, ◌++◌, Bool, true, false, ◌==◌,
  nat_eq, ◌||◌, ◌>>=◌, if◌then◌else◌, Eq, eq_self, Bool-cases, inl, inr, All, Returns, match_rule,
  ◌∙◌,
}
use mathlib.Core.Option.{some-injective}
use bel_20_indexer.Map.{Map, lookup, insert, lookup-insert}
use bel_20_indexer.Storage.Table.{Table, has}
use bel_20_indexer.Tokens.Types.{OutPoint, outpoint_eq}
use bel_20_indexer.Db.TxPrevout.{TxPrevout}
use bel_20_indexer.Blk.Tx.{EvaluatedTx, TxInput, is_coinbase}
use bel_20_indexer.Blk.Block.{Hashed}
use bel_20_indexer.Inscriptions.Template.{spent_outpoints}
use bel_20_indexer.Inscriptions.Keyed.{AllKnown}
use bel_20_indexer.Inscriptions.Prevouts.{
  collect, unique, Resolved, block_spends, block_outputs, source, resolve, process_prevouts,
}
use bel_20_indexer.Reorg.Write.{ProcessedData}

module _ {K : Type 0} ⦃e : Eq K⦄ where
  has-append : (k : K) (xs ys : List K) → has k (xs ++ ys) ≡ (has k xs || has k ys)
  has-append k [] ys = refl
  has-append k (x ∷ xs) ys = ground (arith, has-append k xs ys)

  has-unique :
      (k : K) (seen ks : List K) → (has k (unique seen ks) || has k seen) ≡ (has k ks || has k seen)
  unfolding unique
  has-unique k seen [] = refl
  has-unique k seen (j ∷ ks) =
      ground (arith, has-unique k (j ∷ seen) ks, has-unique k seen ks, e.beq_iff j k)

  has-unique_all : (k : K) (ks : List K) → has k (unique [] ks) ≡ has k ks
  has-unique_all k ks = ground (arith, has-unique k [] ks)

module _ (table : Table OutPoint TxPrevout) (outputs : Map OutPoint TxPrevout) where
  -- The first key that nothing is known of, or the sources of all keys.
  abbrev Exact : List OutPoint → Map OutPoint TxPrevout → Resolved (Map OutPoint TxPrevout) → Type 0
  Exact keys before (Resolved.missing k) = (has k keys ≡ true) × (source table outputs k ≡ none)
  Exact keys before (Resolved.found r) =
      ((k : OutPoint)
        → lookup k r ≡ (if has k keys then source table outputs k else lookup k before))
      × ((k : OutPoint) → has k keys ≡ true → (v : TxPrevout) × (source table outputs k ≡ some v))

  at_key :
      (j : OutPoint) (v : TxPrevout) (keys : List OutPoint) (before : Map OutPoint TxPrevout)
      (k : OutPoint)
      → source table outputs j ≡ some v
      → (found : Option TxPrevout)
      → found ≡ (if has k keys then source table outputs k else lookup k (insert j v before))
      → found ≡ (if has k (j ∷ keys) then source table outputs k else lookup k before)
  at_key j v keys before k e found h = elim (Bool-cases (j == k)) [
    | inl hit ↦
        let same = (outpoint_eq.beq_iff j k).0 hit in
        ground (arith, lookup-insert j k v before, ap (source table outputs) same)
    | inr miss ↦ ground (arith, lookup-insert j k v before)
  ]

  known_at :
      (j : OutPoint) (v : TxPrevout) (keys : List OutPoint) (k : OutPoint)
      → source table outputs j ≡ some v
      → has k (j ∷ keys) ≡ true
      → (has k keys ≡ true → (w : TxPrevout) × (source table outputs k ≡ some w))
      → (w : TxPrevout) × (source table outputs k ≡ some w)
  known_at j v keys k e m h = elim (Bool-cases (j == k)) [
    | inl hit ↦ (v, ap (source table outputs) (sym ((outpoint_eq.beq_iff j k).0 hit)) ∙ e)
    | inr miss ↦ h (ground arith)
  ]

  insert-Exact :
      (j : OutPoint) (v : TxPrevout) (keys : List OutPoint) (before : Map OutPoint TxPrevout)
      (r : Resolved (Map OutPoint TxPrevout))
      → source table outputs j ≡ some v
      → Exact keys (insert j v before) r
      → Exact (j ∷ keys) before r
  insert-Exact j v keys before (Resolved.missing k) e h = (ground (arith, h.0), h.1)
  insert-Exact j v keys before (Resolved.found r) e h = (
    (λ k. at_key j v keys before k e (lookup k r) (h.0 k)),
    (λ k m. known_at j v keys k e m (h.1 k)),
  )

  resolve-Exact :
      (keys : List OutPoint) (before : Map OutPoint TxPrevout)
      → Exact keys before (resolve table outputs keys before)
  unfolding resolve
  resolve-Exact [] before = ((λ k. refl), (λ k h. absurd cc))
  resolve-Exact (j ∷ keys) before =
      match_rule (Exact (j ∷ keys) before) (source table outputs j) (Resolved.missing j)
        (λ v. resolve table outputs keys (insert j v before)) (λ e. (ground (arith, eq_self j), e))
        (λ v e.
          insert-Exact j v keys before (resolve table outputs keys (insert j v before)) e
            (resolve-Exact keys (insert j v before)))

bind-some :
    {A B : Type 0} (o : Option A) (f : A → Option B) {b : B}
    → (o >>= f) ≡ some b
    → (a : A) × (o ≡ some a) × (f a ≡ some b)
bind-some none f h = absurd cc
bind-some (some a) f h = (a, refl, h)

module _ {W : Type 0} where
  spent-has :
      (all : List OutPoint) (inputs : List (TxInput W))
      → ((k : OutPoint) → has k (spent_outpoints inputs) ≡ true → has k all ≡ true)
      → All (λ (i : TxInput W). has i.outpoint all ≡ true) inputs
  unfolding spent_outpoints
  spent-has all [] within = tt
  spent-has all (i ∷ inputs) within = (
    within i.outpoint (ground (arith, eq_self i.outpoint)),
    spent-has all inputs (λ k h. within k (ground (arith, h))),
  )

  known_inputs :
      (r : Map OutPoint TxPrevout) (all : List OutPoint) (inputs : List (TxInput W))
      → ((k : OutPoint) → has k all ≡ true → (v : TxPrevout) × (lookup k r ≡ some v))
      → All (λ (i : TxInput W). has i.outpoint all ≡ true) inputs
      → AllKnown r inputs
  known_inputs r all [] known h = tt
  known_inputs r all (i ∷ inputs) known h =
      (known i.outpoint h.0, known_inputs r all inputs known h.1)

module _ {W S : Type 0} where
  -- The inputs of transactions that are not the coinbase are among the keys.
  abbrev SpendsIn : List OutPoint → Hashed (EvaluatedTx W S) → Type 0
  SpendsIn all tx =
      is_coinbase tx.value ≡ some false
      → All (λ (i : TxInput W). has i.outpoint all ≡ true) tx.value.inputs

  block_spends-SpendsIn :
      (all : List OutPoint) (txs : List (Hashed (EvaluatedTx W S))) (spends : List OutPoint)
      → block_spends txs ≡ some spends
      → ((k : OutPoint) → has k spends ≡ true → has k all ≡ true)
      → All (SpendsIn all) txs
  unfolding block_spends
  block_spends-SpendsIn all [] spends h within = tt
  block_spends-SpendsIn all (tx ∷ txs) spends h within =
      let coinbase = bind-some (is_coinbase tx.value) _ h in
      let rest = bind-some (block_spends txs) _ coinbase.2 in
      let spent = some-injective _ _ rest.2 in
      let here = spent_outpoints tx.value.inputs in
      (
        (λ e. spent-has all tx.value.inputs (λ k m. within k (
            ground
              (arith, spent, some-injective _ _ (sym e ∙ coinbase.1), has-append k here rest.0)))),
        block_spends-SpendsIn all txs rest.0 rest.1
            (λ k m. within k (ground (arith, spent, has-append k here rest.0))),
      )

  -- A transaction that is not the coinbase spends what the map has.
  abbrev pub InputsKnown : Map OutPoint TxPrevout → Hashed (EvaluatedTx W S) → Type 0
  InputsKnown r tx = is_coinbase tx.value ≡ some false → AllKnown r tx.value.inputs

  known_txs :
      (r : Map OutPoint TxPrevout) (all : List OutPoint) (txs : List (Hashed (EvaluatedTx W S)))
      → ((k : OutPoint) → has k all ≡ true → (v : TxPrevout) × (lookup k r ≡ some v))
      → All (SpendsIn all) txs
      → All (InputsKnown r) txs
  known_txs r all [] known h = tt
  known_txs r all (tx ∷ txs) known h =
      ((λ e. known_inputs r all tx.value.inputs known (h.0 e)), known_txs r all txs known h.1)

module _ {W S : Type 0} (is_provably_unspendable : List ℕ → Bool) (script_hash : List ℕ → ℕ)
    (table : Table OutPoint TxPrevout) (txs : List (Hashed (EvaluatedTx W S))) where
  abbrev pub made : Map OutPoint TxPrevout
  made = collect (block_outputs is_provably_unspendable script_hash txs) []

  -- An error names an output that is spent, and is neither in the table nor made by the block.
  abbrev pub Outcome :
      {F : Type 0}
      → List OutPoint
      → Resolved (Map OutPoint TxPrevout × List (ProcessedData F))
      → Type 0
  Outcome spends (Resolved.missing k) = (has k spends ≡ true) × (source table made k ≡ none)
  Outcome spends (Resolved.found r) =
      ((k : OutPoint) → lookup k r.0 ≡ (if has k spends then source table made k else none))
      × All (InputsKnown r.0) txs

  Exact-Outcome :
      {F : Type 0} (spends : List OutPoint) (items : List (ProcessedData F))
      (r : Resolved (Map OutPoint TxPrevout))
      → block_spends txs ≡ some spends
      → Exact table made (unique [] spends) [] r
      → Outcome spends (elim r [
        | Resolved.missing k ↦ Resolved.missing k
        | Resolved.found result ↦ Resolved.found (result, items)
      ])
  unfolding lookup
  Exact-Outcome spends items (Resolved.missing k) e h = (sym (has-unique_all k spends) ∙ h.0, h.1)
  Exact-Outcome spends items (Resolved.found r) e h = (
    (λ k. ground (arith, h.0 k, has-unique_all k spends)),
    known_txs r spends txs
        (λ k m.
          let source_at = h.1 k (has-unique_all k spends ∙ m) in
          (source_at.0, ground (arith, h.0 k, has-unique_all k spends, m, source_at.1)))
        (block_spends-SpendsIn spends txs spends e (λ k m. m)),
  )

  pub process_prevouts-Outcome :
      {F : Type 0} (spends : List OutPoint) (data_to_write : List (ProcessedData F))
      → block_spends txs ≡ some spends
      → Returns
          (process_prevouts is_provably_unspendable script_hash table txs data_to_write)
          (Outcome spends)
  unfolding process_prevouts
  process_prevouts-Outcome spends data_to_write h =
      rw (Returns, h)
        (Exact-Outcome spends
          (data_to_write ++ (ProcessedData.prevouts made (unique [] spends) ∷ []))
          (resolve table made (unique [] spends) []) h
          (resolve-Exact table made (unique [] spends) []))
