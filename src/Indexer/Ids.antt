-- ===== src/Indexer/Ids.antt =====
-- The numbers of the rows of history of a block, and the hashes whose addresses are loaded.
use bel_20_indexer.Prelude.{
  length-append, Bool-cases, inl, inr, ◌==◌, nat_eq, ℕ, zero, suc, ◌+◌, ◌*◌, ◌%◌, ◌^◌, ◌≤◌, ◌<◌,
  ◌≡◌, refl, ap, ◌∙◌, arith, List, [], ◌∷◌, ◌++◌, length, Returns, Returns-bind, leb, true,
}
use bel_20_indexer.Tokens.Types.{HistoryTokenAction, tick, recipient, sender}
use bel_20_indexer.Db.History.{HistoryValue, from_token_history}
use bel_20_indexer.Db.AddressTokenId.{AddressTokenIdDb}
use bel_20_indexer.Storage.Table.{keys}
use bel_20_indexer.Reorg.Write.{insert_by_id, sorted_by_id}
use bel_20_indexer.Indexer.Rows.{Rows, next_id, action_rows, history_rows}

abbrev pub ids : List AddressTokenIdDb → List ℕ
ids [] = []
ids (k ∷ ks) = k.id ∷ ids ks

-- The numbers behind one, ascending.
abbrev pub up_from : ℕ → ℕ → List ℕ
up_from n zero = []
up_from n (suc m) = (n + 1) ∷ up_from (n + 1) m

abbrev first_id : List ℕ → ℕ
first_id [] = 0
first_id (n ∷ ns) = n

insert_by_id-front :
    (key : AddressTokenIdDb) (ks : List AddressTokenIdDb) (n m : ℕ)
    → key.id ≤ n
    → ids ks ≡ up_from n m
    → insert_by_id key ks ≡ key ∷ ks
unfolding insert_by_id
insert_by_id-front key [] n m le h = refl
insert_by_id-front key (k ∷ ks) n zero le h = absurd cc
insert_by_id-front key (k ∷ ks) n (suc m) le h =
    let first : k.id ≡ n + 1 = ap first_id h in ground (arith, first, le)

one_row :
    (key : AddressTokenIdDb) (ks : List AddressTokenIdDb) (n m : ℕ)
    → key.id ≡ n + 1
    → ids (sorted_by_id ks) ≡ up_from key.id m
    → ids (sorted_by_id (key ∷ ks)) ≡ up_from n (suc m)
unfolding sorted_by_id
one_row key ks n m e h =
    rw (insert_by_id-front key (sorted_by_id ks) key.id m (omega arith) h, h, e) refl

two_rows :
    (late early : AddressTokenIdDb) (ks : List AddressTokenIdDb) (n m : ℕ)
    → late.id ≡ n + 1 + 1
    → early.id ≡ n + 1
    → ids (sorted_by_id ks) ≡ up_from late.id m
    → ids (sorted_by_id (late ∷ (early ∷ ks))) ≡ up_from n (suc (suc m))
unfolding sorted_by_id insert_by_id
two_rows late early ks n m e e' h =
    let in_order : leb early.id late.id ≡ true = ground (arith, e, e') in
    rw
      (
        insert_by_id-front early (sorted_by_id ks) late.id m (omega (arith, e, e')) h,
        in_order,
        insert_by_id-front late (sorted_by_id ks) late.id m (omega arith) h,
      )
      (rw (h, e', e) refl)

module _ {F : Type 0} (block_height : ℕ) where
  -- The rows are numbered without a gap behind `n`, in the order in which they are stored for the
  -- block.
  abbrev pub Numbered : ℕ → Rows F → Type 0
  Numbered n r =
      (ids (sorted_by_id (keys r.rows)) ≡ up_from n (length r.rows))
      × (r.last_history_id ≡ n + length r.rows)

  -- The rows of one action, before others.
  abbrev Begins : ℕ → Rows F → Type 0
  Begins n first =
      (first.last_history_id ≡ n + length first.rows)
      × (length first.rows ≤ 2)
      × ((rest : List (AddressTokenIdDb × HistoryValue F))
          → ids (sorted_by_id (keys rest)) ≡ up_from first.last_history_id (length rest)
          → ids (sorted_by_id (keys (first.rows ++ rest)))
            ≡ up_from n (length (first.rows ++ rest)))

  action_rows-Begins :
      (n : ℕ) (action : HistoryTokenAction F)
      → n + 2 < 2 ^ 64
      → Returns (action_rows block_height n action) (Begins n)
  unfolding action_rows next_id from_token_history tick recipient sender
  action_rows-Begins n (HistoryTokenAction.deploy t max lim dec r txid vout) h =
      let own : (n + 1) % 2 ^ 64 ≡ n + 1 = omega (arith, h) in
      (own, omega arith, (λ rest e. one_row _ (keys rest) n (length rest) own e))
  action_rows-Begins n (HistoryTokenAction.mint t amt r txid vout) h =
      let own : (n + 1) % 2 ^ 64 ≡ n + 1 = omega (arith, h) in
      (own, omega arith, (λ rest e. one_row _ (keys rest) n (length rest) own e))
  action_rows-Begins n (HistoryTokenAction.deploy_transfer t amt r txid vout) h =
      let own : (n + 1) % 2 ^ 64 ≡ n + 1 = omega (arith, h) in
      (own, omega arith, (λ rest e. one_row _ (keys rest) n (length rest) own e))
  action_rows-Begins n (HistoryTokenAction.send t amt to from txid vout) h =
      let own : (n + 1) % 2 ^ 64 ≡ n + 1 = omega (arith, h) in
      let next : ((n + 1) % 2 ^ 64 + 1) % 2 ^ 64 ≡ n + 1 + 1 = omega (arith, h) in
      elim (Bool-cases (from == to)) [
        | inl self ↦
            rw (Returns, self)
              (own, omega arith, (λ rest e. one_row _ (keys rest) n (length rest) own e))
        | inr other ↦
            rw (Returns, other)
              (
                next ∙ omega arith,
                omega arith,
                (λ rest e. two_rows _ _ (keys rest) n (length rest) next own e),
              )
      ]

  -- The rows of the actions of a block are numbered without a gap from the last number on that was
  -- given out, there are at most two for each, and the last number is that of the last row, where
  -- the numbers fit 64 bits.
  pub history_rows-Numbered :
      (n : ℕ) (actions : List (HistoryTokenAction F))
      → n + 2 * length actions < 2 ^ 64
      → Returns
          (history_rows block_height n actions)
          (λ r. Numbered n r × (length r.rows ≤ 2 * length actions))
  unfolding history_rows sorted_by_id
  history_rows-Numbered n [] h = ((refl, omega arith), omega arith)
  history_rows-Numbered n (action ∷ actions) h =
      Returns-bind (Begins n) _ _ (action_rows block_height n action)
        (action_rows-Begins n action (omega (arith, h)))
        (λ first b.
          Returns-bind _ _ _ (history_rows block_height first.last_history_id actions)
            (history_rows-Numbered first.last_history_id actions (omega (arith, h, b.0, b.1)))
            (λ others k.
              let total = length-append first.rows others.rows in
              (
                (b.2 others.rows k.0.0, omega (arith, k.0.1, b.0, total)),
                omega (arith, k.1, b.1, total),
              )))
