-- ===== src/Blk/Merkle.antt =====
-- `merkle_root` of packages/new-blk-parser/src/utils/mod.rs. A turn of its loop halves the list, so
-- that one more turn than there are hashes is enough fuel.

use bel_20_indexer.Prelude.{
  ℕ, zero, suc, ◌+◌, ◌/◌, ◌%◌, ◌≤◌, ◌<◌, ◌≡◌, refl, arith, Option, none, some, List, [], ◌∷◌, ◌++◌,
  length, ◌==◌, nat_eq, ltb, if◌then◌else◌, ap, ◌∙◌, Bool, lt→ltb, false, true,
}
use bel_20_indexer.Bytes.{to_be}

-- `hashes.first()` and `hashes.last()`
unfoldable pub first : List ℕ → Option ℕ
first [] = none
first (h ∷ hs) = some h

unfoldable pub last : List ℕ → Option ℕ
last [] = none
last (h ∷ []) = some h
last (h ∷ h' ∷ hs) = last (h' ∷ hs)

module _ (hash : List ℕ → ℕ) where
  -- The hash of two hashes in a row.
  abbrev pub node : ℕ → ℕ → ℕ
  node a b = hash (to_be 32 a ++ to_be 32 b)

  -- `chunks(2)` with the chunks of two kept
  unfoldable pub pairs : List ℕ → List ℕ
  pairs [] = []
  pairs (a ∷ []) = []
  pairs (a ∷ b ∷ hs) = node a b ∷ pairs hs

  -- A turn of the loop.
  unfoldable pub new_hashes : List ℕ → List ℕ
  new_hashes hs =
      if length hs % 2 == 1
      then elim (last hs) [ none ↦ pairs hs | some h ↦ pairs hs ++ node h h ∷ [] ]
      else pairs hs

  unfoldable pub merkle_loop : ℕ → List ℕ → Option ℕ
  merkle_loop zero hs = none
  merkle_loop (suc n) hs =
      let above = merkle_loop n (new_hashes hs) in if ltb 1 (length hs) then above else first hs

  -- `expect` panics where there is no hash.
  unfoldable pub merkle_root : List ℕ → Option ℕ
  merkle_root hs = merkle_loop (length hs + 1) hs

  -- The row above a row of hashes: a node for two neighbours, and one of the last hash with itself
  -- where their number is odd.
  abbrev pub row_above : List ℕ → List ℕ
  row_above [] = []
  row_above (a ∷ []) = node a a ∷ []
  row_above (a ∷ b ∷ hs) = node a b ∷ row_above hs

  -- The root over a row of hashes.
  pub data IsRoot : List ℕ → ℕ → Type 0 where
    at_top : (h : ℕ) → IsRoot (h ∷ []) h
    at_row : (hs : List ℕ) (r : ℕ) → 1 < length hs → IsRoot (row_above hs) r → IsRoot hs r

  -- Neighbours in front of a row add their node in front of what a turn makes of it.
  add_pair :
      (odd : Bool) (o : Option ℕ) (p : ℕ) (ps : List ℕ)
      → (if odd then elim o [ none ↦ p ∷ ps | some h ↦ p ∷ ps ++ node h h ∷ [] ] else p ∷ ps)
        ≡ p ∷ (if odd then elim o [ none ↦ ps | some h ↦ ps ++ node h h ∷ [] ] else ps)
  add_pair false o p ps = refl
  add_pair true none p ps = refl
  add_pair true (some h) p ps = refl

  parity : (n : ℕ) → (suc (suc n) % 2 == 1) ≡ (n % 2 == 1)
  parity n = ground arith

  new_hashes-pair :
      (a b c : ℕ) (hs : List ℕ) → new_hashes (a ∷ b ∷ c ∷ hs) ≡ node a b ∷ new_hashes (c ∷ hs)
  unfolding new_hashes pairs last
  new_hashes-pair a b c hs =
      rw (parity (length (c ∷ hs)))
        (add_pair (length (c ∷ hs) % 2 == 1) (last (c ∷ hs)) (node a b) (pairs (c ∷ hs)))

  new_hashes-row_above : (hs : List ℕ) → new_hashes hs ≡ row_above hs
  new_hashes-row_above [] = unfold new_hashes pairs last in refl
  new_hashes-row_above (a ∷ []) = unfold new_hashes pairs last in refl
  new_hashes-row_above (a ∷ b ∷ []) = unfold new_hashes pairs last in refl
  new_hashes-row_above (a ∷ b ∷ c ∷ hs) =
      new_hashes-pair a b c hs ∙ ap (λ (l : List ℕ). node a b ∷ l) (new_hashes-row_above (c ∷ hs))

  loop_turn :
      (n a b : ℕ) (hs : List ℕ)
      → merkle_loop (suc n) (a ∷ b ∷ hs) ≡ merkle_loop n (new_hashes (a ∷ b ∷ hs))
  unfolding merkle_loop
  loop_turn n a b hs = rw (lt→ltb 1 (length (a ∷ b ∷ hs)) (omega arith)) refl

  length-row_above : (hs : List ℕ) → length (row_above hs) ≡ (length hs + 1) / 2
  length-row_above [] = omega arith
  length-row_above (a ∷ []) = omega arith
  length-row_above (a ∷ b ∷ hs) = omega (arith, length-row_above hs)

  loop_returns :
      (n : ℕ) (hs : List ℕ)
      → 0 < length hs
      → length hs ≤ n
      → (r : ℕ) × (merkle_loop n hs ≡ some r) × IsRoot hs r
  unfolding merkle_loop first
  loop_returns zero hs some_hash enough = absurd (omega (arith, some_hash, enough))
  loop_returns (suc n) [] some_hash enough = absurd (omega (arith, some_hash))
  loop_returns (suc n) (h ∷ []) some_hash enough = (h, refl, at_top h)
  loop_returns (suc n) (a ∷ b ∷ hs) some_hash enough =
      let up =
        loop_returns n (row_above (a ∷ b ∷ hs)) (omega (arith, length-row_above hs))
          (omega (arith, length-row_above hs, enough)) in
      (
        up.0,
        loop_turn n a b hs ∙ ap (merkle_loop n) (new_hashes-row_above (a ∷ b ∷ hs)) ∙ up.1,
        at_row (a ∷ b ∷ hs) up.0 (omega arith) up.2,
      )

  -- Over any hashes but none, `merkle_root` returns, and what it returns is the root of the rows.
  pub merkle_root-IsRoot :
      (hs : List ℕ) → 0 < length hs → (r : ℕ) × (merkle_root hs ≡ some r) × IsRoot hs r
  unfolding merkle_root
  merkle_root-IsRoot hs some_hash = loop_returns (length hs + 1) hs some_hash (omega arith)
