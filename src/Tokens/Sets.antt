-- ===== src/Tokens/Sets.antt =====
-- The laws of the sets of holders in src/tokens/holders.rs.
use bel_20_indexer.Prelude.{
  suc, ◌+◌, ◌≡◌, refl, true, false, ◌||◌, arith, List, [], ◌∷◌, length, nat_eq, if◌then◌else◌,
}
use bel_20_indexer.Env.{Env}
use bel_20_indexer.Tokens.Types.{address_token_eq}
use bel_20_indexer.Tokens.Holders.{
  SortedByBalance, same_entry, set_contains, set_remove, set_insert,
}

module _ (env : Env) where
  open env use {Fixed128, units, add, sub, units-add, units-sub}

  abbrev pub Entry : Type 0
  Entry = SortedByBalance Fixed128

  abbrev pub IsDistinct : List Entry → Type 0
  IsDistinct [] = Unit
  IsDistinct (y ∷ ys) = (set_contains env y ys ≡ false) × IsDistinct ys

  pub contains-remove :
      (x y : Entry) (ys : List Entry)
      → set_contains env y (set_remove env x ys)
        ≡ (if same_entry env x y then false else set_contains env y ys)
  unfolding set_contains set_remove
  contains-remove x y [] = ground arith
  contains-remove x y (z ∷ zs) = ground (arith, contains-remove x y zs)

  pub contains-same :
      (x y : Entry) (ys : List Entry)
      → same_entry env x y ≡ true
      → set_contains env x ys ≡ set_contains env y ys
  unfolding set_contains
  contains-same x y [] h = refl
  contains-same x y (z ∷ zs) h = ground (arith, contains-same x y zs h)

  pub contains-insert :
      (x y : Entry) (ys : List Entry)
      → set_contains env y (set_insert env x ys) ≡ (same_entry env x y || set_contains env y ys)
  unfolding set_insert set_contains
  contains-insert x y ys = ground (arith, contains-same x y ys)

  pub remove-absent :
      (x : Entry) (ys : List Entry) → set_contains env x ys ≡ false → set_remove env x ys ≡ ys
  unfolding set_contains set_remove
  remove-absent x [] h = refl
  remove-absent x (z ∷ zs) h = ground (arith, remove-absent x zs)

  pub length-remove :
      (x : Entry) (ys : List Entry)
      → IsDistinct ys
      → length (set_remove env x ys) + (if set_contains env x ys then 1 else 0) ≡ length ys
  unfolding set_contains set_remove
  length-remove x [] d = refl
  length-remove x (z ∷ zs) d =
      ground (arith, length-remove x zs d.1, contains-same x z zs, remove-absent x zs)

  pub remove-IsDistinct :
      (x : Entry) (ys : List Entry) → IsDistinct ys → IsDistinct (set_remove env x ys)
  unfolding set_remove
  remove-IsDistinct x [] d = tt
  remove-IsDistinct x (z ∷ zs) d =
      ground (arith, remove-IsDistinct x zs d.1, contains-remove x z zs)

  pub insert-IsDistinct :
      (x : Entry) (ys : List Entry) → IsDistinct ys → IsDistinct (set_insert env x ys)
  unfolding set_insert
  insert-IsDistinct x ys d = ground arith

  pub length-insert :
      (x : Entry) (ys : List Entry)
      → length (set_insert env x ys)
        ≡ (if set_contains env x ys then length ys else suc (length ys))
  unfolding set_insert
  length-insert x ys = ground arith
