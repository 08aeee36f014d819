-- ===== src/Inscriptions/Pointer.antt =====
-- `Inscription::pointer` of src/inscriptions/structs.rs, the offset that an inscription names.
use bel_20_indexer.Prelude.{
  ℕ, zero, suc, ◌≡◌, refl, arith, Bool, false, ◌||◌, not, Option, none, some, List, [], ◌∷◌, drop,
  ◌==◌, nat_eq, if◌then◌else◌, sym,
}
use bel_20_indexer.Bytes.{from_le}

-- `any(|byte| byte != 0)`
unfoldable pub any_set : List ℕ → Bool
any_set [] = false
any_set (b ∷ bs) = not (b == 0) || any_set bs

-- The first `k` bytes, with 0 where there is none.
unfoldable pub first_bytes : ℕ → List ℕ → List ℕ
first_bytes zero v = []
first_bytes (suc k) [] = 0 ∷ first_bytes k []
first_bytes (suc k) (b ∷ bs) = b ∷ first_bytes k bs

unfoldable pub pointer : Option (List ℕ) → Option ℕ
pointer none = none
pointer (some value) = if any_set (drop 8 value) then none else some (from_le (first_bytes 8 value))

from_le-unset : (v : List ℕ) → any_set v ≡ false → from_le v ≡ 0
unfolding any_set from_le
from_le-unset [] h = refl
from_le-unset (b ∷ bs) h = ground (arith, from_le-unset bs)

from_le-first_bytes :
    (k : ℕ) (v : List ℕ) → any_set (drop k v) ≡ false → from_le (first_bytes k v) ≡ from_le v
unfolding first_bytes from_le
from_le-first_bytes zero v h = sym (from_le-unset v h)
from_le-first_bytes (suc k) [] h = omega (arith, from_le-first_bytes k [] (drop_none k))
  where
    drop_none : (k : ℕ) → any_set (drop k []) ≡ false
    drop_none zero = unfold any_set in refl
    drop_none (suc k) = unfold any_set in refl
from_le-first_bytes (suc k) (b ∷ bs) h = omega (arith, from_le-first_bytes k bs h)

-- A pointer of any length whose bytes from the ninth on are 0 is the number of all its bytes, the
-- least significant first.
pub pointer-from_le :
    (value : List ℕ) → any_set (drop 8 value) ≡ false → pointer (some value) ≡ some (from_le value)
unfolding pointer
pointer-from_le value h = rw (h, from_le-first_bytes 8 value h) refl
