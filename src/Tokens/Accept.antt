-- ===== src/Tokens/Accept.antt =====
-- The texts and the messages that src/tokens/proto.rs and src/tokens/parser.rs accept.
use bel_20_indexer.Env.{Env, max_units}
use bel_20_indexer.Prelude.{
  ℕ, ◌≤◌, ◌≡◌, ◌≢◌, refl, arith, List, [], ◌∷◌, ◌++◌, ◌==◌, nat_eq, false, ◌⊎◌, inl, inr, ◌↔◌, ◌∙◌,
}
use bel_20_indexer.Tokens.Proto.{Result, ok, bel_20_validate, starts_with_char, ends_with_char}

-- A text that begins with no sign, dot or space and ends with no dot or space.
pub record IsPlain (val : List ℕ) : Type 0 where
  first_ok :
      (c : ℕ) (cs : List ℕ) → val ≡ c ∷ cs → (c ≢ b'+') × (c ≢ b'-') × (c ≢ b'.') × (c ≢ b' ')
  last_ok : (cs : List ℕ) (c : ℕ) → val ≡ cs ++ c ∷ [] → (c ≢ b'.') × (c ≢ b' ')

ends_with_char-snoc : (cs : List ℕ) (c d : ℕ) → ends_with_char (cs ++ c ∷ []) d ≡ (c == d)
unfolding ends_with_char
ends_with_char-snoc [] c d = refl
ends_with_char-snoc (a ∷ []) c d = refl
ends_with_char-snoc (a ∷ a' ∷ cs) c d = ends_with_char-snoc (a' ∷ cs) c d

-- A text is empty or has a last character.
snoc_cases : (val : List ℕ) → (val ≡ []) ⊎ ((cs : List ℕ) × (c : ℕ) × (val ≡ cs ++ c ∷ []))
snoc_cases [] = inl refl
snoc_cases (a ∷ as') = elim (snoc_cases as') [
  | inl e ↦ inr ([], a, rw e refl)
  | inr p ↦ inr (a ∷ p.0, p.1, rw p.2 refl)
]

ends_with_char-false :
    (val : List ℕ) (d : ℕ)
    → ((cs : List ℕ) (c : ℕ) → val ≡ cs ++ c ∷ [] → c ≢ d)
    → ends_with_char val d ≡ false
unfolding ends_with_char
ends_with_char-false val d h = elim (snoc_cases val) [
  | inl e ↦ rw e refl
  | inr p ↦ rw p.2 (ends_with_char-snoc p.0 p.1 d ∙ ground (arith, h p.0 p.1 p.2))
]

starts_with_char-false :
    (val : List ℕ) (d : ℕ)
    → ((c : ℕ) (cs : List ℕ) → val ≡ c ∷ cs → c ≢ d)
    → starts_with_char val d ≡ false
unfolding starts_with_char
starts_with_char-false [] d h = refl
starts_with_char-false (c ∷ cs) d h = ground (arith, h c cs refl)

module _ (env : Env) where
  open env use {Fixed128, units}

  abbrev pub Accepted : (List ℕ → Result Fixed128) → List ℕ → Fixed128 → Type 0
  Accepted from_str val v = IsPlain val × (from_str val ≡ ok v) × (units v ≤ max_units)

  -- A text is a valid amount exactly where it begins with no sign, dot or space, ends with no dot
  -- or space, and is read as a decimal of at most 2^64 - 1 whole tokens.
  pub bel_20_validate_iff :
      (from_str : List ℕ → Result Fixed128) (val : List ℕ) (v : Fixed128)
      → (bel_20_validate env from_str val ≡ ok v) ↔ Accepted from_str val v
  unfolding bel_20_validate
  bel_20_validate_iff from_str val v = (to, from)
    where
      to : bel_20_validate env from_str val ≡ ok v → Accepted from_str val v
      to h = (
        record {
          first_ok = λ c cs e. ground (arith, h, e, starts_with_char);
          last_ok = λ cs c e.
              ground (arith, h, e, ends_with_char-snoc cs c b'.', ends_with_char-snoc cs c b' ');
        },
        ground (arith, h),
        ground (arith, h),
      )

      from : Accepted from_str val v → bel_20_validate env from_str val ≡ ok v
      from p = ground (
        arith,
        p,
        starts_with_char-false val b'+' (λ c cs e. (p.0.first_ok c cs e).0),
        starts_with_char-false val b'-' (λ c cs e. (p.0.first_ok c cs e).1),
        starts_with_char-false val b'.' (λ c cs e. (p.0.first_ok c cs e).2),
        starts_with_char-false val b' ' (λ c cs e. (p.0.first_ok c cs e).3),
        ends_with_char-false val b'.' (λ cs c e. (p.0.last_ok cs c e).0),
        ends_with_char-false val b' ' (λ cs c e. (p.0.last_ok cs c e).1),
      )
