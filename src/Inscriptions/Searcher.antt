-- ===== src/Inscriptions/Searcher.antt =====
-- The search of the output that an offset lies in, src/inscriptions/searcher.rs.
use bel_20_indexer.Prelude.{
  ℕ, zero, suc, ◌+◌, ◌-◌, ◌<◌, ◌≡◌, arith, Option, none, some, List, [], ◌∷◌, ltb, leb,
  if◌then◌else◌, take, Returns, Bool-cases, inl, inr, ltb→lt, Returns-mono, if_rule, subst,
}

-- `iter().sum::<u64>()` of values whose sum is a u64
unfoldable pub sum : List ℕ → ℕ
sum [] = 0
sum (v ∷ vs) = v + sum vs

-- The loop of `get_output_index_by_input` over the values of the outputs, from index `idx` on.
unfoldable pub search_from : ℕ → ℕ → List ℕ → Option (ℕ × ℕ)
search_from idx offset [] = none
search_from idx offset (v ∷ vs) =
    let later = search_from (idx + 1) (offset - v) vs in
    if ltb offset v then some (idx, offset) else later

-- `get_output_index_by_input`: an error is `none`.
unfoldable pub get_output_index_by_input : Option ℕ → List ℕ → Option (ℕ × ℕ)
get_output_index_by_input none values = none
get_output_index_by_input (some offset) values =
    if leb (sum values) offset then none else search_from 0 offset values

-- The position of an output's offset in the row of all outputs.
abbrev pub position : List ℕ → ℕ → ℕ → ℕ
position values idx offset = sum (take idx values) + offset

-- The output `idx` is there and is longer than `offset`.
abbrev pub Holds : List ℕ → ℕ → ℕ → Type 0
Holds [] idx offset = ⊥
Holds (v ∷ vs) zero offset = offset < v
Holds (v ∷ vs) (suc idx) offset = Holds vs idx offset

pub search_from-finds :
    (idx offset : ℕ) (values : List ℕ)
    → offset < sum values
    → Returns
        (search_from idx offset values)
        (λ p. (k : ℕ) × (p.0 ≡ idx + k) × Holds values k p.1 × (position values k p.1 ≡ offset))
unfolding search_from sum
search_from-finds idx offset [] h = absurd (omega (arith, h))
search_from-finds idx offset (v ∷ vs) h = elim (Bool-cases (ltb offset v)) [
  | inl hit ↦ rw (Returns, hit) (0, ground arith, ltb→lt offset v hit, ground arith)
  | inr miss ↦
      rw (Returns, miss)
        (Returns-mono (search_from (idx + 1) (offset - v) vs)
          (λ p q. (suc q.0, omega (arith, q.1), q.2, ground (arith, miss, q.3)))
          (search_from-finds (idx + 1) (offset - v) vs (ground (arith, miss))))
]

pub get_output_index_by_input-finds :
    (offset : ℕ) (values : List ℕ)
    → offset < sum values
    → Returns
        (get_output_index_by_input (some offset) values)
        (λ p. Holds values p.0 p.1 × (position values p.0 p.1 ≡ offset))
unfolding get_output_index_by_input
get_output_index_by_input-finds offset values h =
    if_rule
      (λ (o : Option (ℕ × ℕ)).
        Returns o (λ p. Holds values p.0 p.1 × (position values p.0 p.1 ≡ offset)))
      (leb (sum values) offset) none (search_from 0 offset values)
      (λ past. absurd (ground (arith, past)))
      (λ _.
        Returns-mono (search_from 0 offset values)
          (λ p q.
            let same : q.0 ≡ p.0 = omega (arith, q.1) in
            (
              subst (λ (k : ℕ). Holds values k p.1) same q.2,
              subst (λ (k : ℕ). position values k p.1 ≡ offset) same q.3,
            ))
          (search_from-finds 0 offset values h))
