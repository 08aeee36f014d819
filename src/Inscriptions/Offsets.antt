-- ===== src/Inscriptions/Offsets.antt =====
-- Where the inputs of a transaction begin in the row of its outputs, `calc_offsets` of
-- src/inscriptions/searcher.rs. The fee is taken from the last inputs.
use bel_20_indexer.Prelude.{
  ℕ, ◌+◌, ◌-◌, ◌%◌, ◌^◌, ◌≤◌, ◌<◌, ◌≡◌, refl, ap, sym, ◌∙◌, arith, Option, some, List, [], ◌∷◌,
  ◌++◌, ltb, if◌then◌else◌, ◌>>=◌, Bool-cases, inl, inr, lt→ltb, append-nil, ap₂,
}
use bel_20_indexer.Map.{Map, lookup}
use bel_20_indexer.Tokens.Types.{OutPoint, outpoint_eq}
use bel_20_indexer.Db.TxPrevout.{TxPrevout}
use bel_20_indexer.Inscriptions.Searcher.{sum}

-- The values of the outputs that the inputs spend, if all of them are known.
unfoldable pub input_values : Map OutPoint TxPrevout → List OutPoint → Option (List ℕ)
input_values tx_outs [] = some []
input_values tx_outs (o ∷ os) = do
  prevout ← lookup o tx_outs
  rest ← input_values tx_outs os
  some (prevout.value ∷ rest)

abbrev pub reverse : {A : Type 0} → List A → List A
reverse [] = []
reverse (x ∷ xs) = reverse xs ++ (x ∷ [])

-- The loop that pops inputs off the end, on the list of them from the last one on.
unfoldable pub take_fee : ℕ → List ℕ → List ℕ
take_fee fee [] = []
take_fee fee (input ∷ inputs) =
    let rest = take_fee (fee - input) inputs in
    if ltb fee input then (input - fee) ∷ inputs else rest

-- The fold of the sums, from 0 on, with the last sum at the end.
unfoldable pub sums_from : ℕ → List ℕ → List ℕ
sums_from n [] = n ∷ []
sums_from n (x ∷ xs) = n ∷ sums_from (n + x) xs

-- `Vec::pop`
unfoldable pub pop : List ℕ → List ℕ
pop [] = []
pop (x ∷ []) = []
pop (x ∷ (y ∷ ys)) = x ∷ pop (y ∷ ys)

-- The offsets from the values of the inputs and the sum of the outputs; the difference wraps.
unfoldable pub offsets_of : List ℕ → ℕ → List ℕ
offsets_of values output_sum =
    let fee = (sum values + 2 ^ 64 - output_sum) % 2 ^ 64 in
    pop (sums_from 0 (reverse (take_fee fee (reverse values))))

unfoldable pub calc_offsets : List OutPoint → List ℕ → Map OutPoint TxPrevout → Option (List ℕ)
calc_offsets inputs outputs tx_outs = do
  values ← input_values tx_outs inputs
  some (offsets_of values (sum outputs))

-- Where each value begins in the row of all of them.
abbrev pub starts : ℕ → List ℕ → List ℕ
starts n [] = []
starts n (x ∷ xs) = n ∷ starts (n + x) xs

-- Those before a bound.
abbrev pub before : ℕ → List ℕ → List ℕ
before bound [] = []
before bound (n ∷ ns) = if ltb n bound then n ∷ before bound ns else before bound ns

sums_from-head : (n : ℕ) (xs : List ℕ) → (m : ℕ) × (ms : List ℕ) × (sums_from n xs ≡ m ∷ ms)
unfolding sums_from
sums_from-head n [] = (n, [], refl)
sums_from-head n (x ∷ xs) = (n, sums_from (n + x) xs, refl)

pop_one : (n : ℕ) → pop (n ∷ []) ≡ []
unfolding pop
pop_one n = refl

pop-∷ : (n : ℕ) (x : ℕ) (xs : List ℕ) → pop (n ∷ sums_from x xs) ≡ n ∷ pop (sums_from x xs)
unfolding pop sums_from
pop-∷ n x [] = refl
pop-∷ n x (y ∷ ys) = refl

pop-sums_from : (n : ℕ) (xs : List ℕ) → pop (sums_from n xs) ≡ starts n xs
unfolding sums_from
pop-sums_from n [] = pop_one n
pop-sums_from n (x ∷ xs) = pop-∷ n (n + x) xs ∙ ap (λ ns. n ∷ ns) (pop-sums_from (n + x) xs)

starts-append :
    (n : ℕ) (xs : List ℕ) (x : ℕ) → starts n (xs ++ (x ∷ [])) ≡ starts n xs ++ ((n + sum xs) ∷ [])
unfolding sum
starts-append n [] x = ap (λ m. m ∷ []) (omega arith)
starts-append n (y ∷ ys) x =
    ap (λ ns. n ∷ ns)
      (starts-append (n + y) ys x ∙ ap (λ m. starts (n + y) ys ++ (m ∷ [])) (omega arith))

before-append :
    (bound : ℕ) (xs ys : List ℕ) → before bound (xs ++ ys) ≡ before bound xs ++ before bound ys
before-append bound [] ys = refl
before-append bound (x ∷ xs) ys = elim (Bool-cases (ltb x bound)) [
  | inl low ↦ rw low (ap (λ zs. x ∷ zs) (before-append bound xs ys))
  | inr high ↦ rw high (before-append bound xs ys)
]

before-all :
    (bound n : ℕ) (xs : List ℕ) → n + sum xs < bound → before bound (starts n xs) ≡ starts n xs
unfolding sum
before-all bound n [] h = refl
before-all bound n (x ∷ xs) h =
    rw (lt→ltb n bound (omega (arith, h)))
      (ap (λ zs. n ∷ zs) (before-all bound (n + x) xs (omega (arith, h))))

sum-append : (xs ys : List ℕ) → sum (xs ++ ys) ≡ sum xs + sum ys
unfolding sum
sum-append [] ys = omega arith
sum-append (x ∷ xs) ys = omega (arith, sum-append xs ys)

sum-reverse : (xs : List ℕ) → sum (reverse xs) ≡ sum xs
unfolding sum
sum-reverse [] = refl
sum-reverse (x ∷ xs) = omega (arith, sum-append (reverse xs) (x ∷ []), sum-reverse xs)

reverse-append : {A : Type 0} (xs : List A) (x : A) → reverse (xs ++ (x ∷ [])) ≡ x ∷ reverse xs
reverse-append [] x = refl
reverse-append (y ∷ ys) x = ap (λ zs. zs ++ (y ∷ [])) (reverse-append ys x)

reverse-reverse : {A : Type 0} (xs : List A) → reverse (reverse xs) ≡ xs
reverse-reverse [] = refl
reverse-reverse (x ∷ xs) = reverse-append (reverse xs) x ∙ ap (λ zs. x ∷ zs) (reverse-reverse xs)

before-behind :
    (bound n : ℕ) (ns : List ℕ) → bound ≤ n → before bound (ns ++ (n ∷ [])) ≡ before bound ns
before-behind bound n ns h =
    before-append bound ns (n ∷ []) ∙ ground (arith, h, append-nil (before bound ns))

take_fee-starts :
    (fee : ℕ) (inputs : List ℕ)
    → fee ≤ sum inputs
    → starts 0 (reverse (take_fee fee inputs))
      ≡ before (sum inputs - fee) (starts 0 (reverse inputs))
unfolding take_fee sum
take_fee-starts fee [] h = refl
take_fee-starts fee (input ∷ inputs) h = elim (Bool-cases (ltb fee input)) [
  | inl part ↦
      rw (part, starts-append 0 (reverse inputs) input)
        (starts-append 0 (reverse inputs) (input - fee)
          ∙ sym (
              before-both (input + sum inputs - fee) (reverse inputs)
                (ground (arith, part, sum-reverse inputs))))
  | inr whole ↦
      rw (whole, starts-append 0 (reverse inputs) input)
        (take_fee-starts (fee - input) inputs (omega (arith, h))
          ∙ ap (λ bound. before bound (starts 0 (reverse inputs))) (ground (arith, whole))
          ∙ sym (
              before-behind (input + sum inputs - fee) (0 + sum (reverse inputs))
                (starts 0 (reverse inputs)) (ground (arith, whole, sum-reverse inputs))))
]
  where
    before-both :
        (bound : ℕ) (xs : List ℕ)
        → 0 + sum xs < bound
        → before bound (starts 0 xs ++ ((0 + sum xs) ∷ [])) ≡ starts 0 xs ++ ((0 + sum xs) ∷ [])
    before-both bound xs h =
        before-append bound (starts 0 xs) ((0 + sum xs) ∷ [])
        ∙ ap₂ (λ l r. l ++ r) (before-all bound 0 xs h) (rw (lt→ltb (0 + sum xs) bound h) refl)

-- Where all spent outputs are known and their values, a sum below 2^64, are at least those of the
-- outputs, the offsets are the places at which the inputs begin in the row of all of them, for
-- exactly the inputs that begin before the end of the outputs.
pub calc_offsets-starts :
    (inputs : List OutPoint) (outputs : List ℕ) (tx_outs : Map OutPoint TxPrevout) (values : List ℕ)
    → input_values tx_outs inputs ≡ some values
    → sum outputs ≤ sum values
    → sum values < 2 ^ 64
    → calc_offsets inputs outputs tx_outs ≡ some (before (sum outputs) (starts 0 values))
unfolding calc_offsets offsets_of
calc_offsets-starts inputs outputs tx_outs values known covered fits =
    let fee : (sum values + 2 ^ 64 - sum outputs) % 2 ^ 64 ≡ sum values - sum outputs =
      omega (arith, covered, fits) in
    rw
      (known, fee, pop-sums_from 0 (reverse (take_fee (sum values - sum outputs) (reverse values))))
      (ap some (
        take_fee-starts (sum values - sum outputs) (reverse values)
          (omega (arith, sum-reverse values))
        ∙ rw reverse-reverse (
            ap (λ bound. before bound (starts 0 values))
              (omega (arith, sum-reverse values, covered)))))
