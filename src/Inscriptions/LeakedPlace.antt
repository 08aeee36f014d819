-- ===== src/Inscriptions/LeakedPlace.antt =====
-- Where an inscription that goes to the fees is found again, src/inscriptions/leaked.rs.

use bel_20_indexer.Prelude.{
  ℕ, zero, suc, ◌+◌, ◌-◌, ◌^◌, ◌≤◌, ◌<◌, ◌≡◌, refl, ap, sym, ◌∙◌, arith, some, List, [], ◌∷◌, ◌>>=◌,
  get_elem?, nat_eq, take, Returns, Returns-mono, subst,
}
use bel_20_indexer.Map.{Map}
use bel_20_indexer.Tokens.Types.{OutPoint}
use bel_20_indexer.Db.TxPrevout.{TxPrevout}
use bel_20_indexer.Inscriptions.Searcher.{sum, search_from, search_from-finds, Holds, position}
use bel_20_indexer.Inscriptions.Offsets.{input_values}
use bel_20_indexer.Inscriptions.Leaked.{
  add_u64, sub_u64, LeakedInscription, LeakedInscriptions, cumulated, last, find_fee, push_leaked,
  add_leaked, add_tx_fee, update_reward, find_inscription_vout,
}

add_fits : (a b : ℕ) → a + b < 2 ^ 64 → add_u64 a b ≡ a + b
unfolding add_u64
add_fits a b h = omega (arith, h)

sub_fits : (a b : ℕ) → b ≤ a → a < 2 ^ 64 → sub_u64 a b ≡ a - b
unfolding sub_u64
sub_fits a b le h = omega (arith, le, h)

last-cumulated :
    (n x : ℕ) (xs : List ℕ)
    → n + sum (x ∷ xs) < 2 ^ 64
    → last (cumulated n (x ∷ xs)) ≡ some (n + sum (x ∷ xs))
unfolding last cumulated sum
last-cumulated n x [] h = ap some (add_fits n x (omega (arith, h)) ∙ omega arith)
last-cumulated n x (y ∷ ys) h =
    subst (λ m. last (cumulated m (y ∷ ys)) ≡ some (n + (x + (y + sum ys))))
      (sym (add_fits n x (omega (arith, h))))
      (last-cumulated (n + x) y ys (omega (arith, h)) ∙ ap some (omega arith))

-- The last sum is that of all values, where there is one.
last-sum :
    (values : List ℕ) (idx value : ℕ)
    → sum values < 2 ^ 64
    → get_elem? values idx ≡ some value
    → last (cumulated 0 values) ≡ some (sum values)
last-sum [] idx value h e = absurd cc
last-sum (x ∷ xs) idx value h e = last-cumulated 0 x xs (omega (arith, h)) ∙ ap some (omega arith)

get_elem?-cumulated :
    (n : ℕ) (values : List ℕ) (idx value : ℕ)
    → n + sum values < 2 ^ 64
    → get_elem? values idx ≡ some value
    → get_elem? (cumulated n values) idx ≡ some (n + sum (take idx values) + value)
unfolding cumulated sum
get_elem?-cumulated n [] idx value h e = absurd cc
get_elem?-cumulated n (x ∷ xs) zero value h e =
    ap some (add_fits n x (omega (arith, h)) ∙ ground (arith, e))
get_elem?-cumulated n (x ∷ xs) (suc idx) value h e =
    rw (add_fits n x (omega (arith, h)))
      (get_elem?-cumulated (n + x) xs idx value (omega (arith, h)) e ∙ ap some (omega arith))

sum-take :
    (values : List ℕ) (idx value : ℕ)
    → get_elem? values idx ≡ some value
    → sum (take idx values) + value ≤ sum values
unfolding sum
sum-take [] idx value e = absurd cc
sum-take (x ∷ xs) zero value e = ground (arith, e)
sum-take (x ∷ xs) (suc idx) value e = omega (arith, sum-take xs idx value e)

-- What is known of an offset of an input that lies behind all outputs of its transaction.
pub record IsLeaked (inputs : List OutPoint) (outputs : List ℕ) (tx_outs : Map OutPoint TxPrevout)
    (values : List ℕ) (idx offset value : ℕ) : Type 0 where
  pub known : input_values tx_outs inputs ≡ some values
  pub fits : sum values < 2 ^ 64
  pub covered : sum outputs ≤ sum values
  pub is_value : get_elem? values idx ≡ some value
  pub in_input : offset < value
  pub behind : sum outputs ≤ sum (take idx values) + offset

module _ (inputs : List OutPoint) (outputs : List ℕ) (tx_outs : Map OutPoint TxPrevout)
    (values : List ℕ) (idx offset value : ℕ)
    (h : IsLeaked inputs outputs tx_outs values idx offset value) where
  find_fee-place :
      find_fee inputs outputs idx offset tx_outs
      ≡ some (record {
        fee = sum values - sum outputs;
        fee_offset = sum (take idx values) + offset - sum outputs;
      })
  unfolding find_fee
  find_fee-place =
      let s = sum (take idx values) in
      let within = sum-take values idx value h.is_value in
      let start : sub_u64 (0 + s + value) value ≡ s =
        sub_fits (0 + s + value) value (omega arith) (omega (arith, within, h.fits))
        ∙ omega arith in
      let place : add_u64 s offset ≡ s + offset =
        add_fits s offset (omega (arith, within, h.fits, h.in_input)) in
      rw
        (
          h.known,
          last-sum values idx value h.fits h.is_value,
          h.is_value,
          get_elem?-cumulated 0 values idx value (omega (arith, h.fits)) h.is_value,
          start,
          place,
          sub_fits (sum values) (sum outputs) h.covered h.fits,
          sub_fits (s + offset) (sum outputs) h.behind (omega (arith, within, h.fits, h.in_input)),
        )
        refl

  -- An offset behind all outputs of a transaction is kept at its place in the fees of the block: what
  -- the transactions before gave, and its distance from the end of the outputs.
  pub add_leaked-place :
      (leaked : LeakedInscriptions) (inscription : LeakedInscription)
      → leaked.total_amount + sum values < 2 ^ 64
      → (add_tx_fee inputs outputs tx_outs leaked
          >>= add_leaked idx inputs outputs offset tx_outs inscription)
        ≡ some (record leaked {
          total_amount = leaked.total_amount + (sum values - sum outputs);
          inscriptions =
              push_leaked
                (leaked.total_amount + (sum (take idx values) + offset - sum outputs))
                inscription
                leaked.inscriptions;
        })
  unfolding add_tx_fee add_leaked
  add_leaked-place leaked inscription room =
      let t = leaked.total_amount in
      let fee = sum values - sum outputs in
      let place = sum (take idx values) + offset - sum outputs in
      let within = sum-take values idx value h.is_value in
      let diff : sub_u64 fee place ≡ fee - place =
        sub_fits fee place (omega (arith, within, h.in_input)) (omega (arith, h.fits)) in
      let key : sub_u64 (t + fee) (fee - place) ≡ t + place =
        sub_fits (t + fee) (fee - place) (omega arith) (omega (arith, room))
        ∙ omega (arith, within, h.in_input) in
      rw
        (
          h.known,
          find_fee-place,
          sub_fits (sum values) (sum outputs) h.covered h.fits,
          add_fits t fee (omega (arith, room)),
          diff,
          key,
        )
        refl

-- An offset in the fees of the block is found in the coinbase transaction behind what its outputs
-- have beyond the fees.
pub find_inscription_vout-finds :
    (leaked : LeakedInscriptions) (offset : ℕ)
    → leaked.total_amount ≤ sum leaked.coinbase_outputs
    → sum leaked.coinbase_outputs < 2 ^ 64
    → offset < leaked.total_amount
    → Returns (find_inscription_vout offset (update_reward leaked)) (λ p.
      Holds leaked.coinbase_outputs p.0 p.1
      × (position leaked.coinbase_outputs p.0 p.1
          ≡ sum leaked.coinbase_outputs - leaked.total_amount + offset))
unfolding find_inscription_vout update_reward
find_inscription_vout-finds leaked offset paid fits lt =
    let outs = leaked.coinbase_outputs in
    let reward = sum outs - leaked.total_amount in
    let place : add_u64 offset (sub_u64 (sum outs) leaked.total_amount) ≡ reward + offset =
      ap (add_u64 offset) (sub_fits (sum outs) leaked.total_amount paid fits)
      ∙ add_fits offset reward (omega (arith, lt, paid, fits))
      ∙ omega arith in
    rw (Returns, place)
      (Returns-mono (search_from 0 (reward + offset) outs)
        (λ p q.
          let same : q.0 ≡ p.0 = omega (arith, q.1) in
          (
            subst (λ (k : ℕ). Holds outs k p.1) same q.2,
            subst (λ (k : ℕ). position outs k p.1 ≡ reward + offset) same q.3,
          ))
        (search_from-finds 0 (reward + offset) outs (omega (arith, lt, paid))))
