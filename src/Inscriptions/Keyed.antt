-- ===== src/Inscriptions/Keyed.antt =====
-- What the parts of parse_block need of a transaction, so that nothing panics.
use mathlib.Core.Option.{some-injective}
use bel_20_indexer.Prelude.{
  ℕ, zero, suc, ◌+◌, ◌-◌, ◌<◌, ◌≡◌, refl, ap, sym, ◌∙◌, arith, Option, none, some, List, [], ◌∷◌,
  ◌++◌, ◌==◌, nat_eq, length, get_elem?, All, Returns, Bool-cases, inl, inr, Option-cases, Eq, ltb,
  leb, subst, if_rule,
}
use bel_20_indexer.Map.{Map, lookup, insert, erase}
use bel_20_indexer.Tokens.Types.{OutPoint, outpoint_eq}
use bel_20_indexer.Db.TxPrevout.{TxPrevout}
use bel_20_indexer.Db.Partials.{Part}
use bel_20_indexer.Blk.Tx.{TxInput, EvaluatedTxOut}
use bel_20_indexer.Inscriptions.Searcher.{sum, search_from, get_output_index_by_input}
use bel_20_indexer.Inscriptions.Offsets.{input_values}
use bel_20_indexer.Inscriptions.Leaked.{
  LeakedInscription, LeakedInscriptions, add_u64, cumulated, last, find_fee, add_leaked,
}
use bel_20_indexer.Inscriptions.Template.{spent_outpoints, output_values}
use bel_20_indexer.Inscriptions.Parse.{
  ParsedInscription, from_parts, parse, scripts_of, read_header, payloads,
}
use bel_20_indexer.Inscriptions.Push.{decode_push_datas}
use bel_20_indexer.Inscriptions.Envelope.{Instructions, from_tapscript}

module _ {K V : Type 0} ⦃e : Eq K⦄ (Q : K → Type 0) where
  abbrev pub AllKeys : Map K V → Type 0
  AllKeys m = All (λ (p : K × V). Q p.0) m

  pub insert-AllKeys : (k : K) (v : V) (m : Map K V) → Q k → AllKeys m → AllKeys (insert k v m)
  unfolding insert
  insert-AllKeys k v [] q h = (q, tt)
  insert-AllKeys k v (p ∷ m) q h = elim (Bool-cases (p.0 == k)) [
    | inl hit ↦ rw hit (h.0, h.1)
    | inr miss ↦ rw miss (h.0, insert-AllKeys k v m q h.1)
  ]

  pub erase-AllKeys : (k : K) (m : Map K V) → AllKeys m → AllKeys (erase k m)
  unfolding erase
  erase-AllKeys k [] h = tt
  erase-AllKeys k (p ∷ m) h = elim (Bool-cases (p.0 == k)) [
    | inl hit ↦ rw hit (erase-AllKeys k m h.1)
    | inr miss ↦ rw miss (h.0, erase-AllKeys k m h.1)
  ]

pub get_elem?-some :
    {A : Type 0} (xs : List A) (i : ℕ) → i < length xs → (x : A) × (get_elem? xs i ≡ some x)
get_elem?-some [] i h = absurd (omega (arith, h))
get_elem?-some (x ∷ xs) zero h = (x, refl)
get_elem?-some (x ∷ xs) (suc i) h = get_elem?-some xs i (omega (arith, h))

module _ {W : Type 0} (prevouts : Map OutPoint TxPrevout) where
  -- All outputs that inputs spend are known.
  abbrev pub AllKnown : List (TxInput W) → Type 0
  AllKnown inputs =
      All (λ (i : TxInput W). (v : TxPrevout) × (lookup i.outpoint prevouts ≡ some v)) inputs

  pub known_values :
      (inputs : List (TxInput W))
      → AllKnown inputs
      → (values : List ℕ) × (input_values prevouts (spent_outpoints inputs) ≡ some values)
        × (length values ≡ length inputs)
  unfolding input_values spent_outpoints
  known_values [] h = ([], refl, refl)
  known_values (i ∷ is) h =
      let rest = known_values is h.1 in
      (h.0.0.value ∷ rest.0, rw (h.0.1, rest.1) refl, ap suc rest.2)

length-cumulated : (n : ℕ) (values : List ℕ) → length (cumulated n values) ≡ length values
unfolding cumulated
length-cumulated n [] = refl
length-cumulated n (x ∷ xs) = ap suc (length-cumulated (add_u64 n x) xs)

last-some : (xs : List ℕ) → 0 < length xs → (x : ℕ) × (last xs ≡ some x)
unfolding last
last-some [] h = absurd (omega (arith, h))
last-some (x ∷ []) h = (x, refl)
last-some (x ∷ (y ∷ ys)) h = last-some (y ∷ ys) (omega arith)

-- An inscription of an input is added to the leaked ones.
pub add_leaked-returns :
    (inputs : List OutPoint) (outputs values : List ℕ) (idx offset : ℕ)
    (tx_outs : Map OutPoint TxPrevout) (inscription : LeakedInscription)
    (leaked : LeakedInscriptions)
    → input_values tx_outs inputs ≡ some values
    → idx < length values
    → Returns
        (add_leaked idx inputs outputs offset tx_outs inscription leaked)
        (λ added. added.coinbase_txid ≡ leaked.coinbase_txid)
unfolding add_leaked find_fee
add_leaked-returns inputs outputs values idx offset tx_outs inscription leaked known h =
    let same = length-cumulated 0 values in
    let end = last-some (cumulated 0 values) (omega (arith, same, h)) in
    let value = get_elem?-some values idx h in
    let cum = get_elem?-some (cumulated 0 values) idx (omega (arith, same, h)) in
    rw (Returns, known, end.1, value.1, cum.1) refl

module _ {S : Type 0} where
  abbrev Indexed : ℕ → ℕ → List (EvaluatedTxOut S) → ℕ × ℕ → Type 0
  Indexed idx offset outs p =
      (k : ℕ) × (p.0 ≡ idx + k) × (out : EvaluatedTxOut S) × (get_elem? outs k ≡ some out)

  search_from-Indexed :
      (idx offset : ℕ) (outs : List (EvaluatedTxOut S)) (p : ℕ × ℕ)
      → search_from idx offset (output_values outs) ≡ some p
      → Indexed idx offset outs p
  unfolding search_from output_values
  search_from-Indexed idx offset [] p h = absurd cc
  search_from-Indexed idx offset (o ∷ os) p h =
      if_rule (λ (r : Option (ℕ × ℕ)). r ≡ some p → Indexed idx offset (o ∷ os) p)
        (ltb offset o.out.value) (some (idx, offset))
        (search_from (idx + 1) (offset - o.out.value) (output_values os))
        (λ _ found. (0, sym (ap (λ q. q.0) (some-injective _ _ found)) ∙ omega arith, o, refl))
        (λ _ later.
          let r = search_from-Indexed (idx + 1) (offset - o.out.value) os p later in
          (suc r.0, r.1 ∙ omega arith, r.2, r.3))
        h

  -- The output that is found is there.
  pub found_output :
      (offset : Option ℕ) (outs : List (EvaluatedTxOut S)) (p : ℕ × ℕ)
      → get_output_index_by_input offset (output_values outs) ≡ some p
      → (out : EvaluatedTxOut S) × (get_elem? outs p.0 ≡ some out)
  unfolding get_output_index_by_input
  found_output none outs p h = absurd cc
  found_output (some offset) outs p h =
      if_rule
        (λ (r : Option (ℕ × ℕ)).
          r ≡ some p → (out : EvaluatedTxOut S) × (get_elem? outs p.0 ≡ some out))
        (leb (sum (output_values outs)) offset) none (search_from 0 offset (output_values outs))
        (λ _ e. absurd cc)
        (λ _ e.
          let r = search_from-Indexed 0 offset outs p e in
          (r.2, subst (λ k. get_elem? outs k ≡ some r.2) (omega (arith, r.1)) r.3))
        h

-- The parser of the parts of an inscription does not panic, since there is one part at least.
parse-some :
    (script : List ℕ) (scripts : List (List ℕ))
    → (r : ParsedInscription) × (parse (script ∷ scripts) ≡ some r)
unfolding parse
parse-some script scripts = elim (Option-cases (decode_push_datas script)) [
  | inl e ↦ (ParsedInscription.nothing, rw (parse, e) refl)
  | inr e ↦ (read_header e.0 scripts, rw (parse, e.1) refl)
]

from_parts-one :
    (read : List ℕ → Instructions) (p : Part) (vin : ℕ)
    → (r : ParsedInscription) × (from_parts read (p ∷ []) vin ≡ some r)
unfolding from_parts
from_parts-one read p vin = elim (Bool-cases p.is_tapscript) [
  | inl tap ↦ elim (Option-cases (from_tapscript (read p.script_buffer) vin)) [
    | inl e ↦ let r = parse-some p.script_buffer [] in (r.0, rw (tap, e) r.1)
    | inr e ↦ (ParsedInscription.many (payloads e.0), rw (tap, e.1) refl)
  ]
  | inr sig ↦ let r = parse-some p.script_buffer [] in (r.0, rw sig r.1)
]

from_parts-more :
    (read : List ℕ → Instructions) (p q : Part) (ps : List Part) (vin : ℕ)
    → (r : ParsedInscription) × (from_parts read (p ∷ (q ∷ ps)) vin ≡ some r)
unfolding from_parts scripts_of
from_parts-more read p q ps vin = parse-some p.script_buffer (q.script_buffer ∷ scripts_of ps)

pub from_parts-some :
    (read : List ℕ → Instructions) (ps : List Part) (p : Part) (vin : ℕ)
    → (r : ParsedInscription) × (from_parts read (ps ++ (p ∷ [])) vin ≡ some r)
from_parts-some read [] p vin = from_parts-one read p vin
from_parts-some read (q ∷ []) p vin = from_parts-more read q p [] vin
from_parts-some read (q ∷ (q' ∷ qs)) p vin = from_parts-more read q q' (qs ++ (p ∷ [])) vin
