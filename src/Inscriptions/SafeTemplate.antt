-- ===== src/Inscriptions/SafeTemplate.antt =====
-- Templates are made without a panic, each at an output of its transaction.
use bel_20_indexer.Prelude.{
  ℕ, ◌<◌, ◌≡◌, refl, arith, Option, none, some, List, [], ◌∷◌, ◌++◌, length, get_elem?, All,
  Returns, Returns-bind, Option-cases, inl, inr, ◌∙◌, sym, subst,
}
use bel_20_indexer.Env.{Env}
use bel_20_indexer.Tokens.Parse.{InscriptionTemplate}
use bel_20_indexer.Db.Partials.{Part}
use bel_20_indexer.Blk.Tx.{EvaluatedTxOut}
use bel_20_indexer.Inscriptions.Searcher.{get_output_index_by_input}
use bel_20_indexer.Inscriptions.Pointer.{pointer}
use bel_20_indexer.Inscriptions.Leaked.{LeakedInscriptions, add_leaked, creation}
use bel_20_indexer.Inscriptions.Parsed.{Inscription}
use bel_20_indexer.Inscriptions.Parse.{ParsedInscription, from_parts}
use bel_20_indexer.Inscriptions.Template.{
  Outside, ParseInscription, ParsedInscriptionResult, spent_outpoints, output_values, pointed,
  with_template, single_result, template_at, convert_to_template, convert_all, of_parsed,
  parse_inscription,
}
use bel_20_indexer.Inscriptions.Keyed.{
  AllKnown, known_values, found_output, add_leaked-returns, from_parts-some,
}

pointed-output :
    {S : Type 0} (offset first : Option ℕ) (place : ℕ × ℕ) (outs : List (EvaluatedTxOut S))
    → get_output_index_by_input first (output_values outs) ≡ some place
    → (out : EvaluatedTxOut S) × (get_elem? outs (pointed offset place (output_values outs)).0
        ≡ some out)
unfolding pointed
pointed-output offset first place outs h =
    elim (Option-cases (get_output_index_by_input offset (output_values outs))) [
      | inl nowhere ↦ rw (pointed, nowhere) (found_output first outs place h)
      | inr there ↦ rw (pointed, there.1) (found_output offset outs there.0 there.1)
    ]

module _ {W S : Type 0} (env : Env) (outside : Outside W) (payload : ParseInscription W S)
    (known : AllKnown payload.prevouts payload.tx.value.inputs)
    (lt : payload.input_index < length payload.tx.value.inputs) where
  abbrev pub Located : InscriptionTemplate → Type 0
  Located t = t.location.outpoint.txid ≡ payload.tx.hash

  abbrev MaybeLocated : Option InscriptionTemplate → Type 0
  MaybeLocated none = Unit
  MaybeLocated (some t) = Located t

  abbrev pub ResultLocated : ParsedInscriptionResult → Type 0
  ResultLocated ParsedInscriptionResult.nothing = Unit
  ResultLocated ParsedInscriptionResult.partials = Unit
  ResultLocated (ParsedInscriptionResult.single t) = Located t
  ResultLocated (ParsedInscriptionResult.many ts) = All Located ts

  convert_to_template-returns :
      (inscription : Inscription) (leaked : LeakedInscriptions)
      → Returns
          (convert_to_template env outside payload inscription leaked)
          (λ r. (r.0.coinbase_txid ≡ leaked.coinbase_txid) × MaybeLocated r.1)
  unfolding convert_to_template
  convert_to_template-returns inscription leaked =
      let outs = payload.tx.value.outputs in
      let first = get_elem? payload.inputs_cum payload.input_index in
      let values = known_values payload.prevouts payload.tx.value.inputs known in
      elim (Option-cases (get_output_index_by_input first (output_values outs))) [
        | inl lost ↦
            rw (Returns, lost)
              (Returns-bind _ _ _
                (add_leaked payload.input_index (spent_outpoints payload.tx.value.inputs)
                  (output_values outs) 0 payload.prevouts creation leaked)
                (add_leaked-returns (spent_outpoints payload.tx.value.inputs) (output_values outs)
                  values.0 payload.input_index 0 payload.prevouts creation leaked values.1
                  (omega (arith, values.2, lt)))
                (λ added same. (same, tt)))
        | inr found ↦
            let out = pointed-output (pointer inscription.pointer) first found.0 outs found.1 in
            rw (Returns, found.1, out.1) (refl, unfold template_at in refl)
      ]

  with_template-Located :
      (t : Option InscriptionTemplate) (ts : List InscriptionTemplate)
      → MaybeLocated t
      → All Located ts
      → All Located (with_template t ts)
  unfolding with_template
  with_template-Located none ts h hs = hs
  with_template-Located (some t) ts h hs = (h, hs)

  convert_all-returns :
      (is : List Inscription) (leaked : LeakedInscriptions)
      → Returns
          (convert_all env outside payload is leaked)
          (λ r. (r.0.coinbase_txid ≡ leaked.coinbase_txid) × All Located r.1)
  unfolding convert_all
  convert_all-returns [] leaked = (refl, tt)
  convert_all-returns (i ∷ is) leaked =
      Returns-bind _ _ _ (convert_to_template env outside payload i leaked)
        (convert_to_template-returns i leaked)
        (λ r p.
          Returns-bind _ _ _ (convert_all env outside payload is r.0) (convert_all-returns is r.0)
            (λ rest q. (q.0 ∙ p.0, with_template-Located r.1 rest.1 p.1 q.1)))

  single_result-Located :
      (t : Option InscriptionTemplate) → MaybeLocated t → ResultLocated (single_result t)
  unfolding single_result
  single_result-Located none h = tt
  single_result-Located (some t) h = h

  of_parsed-returns :
      (parsed : ParsedInscription) (leaked : LeakedInscriptions)
      → Returns
          (of_parsed env outside payload parsed leaked)
          (λ r. (r.0.coinbase_txid ≡ leaked.coinbase_txid) × ResultLocated r.1)
  unfolding of_parsed
  of_parsed-returns ParsedInscription.nothing leaked = (refl, tt)
  of_parsed-returns ParsedInscription.partial leaked = (refl, tt)
  of_parsed-returns (ParsedInscription.single i) leaked =
      Returns-bind _ _ _ (convert_to_template env outside payload i leaked)
        (convert_to_template-returns i leaked) (λ r p. (p.0, single_result-Located r.1 p.1))
  of_parsed-returns (ParsedInscription.many is) leaked =
      Returns-bind _ _ _ (convert_all env outside payload is leaked) (convert_all-returns is leaked)
        (λ r p. p)

  pub parse_inscription-returns :
      (ps : List Part) (p : Part) (leaked : LeakedInscriptions)
      → payload.partials.parts ≡ ps ++ (p ∷ [])
      → Returns
          (parse_inscription env outside payload leaked)
          (λ r. (r.0.coinbase_txid ≡ leaked.coinbase_txid) × ResultLocated r.1)
  unfolding parse_inscription
  parse_inscription-returns ps p leaked same =
      let read = outside.read_instructions in
      let vin = payload.input_index in
      let parsed = from_parts-some read ps p vin in
      let ends : from_parts read payload.partials.parts vin ≡ some parsed.0 =
        subst (λ parts. from_parts read parts vin ≡ some parsed.0) (sym same) parsed.1 in
      rw (Returns, ends) (of_parsed-returns parsed.0 leaked)
