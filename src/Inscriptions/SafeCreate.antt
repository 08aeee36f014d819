-- ===== src/Inscriptions/SafeCreate.antt =====
-- The creation of inscriptions does not panic, and writes to outpoints of its transaction only.
use bel_20_indexer.Prelude.{
  ℕ, ◌+◌, ◌%◌, ◌^◌, ◌<◌, ◌≡◌, refl, some, List, [], ◌∷◌, ◌++◌, Bool, true, false, ◌==◌, nat_eq,
  length, get_elem?, All, Returns, Returns-bind, Option-cases, inl, inr, subst, sym, if_rule,
}
use bel_20_indexer.Map.{erase}
use bel_20_indexer.Env.{Env}
use bel_20_indexer.Tokens.Types.{OutPoint, outpoint_eq}
use bel_20_indexer.Tokens.Parse.{InscriptionTemplate}
use bel_20_indexer.Db.Partials.{Partials}
use bel_20_indexer.Blk.Tx.{TxInput}
use bel_20_indexer.Inscriptions.Template.{
  ParseInscription, ParsedInscriptionResult, parse_inscription,
}
use bel_20_indexer.Inscriptions.Moves.{BlockState, TxContext, Setting}
use bel_20_indexer.Inscriptions.Create.{
  place_template, place_all, number_templates, part_of, partials_at, keep_partials, place_numbered,
  handle_result, handle_creation,
}
use bel_20_indexer.Inscriptions.Keyed.{insert-AllKeys, erase-AllKeys}
use bel_20_indexer.Inscriptions.SafeMoves.{Keyed, FitsTx, add_offset-AllKeys}
use bel_20_indexer.Inscriptions.SafeTemplate.{ResultLocated, parse_inscription-returns}

module _ {W S : Type 0} (env : Env) (setting : Setting env W) (P Q : OutPoint → Type 0)
    (context : TxContext W S) (fits : FitsTx P Q context) where
  open env use {Fixed128}

  abbrev Good : BlockState Fixed128 → Type 0
  Good = Keyed P Q Fixed128

  abbrev Here : InscriptionTemplate → Type 0
  Here t = t.location.outpoint.txid ≡ context.tx.hash

  place_template-Keyed :
      (t : InscriptionTemplate) (s : BlockState Fixed128)
      → Here t
      → Good s
      → Good (place_template env setting t s)
  unfolding place_template
  place_template-Keyed t s here h =
      let outpoint = t.location.outpoint in
      let at_output : Q outpoint =
        subst (λ txid. Q (record { txid = txid; vout = outpoint.vout })) (sym here)
          (fits.offsets_here outpoint.vout) in
      let keyed =
        add_offset-AllKeys Q outpoint t.location.offset s.outpoint_to_offsets at_output
          h.offsets_keyed in
      if_rule Good _ _ _
        (λ _. record {
          partials_keyed = h.partials_keyed;
          offsets_keyed = keyed;
          leaks = h.leaks;
          has_leaks = h.has_leaks;
          coinbase_keyed = h.coinbase_keyed;
        })
        (λ _. record {
          partials_keyed = h.partials_keyed;
          offsets_keyed = keyed;
          leaks = h.leaks;
          has_leaks = h.has_leaks;
          coinbase_keyed = h.coinbase_keyed;
        })

  place_all-Keyed :
      (ts : List InscriptionTemplate) (s : BlockState Fixed128)
      → All Here ts
      → Good s
      → Good (place_all env setting ts s)
  unfolding place_all
  place_all-Keyed [] s here h = h
  place_all-Keyed (t ∷ ts) s here h =
      place_all-Keyed ts (place_template env setting t s) here.1 (place_template-Keyed t s here.0 h)

  number_templates-Here :
      (begins : Bool) (index : ℕ) (ts : List InscriptionTemplate)
      → All Here ts
      → All Here (number_templates env setting begins index ts).0
  unfolding number_templates
  number_templates-Here false index ts h = h
  number_templates-Here true index [] h = tt
  number_templates-Here true index (t ∷ ts) h =
      (h.0, number_templates-Here true ((index + 1) % 2 ^ 32) ts h.1)

  keep_partials-Keyed :
      (idx index : ℕ) (partials : Partials) (s : BlockState Fixed128)
      → Good s
      → Good (keep_partials env setting context idx index partials s).0
  unfolding keep_partials
  keep_partials-Keyed idx index partials s h =
      elim (Option-cases (get_elem? context.tx.value.outputs idx)) [
        | inl nowhere ↦ rw (keep_partials, nowhere) h
        | inr there ↦
            rw (keep_partials, there.1)
              (record {
                partials_keyed =
                    insert-AllKeys P (record { txid = context.tx.hash; vout = idx }) _
                      s.outpoint_to_partials (fits.partials_here idx) h.partials_keyed;
                offsets_keyed = h.offsets_keyed;
                leaks = h.leaks;
                has_leaks = h.has_leaks;
                coinbase_keyed = h.coinbase_keyed;
              })
      ]

  abbrev payload_of : ℕ → Partials → ParseInscription W S
  payload_of idx partials = record {
    tx = context.tx;
    input_index = idx;
    inputs_cum = context.inputs_cum;
    partials = partials;
    prevouts = context.prevouts;
  }

  abbrev ResultHere : ParsedInscriptionResult → Type 0
  ResultHere ParsedInscriptionResult.nothing = Unit
  ResultHere ParsedInscriptionResult.partials = Unit
  ResultHere (ParsedInscriptionResult.single t) = Here t
  ResultHere (ParsedInscriptionResult.many ts) = All Here ts

  place_numbered-Keyed :
      (index : ℕ) (partials : Partials) (ts : List InscriptionTemplate) (s : BlockState Fixed128)
      → All Here ts
      → Good s
      → Good (place_numbered env setting context index partials ts s).0
  unfolding place_numbered
  place_numbered-Keyed index partials ts s here h =
      place_all-Keyed
        (number_templates env setting (partials.genesis_txid == context.tx.hash) index ts).0 s
        (number_templates-Here (partials.genesis_txid == context.tx.hash) index ts here) h

  handle_result-Keyed :
      (idx index : ℕ) (partials : Partials) (r : ParsedInscriptionResult) (s : BlockState Fixed128)
      → ResultHere r
      → Good s
      → Good (handle_result env setting context idx index partials r s).0
  unfolding handle_result
  handle_result-Keyed idx index partials ParsedInscriptionResult.nothing s here h = h
  handle_result-Keyed idx index partials ParsedInscriptionResult.partials s here h =
      keep_partials-Keyed idx index partials s h
  handle_result-Keyed idx index partials (ParsedInscriptionResult.single t) s here h =
      place_numbered-Keyed index partials (t ∷ []) s (here, tt) h
  handle_result-Keyed idx index partials (ParsedInscriptionResult.many ts) s here h =
      place_numbered-Keyed index partials ts s here h

  located-ResultHere :
      (idx : ℕ) (partials : Partials) (lt : idx < length context.tx.value.inputs)
      (r : ParsedInscriptionResult)
      → ResultLocated env setting.outside (payload_of idx partials) fits.known lt r
      → ResultHere r
  located-ResultHere idx partials lt ParsedInscriptionResult.nothing h = tt
  located-ResultHere idx partials lt ParsedInscriptionResult.partials h = tt
  located-ResultHere idx partials lt (ParsedInscriptionResult.single t) h = h
  located-ResultHere idx partials lt (ParsedInscriptionResult.many ts) h = h

  pub handle_creation-Keyed :
      (idx index : ℕ) (txin : TxInput W) (s : BlockState Fixed128)
      → idx < length context.tx.value.inputs
      → Good s
      → Returns (handle_creation env setting context idx index txin s) (λ r. Good r.0)
  unfolding handle_creation
  handle_creation-Keyed idx index txin s lt h =
      let found = partials_at env setting context.tx.hash txin.outpoint s.outpoint_to_partials in
      let part = part_of env setting txin in
      let partials : Partials = record found { parts = found.parts ++ (part ∷ []) } in
      let payload = payload_of idx partials in
      rw (Returns, h.has_leaks)
        (Returns-bind _ _ _ (parse_inscription env setting.outside payload h.leaks)
          (parse_inscription-returns env setting.outside payload fits.known lt found.parts part
            h.leaks refl)
          (λ r p.
            handle_result-Keyed idx index partials r.1
              (record s {
                outpoint_to_partials = erase txin.outpoint s.outpoint_to_partials;
                leaked = some r.0;
              })
              (located-ResultHere idx partials lt r.1 p.1)
              (record {
                partials_keyed =
                    erase-AllKeys P txin.outpoint s.outpoint_to_partials h.partials_keyed;
                offsets_keyed = h.offsets_keyed;
                leaks = r.0;
                has_leaks = refl;
                coinbase_keyed = λ vout.
                    subst (λ t. Q (record { txid = t; vout = vout })) (sym p.0)
                      (h.coinbase_keyed vout);
              })))
