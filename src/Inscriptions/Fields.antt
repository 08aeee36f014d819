-- ===== src/Inscriptions/Fields.antt =====
-- What the fields of an inscription are read as.
use bel_20_indexer.Prelude.{
  ℕ, ◌+◌, ◌≡◌, refl, ap, sym, ◌∙◌, arith, Option, none, some, List, [], ◌∷◌, ◌++◌, true, false,
  ◌==◌, nat_eq, list_eq, list_beq, if◌then◌else◌, length, drop, All, take-append, drop-append,
  append_assoc, Bool-cases, inl, inr, subst, list_beq_iff, match_rule, zero, suc,
}
use bel_20_indexer.Map.{lookup, insert, lookup-insert, lookup-insert_self}
use bel_20_indexer.Inscriptions.Tag.{
  Tag, Fields, flatten, take_tag, take_array, tag_bytes, tag_number, value_of, take_tag-value,
  take_tag-other, take_array-other, pointer, content_type, parent, metadata, metaprotocol,
  content_encoding, delegate,
}
use bel_20_indexer.Inscriptions.Parsed.{
  Inscription, body_at, push_field, collect_fields, before_body, body_of, of_fields, from_payload,
}

-- Keys with their values, as they stand in a payload.
abbrev pub Pairs : Type 0
Pairs = List (List ℕ × List ℕ)

abbrev pub pushes_of : Pairs → List (List ℕ)
pushes_of [] = []
pushes_of (p ∷ ps) = p.0 ∷ (p.1 ∷ pushes_of ps)

-- A key is not empty.
abbrev pub IsKey : List ℕ × List ℕ → Type 0
IsKey p = (p.0 == []) ≡ false

-- The values of a key, in their order.
abbrev pub values_of : List ℕ → Pairs → List (List ℕ)
values_of key [] = []
values_of key (p ∷ ps) = if p.0 == key then p.1 ∷ values_of key ps else values_of key ps

abbrev joined : Option (List (List ℕ)) → List (List ℕ) → Option (List (List ℕ))
joined o [] = o
joined none (v ∷ vs) = some (v ∷ vs)
joined (some us) (v ∷ vs) = some (us ++ (v ∷ vs))

drop-suc : (n : ℕ) (xs : List (List ℕ)) → drop 1 (drop n xs) ≡ drop (suc n) xs
drop-suc zero xs = refl
drop-suc (suc n) [] = refl
drop-suc (suc n) (x ∷ xs) = drop-suc n xs

drop_more : (n : ℕ) (xs : List (List ℕ)) → drop 1 (drop n xs) ≡ drop (n + 1) xs
drop_more n xs = drop-suc n xs ∙ ap (λ k. drop k xs) {x = suc n} (omega arith)

body_at-pushes :
    (n : ℕ) (ps : Pairs) (chunks : List (List ℕ))
    → All IsKey ps
    → body_at true n (pushes_of ps ++ ([] ∷ chunks)) ≡ some (n + length (pushes_of ps))
unfolding body_at list_beq
body_at-pushes n [] chunks h = ap some (omega arith)
body_at-pushes n (p ∷ ps) chunks h =
    rw (h.0, body_at-pushes (n + 1 + 1) ps chunks h.1) (ap some (omega arith))

push_field_self :
    (key value : List ℕ) (fields : Fields)
    → lookup key (push_field key value fields) ≡ joined (lookup key fields) (value ∷ [])
unfolding push_field
push_field_self key value fields =
    match_rule (λ (m : Fields). lookup key m ≡ joined (lookup key fields) (value ∷ []))
      (lookup key fields) (insert key (value ∷ []) fields)
      (λ values. insert key (values ++ (value ∷ [])) fields)
      (λ absent.
        lookup-insert_self key (value ∷ []) fields ∙ ap (λ o. joined o (value ∷ [])) (sym absent))
      (λ values there.
        lookup-insert_self key (values ++ (value ∷ [])) fields
        ∙ ap (λ o. joined o (value ∷ [])) (sym there))

push_field_other :
    (key value other : List ℕ) (fields : Fields)
    → (key == other) ≡ false
    → lookup other (push_field key value fields) ≡ lookup other fields
unfolding push_field
push_field_other key value other fields h =
    match_rule (λ (m : Fields). lookup other m ≡ lookup other fields) (lookup key fields)
      (insert key (value ∷ []) fields) (λ values. insert key (values ++ (value ∷ [])) fields)
      (λ _. rw (lookup-insert key other (value ∷ []) fields, h) refl)
      (λ values _. rw (lookup-insert key other (values ++ (value ∷ [])) fields, h) refl)

joined-joined :
    (o : Option (List (List ℕ))) (v : List ℕ) (vs : List (List ℕ))
    → joined (joined o (v ∷ [])) vs ≡ joined o (v ∷ vs)
joined-joined none v [] = refl
joined-joined none v (w ∷ ws) = refl
joined-joined (some us) v [] = refl
joined-joined (some us) v (w ∷ ws) = ap some (append_assoc us (v ∷ []) (w ∷ ws))

joined-values :
    (p : List ℕ × List ℕ) (ps : Pairs) (fields : Fields) (key : List ℕ)
    → joined (lookup key (push_field p.0 p.1 fields)) (values_of key ps)
      ≡ joined (lookup key fields) (values_of key (p ∷ ps))
joined-values p ps fields key = elim (Bool-cases (p.0 == key)) [
  | inl hit ↦ rw hit (
      subst
        (λ k.
          joined (lookup k (push_field p.0 p.1 fields)) (values_of key ps)
          ≡ joined (lookup k fields) (p.1 ∷ values_of key ps))
        ((list_beq_iff p.0 key).0 hit)
        (ap (λ o. joined o (values_of key ps)) (push_field_self p.0 p.1 fields)
          ∙ joined-joined (lookup p.0 fields) p.1 (values_of key ps)))
  | inr miss ↦
      rw miss (ap (λ o. joined o (values_of key ps)) (push_field_other p.0 p.1 key fields miss))
]

collect_fields-pushes :
    (ps : Pairs) (fields : Fields) (key : List ℕ)
    → lookup key (collect_fields (pushes_of ps) fields).0
      ≡ joined (lookup key fields) (values_of key ps)
unfolding collect_fields
collect_fields-pushes [] fields key = refl
collect_fields-pushes (p ∷ ps) fields key =
    collect_fields-pushes ps (push_field p.0 p.1 fields) key ∙ joined-values p ps fields key

collect_fields_complete :
    (ps : Pairs) (fields : Fields) → (collect_fields (pushes_of ps) fields).1 ≡ false
unfolding collect_fields
collect_fields_complete [] fields = refl
collect_fields_complete (p ∷ ps) fields = collect_fields_complete ps (push_field p.0 p.1 fields)

from_payload-fields :
    (ps : Pairs) (chunks : List (List ℕ))
    → All IsKey ps
    → from_payload (pushes_of ps ++ ([] ∷ chunks))
      ≡ of_fields (some (flatten chunks)) (collect_fields (pushes_of ps) [])
unfolding from_payload before_body body_of
from_payload-fields ps chunks h =
    let n = length (pushes_of ps) in
    let place : body_at true 0 (pushes_of ps ++ ([] ∷ chunks)) ≡ some n =
      body_at-pushes 0 ps chunks h ∙ ap some (omega arith) in
    let behind : drop (n + 1) (pushes_of ps ++ ([] ∷ chunks)) ≡ chunks =
      sym (drop_more n (pushes_of ps ++ ([] ∷ chunks)))
      ∙ ap (drop 1) (drop-append (pushes_of ps) ([] ∷ chunks)) in
    rw (place, behind, take-append (pushes_of ps) ([] ∷ chunks)) refl

-- The value of a tag among the pairs.
abbrev pub value_in : Tag → Pairs → Option (List ℕ)
value_in tag ps = value_of tag (joined none (values_of (tag_bytes tag) ps))

-- The body, the fields that are used here and those that stand around them, and that no key is
-- without its value.
pub record HasFields (ps : Pairs) (chunks : List (List ℕ)) (i : Inscription) : Type 0 where
  pub body_is : i.body ≡ some (flatten chunks)
  pub content_encoding_is : i.content_encoding ≡ value_in content_encoding ps
  pub content_type_is : i.content_type ≡ value_in content_type ps
  pub delegate_is : i.delegate ≡ value_in delegate ps
  pub metadata_is : i.metadata ≡ value_in metadata ps
  pub pointer_is : i.pointer ≡ value_in pointer ps
  pub complete : i.incomplete_field ≡ false

-- A tag that is taken of fields in which its values are those of the pairs.
taken :
    (tag : Tag) (ps : Pairs) (fields : Fields)
    → lookup (tag_bytes tag) fields ≡ joined none (values_of (tag_bytes tag) ps)
    → (take_tag tag fields).0 ≡ value_in tag ps
taken tag ps fields h = take_tag-value tag fields ∙ ap (value_of tag) h

of_fields-HasFields :
    (ps : Pairs) (chunks : List (List ℕ))
    → HasFields ps chunks (of_fields (some (flatten chunks)) (collect_fields (pushes_of ps) []))
unfolding of_fields lookup tag_bytes tag_number list_beq
of_fields-HasFields ps chunks =
    let f = (collect_fields (pushes_of ps) []).0 in
    let f₁ = (take_tag content_encoding f).1 in
    let f₂ = (take_tag content_type f₁).1 in
    let f₃ = (take_tag delegate f₂).1 in
    let f₄ = (take_tag metadata f₃).1 in
    let f₅ = (take_tag metaprotocol f₄).1 in
    let f₆ = (take_array parent f₅).1 in
    let at = λ (t : Tag). collect_fields-pushes ps [] (tag_bytes t) in
    let at₁ = λ (t : Tag) (h : (tag_bytes content_encoding == tag_bytes t) ≡ false).
      take_tag-other content_encoding (tag_bytes t) f h ∙ at t in
    record {
      body_is = refl;
      content_encoding_is = taken content_encoding ps f (at content_encoding);
      content_type_is = taken content_type ps f₁ (at₁ content_type refl);
      delegate_is =
          taken delegate ps f₂
            (take_tag-other content_type (tag_bytes delegate) f₁ refl ∙ at₁ delegate refl);
      metadata_is = taken metadata ps f₃ (
          take_tag-other delegate (tag_bytes metadata) f₂ refl
          ∙ take_tag-other content_type (tag_bytes metadata) f₁ refl
          ∙ at₁ metadata refl);
      pointer_is = taken pointer ps f₆ (
          take_array-other parent (tag_bytes pointer) f₅ refl
          ∙ take_tag-other metaprotocol (tag_bytes pointer) f₄ refl
          ∙ take_tag-other metadata (tag_bytes pointer) f₃ refl
          ∙ take_tag-other delegate (tag_bytes pointer) f₂ refl
          ∙ take_tag-other content_type (tag_bytes pointer) f₁ refl
          ∙ at₁ pointer refl);
      complete = collect_fields_complete ps [];
    }

pub from_payload-HasFields :
    (ps : Pairs) (chunks : List (List ℕ))
    → All IsKey ps
    → HasFields ps chunks (from_payload (pushes_of ps ++ ([] ∷ chunks)))
from_payload-HasFields ps chunks h =
    subst (HasFields ps chunks) (sym (from_payload-fields ps chunks h))
      (of_fields-HasFields ps chunks)
