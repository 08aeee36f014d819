-- ===== src/Inscriptions/Tag.antt =====
-- The tags of the fields of an envelope, src/inscriptions/tag.rs. The `BTreeMap` of fields is an
-- association list; a tag is its byte.
use bel_20_indexer.Prelude.{
  ℕ, ◌≡◌, refl, arith, Option, none, some, List, [], ◌∷◌, ◌++◌, Bool, true, false, ◌==◌, nat_eq,
  list_eq, if◌then◌else◌, if_rule, match_rule,
}
use bel_20_indexer.Map.{Map, lookup, insert, erase, lookup-insert, lookup-erase}

pub data Tag : Type 0 where
  pointer unbound content_type parent metadata metaprotocol content_encoding delegate rune note
        nop :
      Tag

unfoldable pub tag_number : Tag → ℕ
tag_number pointer = 2
tag_number unbound = 66
tag_number content_type = 1
tag_number parent = 3
tag_number metadata = 5
tag_number metaprotocol = 7
tag_number content_encoding = 9
tag_number delegate = 11
tag_number rune = 13
tag_number note = 15
tag_number nop = 255

unfoldable pub chunked : Tag → Bool
chunked metadata = true
chunked _ = false

unfoldable pub tag_bytes : Tag → List ℕ
unfolding tag_number
tag_bytes tag = tag_number tag ∷ []

abbrev pub Fields : Type 0
Fields = Map (List ℕ) (List (List ℕ))

unfoldable pub flatten : List (List ℕ) → List ℕ
flatten [] = []
flatten (v ∷ vs) = v ++ flatten vs

-- The value of a tag that is chunked is all its values in a row.
unfoldable pub all_values : List ℕ → List (List ℕ) → Fields → Option (List ℕ) × Fields
unfolding flatten
all_values key [] fields = (none, erase key fields)
all_values key (v ∷ vs) fields = (some (flatten (v ∷ vs)), erase key fields)

unfoldable pub take_chunked : List ℕ → Fields → Option (List ℕ) × Fields
unfolding all_values
take_chunked key fields = elim (lookup key fields) [
  | none ↦ (none, fields)
  | some value ↦ all_values key value fields
]

-- That of another is its first value, and the others stay.
unfoldable pub first_value : List ℕ → List (List ℕ) → Fields → Option (List ℕ) × Fields
first_value key [] fields = (none, fields)
first_value key (v ∷ []) fields = (some v, erase key fields)
first_value key (v ∷ (w ∷ ws)) fields = (some v, insert key (w ∷ ws) fields)

unfoldable pub take_first : List ℕ → Fields → Option (List ℕ) × Fields
unfolding first_value
take_first key fields = elim (lookup key fields) [
  | none ↦ (none, fields)
  | some values ↦ first_value key values fields
]

unfoldable pub take_tag : Tag → Fields → Option (List ℕ) × Fields
unfolding chunked tag_bytes
take_tag tag fields =
    if chunked tag then take_chunked (tag_bytes tag) fields else take_first (tag_bytes tag) fields

unfoldable pub take_array : Tag → Fields → List (List ℕ) × Fields
unfolding tag_bytes
take_array tag fields = elim (lookup (tag_bytes tag) fields) [
  | none ↦ ([], fields)
  | some values ↦ (values, erase (tag_bytes tag) fields)
]

-- What a tag gives of its values.
abbrev pub value_of : Tag → Option (List (List ℕ)) → Option (List ℕ)
value_of tag none = none
value_of tag (some []) = none
value_of tag (some (v ∷ vs)) = if chunked tag then some (flatten (v ∷ vs)) else some v

module _ (tag : Tag) (fields : Fields) where
  pub take_tag-value : (take_tag tag fields).0 ≡ value_of tag (lookup (tag_bytes tag) fields)
  unfolding take_tag take_chunked take_first all_values first_value
  take_tag-value = found (lookup (tag_bytes tag) fields)
    where
      found :
          (o : Option (List (List ℕ)))
          → (if chunked tag
              then elim o as (λ _. Option (List ℕ) × Fields) [
                | none ↦ (none, fields)
                | some value ↦ all_values (tag_bytes tag) value fields
              ]
              else elim o as (λ _. Option (List ℕ) × Fields) [
                | none ↦ (none, fields)
                | some values ↦ first_value (tag_bytes tag) values fields
              ]).0
            ≡ value_of tag o
      found none = ground arith
      found (some []) = ground arith
      found (some (v ∷ [])) = ground arith
      found (some (v ∷ (w ∷ ws))) = ground arith

-- Taking a tag leaves the values of the other tags.
module _ (key other : List ℕ) (fields : Fields) (h : (key == other) ≡ false) where
  erase-other : lookup other (erase key fields) ≡ lookup other fields
  erase-other = rw (lookup-erase key other fields, h) refl

  all_values-other :
      (values : List (List ℕ)) → lookup other (all_values key values fields).1 ≡ lookup other fields
  unfolding all_values
  all_values-other [] = erase-other
  all_values-other (v ∷ vs) = erase-other

  first_value-other :
      (values : List (List ℕ))
      → lookup other (first_value key values fields).1 ≡ lookup other fields
  unfolding first_value
  first_value-other [] = refl
  first_value-other (v ∷ []) = erase-other
  first_value-other (v ∷ (w ∷ ws)) = rw (lookup-insert key other (w ∷ ws) fields, h) refl

  pub lookup-take_chunked : lookup other (take_chunked key fields).1 ≡ lookup other fields
  unfolding take_chunked
  lookup-take_chunked =
      match_rule (λ (r : Option (List ℕ) × Fields). lookup other r.1 ≡ lookup other fields)
        (lookup key fields) (none, fields) (λ value. all_values key value fields) (λ _. refl)
        (λ value _. all_values-other value)

  pub lookup-take_first : lookup other (take_first key fields).1 ≡ lookup other fields
  unfolding take_first
  lookup-take_first =
      match_rule (λ (r : Option (List ℕ) × Fields). lookup other r.1 ≡ lookup other fields)
        (lookup key fields) (none, fields) (λ values. first_value key values fields) (λ _. refl)
        (λ values _. first_value-other values)

pub take_tag-other :
    (tag : Tag) (other : List ℕ) (fields : Fields)
    → (tag_bytes tag == other) ≡ false
    → lookup other (take_tag tag fields).1 ≡ lookup other fields
unfolding take_tag
take_tag-other tag other fields h =
    if_rule (λ (r : Option (List ℕ) × Fields). lookup other r.1 ≡ lookup other fields) (chunked tag)
      (take_chunked (tag_bytes tag) fields) (take_first (tag_bytes tag) fields)
      (λ _. lookup-take_chunked (tag_bytes tag) other fields h)
      (λ _. lookup-take_first (tag_bytes tag) other fields h)

pub take_array-other :
    (tag : Tag) (other : List ℕ) (fields : Fields)
    → (tag_bytes tag == other) ≡ false
    → lookup other (take_array tag fields).1 ≡ lookup other fields
unfolding take_array
take_array-other tag other fields h =
    match_rule (λ (r : List (List ℕ) × Fields). lookup other r.1 ≡ lookup other fields)
      (lookup (tag_bytes tag) fields) ([], fields)
      (λ values. (values, erase (tag_bytes tag) fields)) (λ _. refl)
      (λ values _. erase-other (tag_bytes tag) other fields h)
