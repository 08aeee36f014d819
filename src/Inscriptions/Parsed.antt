-- ===== src/Inscriptions/Parsed.antt =====
-- An inscription from the payload of its envelope, `ParsedEnvelope::from` of
-- src/inscriptions/envelope.rs.
use bel_20_indexer.Prelude.{
  ℕ, ◌+◌, ◌%◌, Option, none, some, List, [], ◌∷◌, ◌++◌, Bool, true, false, ◌&&◌, ◌||◌, not, ◌==◌,
  nat_eq, list_eq, ltb, if◌then◌else◌, length, take, drop,
}
use bel_20_indexer.Map.{lookup, insert}
use bel_20_indexer.Inscriptions.Tag.{
  pointer, content_type, parent, metadata, metaprotocol, content_encoding, delegate, rune, Fields,
  flatten, take_tag, take_array,
}

-- `Inscription` of src/inscriptions/structs.rs
pub record Inscription : Type 0 where
  pub body : Option (List ℕ)
  pub content_type : Option (List ℕ)
  pub content_encoding : Option (List ℕ)
  pub delegate : Option (List ℕ)
  pub duplicate_field : Bool
  pub incomplete_field : Bool
  pub metadata : Option (List ℕ)
  pub metaprotocol : Option (List ℕ)
  pub parents : List (List ℕ)
  pub pointer : Option (List ℕ)
  pub rune : Option (List ℕ)
  pub unrecognized_even_field : Bool

-- The position of the first push that is empty, among those at even places.
unfoldable pub body_at : Bool → ℕ → List (List ℕ) → Option ℕ
body_at is_even n [] = none
body_at is_even n (push ∷ pushes) =
    let behind = body_at (not is_even) (n + 1) pushes in
    if is_even && (push == []) then some n else behind

-- `fields.entry(key).or_default().push(value)`
unfoldable pub push_field : List ℕ → List ℕ → Fields → Fields
push_field key value fields = elim (lookup key fields) [
  | none ↦ insert key (value ∷ []) fields
  | some values ↦ insert key (values ++ (value ∷ [])) fields
]

-- The loop over `chunks(2)`, and whether a key has no value.
unfoldable pub collect_fields : List (List ℕ) → Fields → Fields × Bool
unfolding push_field
collect_fields [] fields = (fields, false)
collect_fields (key ∷ []) fields = (fields, true)
collect_fields (key ∷ (value ∷ rest)) fields = collect_fields rest (push_field key value fields)

unfoldable pub any_duplicate : Fields → Bool
any_duplicate [] = false
any_duplicate (f ∷ fs) = ltb 1 (length f.1) || any_duplicate fs

unfoldable pub even_key : List ℕ → Bool
even_key [] = false
even_key (lsb ∷ _) = lsb % 2 == 0

unfoldable pub any_even : Fields → Bool
unfolding even_key
any_even [] = false
any_even (f ∷ fs) = even_key f.0 || any_even fs

unfoldable pub before_body : Option ℕ → List (List ℕ) → List (List ℕ)
before_body none payload = payload
before_body (some i) payload = take i payload

unfoldable pub body_of : Option ℕ → List (List ℕ) → Option (List ℕ)
body_of none payload = none
body_of (some i) payload = some (flatten (drop (i + 1) payload))

-- The inscription of the fields and the body.
unfoldable pub of_fields : Option (List ℕ) → Fields × Bool → Inscription
of_fields body collected =
    let with_encoding = take_tag content_encoding collected.0 in
    let with_type = take_tag content_type with_encoding.1 in
    let with_delegate = take_tag delegate with_type.1 in
    let with_metadata = take_tag metadata with_delegate.1 in
    let with_metaprotocol = take_tag metaprotocol with_metadata.1 in
    let with_parents = take_array parent with_metaprotocol.1 in
    let with_pointer = take_tag pointer with_parents.1 in
    let with_rune = take_tag rune with_pointer.1 in
    record {
      body = body;
      content_encoding = with_encoding.0;
      content_type = with_type.0;
      delegate = with_delegate.0;
      duplicate_field = any_duplicate collected.0;
      incomplete_field = collected.1;
      metadata = with_metadata.0;
      metaprotocol = with_metaprotocol.0;
      parents = with_parents.0;
      pointer = with_pointer.0;
      rune = with_rune.0;
      unrecognized_even_field = any_even with_rune.1;
    }

unfoldable pub from_payload : List (List ℕ) → Inscription
from_payload payload =
    let body = body_at true 0 payload in
    of_fields (body_of body payload) (collect_fields (before_body body payload) [])
