-- ===== src/Inscriptions/Parse.antt =====
-- Inscriptions in the scripts of inputs, `InscriptionParser::parse` and `Inscription::from_parts` of
-- src/inscriptions/structs.rs.
use bel_20_indexer.Prelude.{
  ℕ, zero, suc, ◌-◌, Option, none, some, List, [], ◌∷◌, ◌++◌, Bool, false, ◌==◌, nat_eq, list_eq,
  if◌then◌else◌,
}
use bel_20_indexer.Db.Partials.{Part}
use bel_20_indexer.Inscriptions.Push.{decode_push_datas, push_data_to_number}
use bel_20_indexer.Inscriptions.Envelope.{Instructions, RawEnvelope, protocol_id, from_tapscript}
use bel_20_indexer.Inscriptions.Parsed.{Inscription, from_payload}

pub data ParsedInscription : Type 0 where
  nothing : ParsedInscription
  partial : ParsedInscription
  single : Inscription → ParsedInscription
  many : List Inscription → ParsedInscription

unfoldable pub of_body : List ℕ → List ℕ → Inscription
of_body content_type body = record {
  content_type = some content_type;
  body = some body;
  content_encoding = none;
  delegate = none;
  duplicate_field = false;
  incomplete_field = false;
  metadata = none;
  metaprotocol = none;
  parents = [];
  pointer = none;
  rune = none;
  unrecognized_even_field = false;
}

-- The test that a push is the number of the next piece, of `npieces` that are left.
unfoldable pub is_next : ℕ → List ℕ → Bool
is_next npieces push = elim (push_data_to_number push) [
  | none ↦ false
  | some next ↦ next == npieces - 1
]

-- How the loop over the chunks of a script ends: with the whole body, or with pieces left.
pub data ChunksEnd : Type 0 where
  finished : List ℕ → ChunksEnd
  left : ℕ → List ℕ → ChunksEnd

unfoldable pub read_chunks : ℕ → List ℕ → List (List ℕ) → ChunksEnd
read_chunks zero body push_datas = finished body
read_chunks (suc n) body [] = left (suc n) body
read_chunks (suc n) body (number ∷ []) = left (suc n) body
read_chunks (suc n) body (number ∷ (chunk ∷ push_datas)) =
    let behind = read_chunks n (body ++ chunk) push_datas in
    if is_next (suc n) number then behind else left (suc n) body

-- The test of the next script.
unfoldable pub continues : ℕ → List (List ℕ) → Bool
unfolding is_next
continues npieces [] = false
continues npieces (number ∷ []) = false
continues npieces (number ∷ (chunk ∷ push_datas)) = is_next npieces number

-- The loop over the scripts behind the one whose pushes are read.
unfoldable pub read_scripts :
    List ℕ → ℕ → List ℕ → List (List ℕ) → List (List ℕ) → ParsedInscription
read_scripts content_type npieces body push_datas [] = elim (read_chunks npieces body push_datas) [
  | finished whole ↦ single (of_body content_type whole)
  | left _ _ ↦ partial
]
read_scripts content_type npieces body push_datas (script ∷ scripts) =
    let behind = λ (n : ℕ) (some_body : List ℕ) (pushes : List (List ℕ)).
      read_scripts content_type n some_body pushes scripts in
    elim (read_chunks npieces body push_datas) [
      | finished whole ↦ single (of_body content_type whole)
      | left n some_body ↦ elim (decode_push_datas script) [
        | none ↦ nothing
        | some pushes ↦ if continues n pushes then behind n some_body pushes else nothing
      ]
    ]

unfoldable pub read_header : List (List ℕ) → List (List ℕ) → ParsedInscription
read_header (protocol ∷ (number ∷ (content_type ∷ push_datas))) scripts =
    if protocol == protocol_id
    then elim (push_data_to_number number) [
      | none ↦ nothing
      | some npieces ↦
          if npieces == 0 then nothing else read_scripts content_type npieces [] push_datas scripts
    ]
    else nothing
read_header _ scripts = nothing

-- Without a script it panics, which is `none`.
unfoldable pub parse : List (List ℕ) → Option ParsedInscription
unfolding read_header
parse [] = none
parse (script ∷ scripts) = elim (decode_push_datas script) [
  | none ↦ some nothing
  | some push_datas ↦ some (read_header push_datas scripts)
]

unfoldable pub scripts_of : List Part → List (List ℕ)
scripts_of [] = []
scripts_of (p ∷ ps) = p.script_buffer ∷ scripts_of ps

unfoldable pub payloads : List RawEnvelope → List Inscription
payloads [] = []
payloads (e ∷ es) = from_payload e.payload ∷ payloads es

-- `read_instructions` is the iterator over the instructions of a script.
unfoldable pub from_parts : (List ℕ → Instructions) → List Part → ℕ → Option ParsedInscription
unfolding payloads scripts_of
from_parts read_instructions [] vin = parse []
from_parts read_instructions (p ∷ []) vin =
    if p.is_tapscript
    then elim (from_tapscript (read_instructions p.script_buffer) vin) [
      | some envelopes ↦ some (many (payloads envelopes))
      | none ↦ parse (p.script_buffer ∷ [])
    ]
    else parse (p.script_buffer ∷ [])
from_parts read_instructions (p ∷ (q ∷ ps)) vin = parse (scripts_of (p ∷ (q ∷ ps)))
