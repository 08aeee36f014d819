-- ===== src/Inscriptions/EnvelopeTrip.antt =====
-- Envelopes that are written one after another are read from the script.
use bel_20_indexer.Prelude.{
  ℕ, zero, suc, ◌+◌, ◌≤◌, ◌≡◌, refl, ap, sym, ◌∙◌, arith, some, List, [], ◌∷◌, ◌++◌, Bool, true,
  false, ◌||◌, ◌==◌, nat_eq, list_eq, length, All, append_assoc, append-nil, length-append, ap₂,
  list_beq,
}
use bel_20_indexer.Inscriptions.Envelope.{
  Instruction, push_bytes, op, Instructions, RawEnvelope, protocol_id, op_if, op_endif, is_push,
  pushed_number, closed, read_payload, from_instructions, read_envelopes, from_tapscript,
}

-- A part of a payload: a push, or a small number.
pub data Item : Type 0 where
  bytes : List ℕ → Item
  number : ℕ → Item

abbrev pub instruction_of : Item → Instruction
instruction_of (bytes b) = push_bytes b
instruction_of (number n) = op (n + 80)

abbrev pub bytes_of : Item → List ℕ
bytes_of (bytes b) = b
bytes_of (number n) = n ∷ []

abbrev is_number : Item → Bool
is_number (bytes b) = false
is_number (number n) = true

-- The numbers are those from 1 to 16.
abbrev pub IsItem : Item → Type 0
IsItem (bytes b) = Unit
IsItem (number n) = (1 ≤ n) × (n ≤ 16)

abbrev pub instructions_of : List Item → Instructions
instructions_of [] = []
instructions_of (i ∷ is) = some (instruction_of i) ∷ instructions_of is

abbrev pub payload_of : List Item → List (List ℕ)
payload_of [] = []
payload_of (i ∷ is) = bytes_of i ∷ payload_of is

abbrev pub has_number : List Item → Bool
has_number [] = false
has_number (i ∷ is) = is_number i || has_number is

-- The script of one envelope and of several.
abbrev pub envelope_script : List Item → Instructions
envelope_script items =
    some (push_bytes [])
    ∷ (some (op op_if)
        ∷ (some (push_bytes protocol_id) ∷ (instructions_of items ++ (some (op op_endif) ∷ []))))

abbrev pub tapscript_of : List (List Item) → Instructions
tapscript_of [] = []
tapscript_of (e ∷ es) = envelope_script e ++ tapscript_of es

abbrev pub envelopes_of : ℕ → ℕ → List (List Item) → List RawEnvelope
envelopes_of input offset [] = []
envelopes_of input offset (e ∷ es) =
    record {
      input = input;
      offset = offset;
      payload = payload_of e;
      pushnum = has_number e;
      stutter = false;
    }
    ∷ envelopes_of input (offset + 1) es

pushed_number-small : (n : ℕ) → 1 ≤ n → n ≤ 16 → pushed_number (n + 80) ≡ some (n ∷ [])
unfolding pushed_number
pushed_number-small n pos small = ground (arith, pos, small)

read_payload-number :
    (n : ℕ) (payload : List (List ℕ)) (pushnum : Bool) (rest : Instructions)
    → 1 ≤ n
    → n ≤ 16
    → read_payload payload pushnum (some (op (n + 80)) ∷ rest)
      ≡ read_payload (payload ++ ((n ∷ []) ∷ [])) true rest
unfolding read_payload
read_payload-number n payload pushnum rest pos small =
    let other : ◌==◌ {A = ℕ} (n + 80) 104 ≡ false = ground (arith, pos, small) in
    rw (other, pushed_number-small n pos small) refl

read_payload-end :
    (payload : List (List ℕ)) (pushnum : Bool) (rest : Instructions)
    → read_payload payload pushnum (some (op op_endif) ∷ rest)
      ≡ closed (payload ++ []) (pushnum || false) rest
unfolding read_payload
read_payload-end payload pushnum rest =
    ap₂ (λ p b. closed p b rest) (sym (append-nil payload)) (ground arith)

read_payload-push :
    (b : List ℕ) (payload : List (List ℕ)) (pushnum : Bool) (rest : Instructions)
    → read_payload payload pushnum (some (push_bytes b) ∷ rest)
      ≡ read_payload (payload ++ (b ∷ [])) pushnum rest
unfolding read_payload
read_payload-push b payload pushnum rest = refl

read_payload-items :
    (items : List Item) (payload : List (List ℕ)) (pushnum : Bool) (rest : Instructions)
    → All IsItem items
    → read_payload payload pushnum ((instructions_of items ++ (some (op op_endif) ∷ [])) ++ rest)
      ≡ closed (payload ++ payload_of items) (pushnum || has_number items) rest
read_payload-items [] payload pushnum rest h = read_payload-end payload pushnum rest
read_payload-items (bytes b ∷ items) payload pushnum rest h =
    read_payload-push b payload pushnum
      ((instructions_of items ++ (some (op op_endif) ∷ [])) ++ rest)
    ∙ read_payload-items items (payload ++ (b ∷ [])) pushnum rest h.1
    ∙ ap (λ p. closed p (pushnum || has_number items) rest)
        (append_assoc payload (b ∷ []) (payload_of items))
read_payload-items (number n ∷ items) payload pushnum rest h =
    read_payload-number n payload pushnum
      ((instructions_of items ++ (some (op op_endif) ∷ [])) ++ rest) h.0.0 h.0.1
    ∙ read_payload-items items (payload ++ ((n ∷ []) ∷ [])) true rest h.1
    ∙ ap₂ (λ p b. closed p b rest) (append_assoc payload ((n ∷ []) ∷ []) (payload_of items))
        (ground arith)

abbrev envelope_of : ℕ → ℕ → List Item → RawEnvelope
envelope_of input offset items = record {
  input = input;
  offset = offset;
  payload = payload_of items;
  pushnum = has_number items;
  stutter = false;
}

from_instructions-items :
    (input offset : ℕ) (items : List Item) (rest : Instructions)
    → All IsItem items
    → from_instructions input offset false (
        some (op op_if)
        ∷ (some (push_bytes protocol_id)
            ∷ ((instructions_of items ++ (some (op op_endif) ∷ [])) ++ rest)))
      ≡ some (false, some (envelope_of input offset items), rest)
unfolding from_instructions list_beq
from_instructions-items input offset items rest h =
    rw (read_payload-items items [] false rest h) refl

read_envelopes-one :
    (fuel input : ℕ) (envelopes : List RawEnvelope) (items : List Item) (rest : Instructions)
    → All IsItem items
    → read_envelopes (suc fuel) input false envelopes (envelope_script items ++ rest)
      ≡ read_envelopes fuel input false
          (envelopes ++ (envelope_of input (length envelopes) items ∷ []))
          rest
unfolding read_envelopes is_push list_beq
read_envelopes-one fuel input envelopes items rest h =
    rw (from_instructions-items input (length envelopes) items rest h) refl

read_envelopes-none :
    (fuel input : ℕ) (envelopes : List RawEnvelope)
    → read_envelopes fuel input false envelopes [] ≡ some (envelopes ++ [])
unfolding read_envelopes
read_envelopes-none fuel input envelopes = ap some (sym (append-nil envelopes))

read_envelopes-All :
    (fuel input : ℕ) (envelopes : List RawEnvelope) (es : List (List Item))
    → length es ≤ fuel
    → All (λ (e : List Item). All IsItem e) es
    → read_envelopes fuel input false envelopes (tapscript_of es)
      ≡ some (envelopes ++ envelopes_of input (length envelopes) es)
read_envelopes-All fuel input envelopes [] le h = read_envelopes-none fuel input envelopes
read_envelopes-All zero input envelopes (e ∷ es) le h = absurd (omega (arith, le))
read_envelopes-All (suc fuel) input envelopes (e ∷ es) le h =
    let found = envelopes ++ (envelope_of input (length envelopes) e ∷ []) in
    read_envelopes-one fuel input envelopes e (tapscript_of es) h.0
    ∙ read_envelopes-All fuel input found es (omega (arith, le)) h.1
    ∙ ap some (
        append_assoc envelopes (envelope_of input (length envelopes) e ∷ [])
          (envelopes_of input (length found) es)
        ∙ ap (λ n. envelopes ++ (envelope_of input (length envelopes) e ∷ envelopes_of input n es))
            (length-append envelopes (envelope_of input (length envelopes) e ∷ [])))

length-tapscript_of : (es : List (List Item)) → length es ≤ length (tapscript_of es)
length-tapscript_of [] = omega arith
length-tapscript_of (e ∷ es) =
    omega (arith, length-append (envelope_script e) (tapscript_of es), length-tapscript_of es)

-- Envelopes of pushes and of numbers from 1 to 16, written one after another, are read from a
-- script, each with its place, its payload and the mark of its numbers.
pub from_tapscript-envelopes_of :
    (input : ℕ) (es : List (List Item))
    → All (λ (e : List Item). All IsItem e) es
    → from_tapscript (tapscript_of es) input ≡ some (envelopes_of input 0 es)
unfolding from_tapscript
from_tapscript-envelopes_of input es h =
    read_envelopes-All (length (tapscript_of es)) input [] es (length-tapscript_of es) h
