-- ===== src/Inscriptions/Envelope.antt =====
-- The envelopes of a tapscript, `RawEnvelope` of src/inscriptions/envelope.rs. The instructions of
-- a script are read by the crate bellscoin: here a script is the list of what its iterator yields,
-- in which `none` is an error. A turn of the loop takes one of them at least, so that as much fuel
-- as there are instructions is enough.
use bel_20_indexer.Prelude.{
  ℕ, zero, suc, ◌-◌, Option, none, some, List, [], ◌∷◌, ◌++◌, Bool, true, false, ◌&&◌, ◌==◌, nat_eq,
  list_eq, leb, if◌then◌else◌, length,
}

pub data Instruction : Type 0 where
  push_bytes : List ℕ → Instruction
  op : ℕ → Instruction

abbrev pub Instructions : Type 0
Instructions = List (Option Instruction)

pub record RawEnvelope : Type 0 where
  pub input : ℕ
  pub offset : ℕ
  pub payload : List (List ℕ)
  pub pushnum : Bool
  pub stutter : Bool

-- The bytes of "ord"
abbrev pub protocol_id : List ℕ
protocol_id = 111 ∷ (114 ∷ (100 ∷ []))

abbrev pub op_if : ℕ
op_if = 99

abbrev pub op_endif : ℕ
op_endif = 104

unfoldable pub is_push : List ℕ → Option Instruction → Bool
is_push bytes (some (push_bytes push)) = push == bytes
is_push bytes _ = false

unfoldable pub is_op : ℕ → Option Instruction → Bool
is_op code (some (op c)) = c == code
is_op code _ = false

-- `instructions.peek() == Some(&Ok(PushBytes(bytes)))`
unfoldable pub peeks_push : List ℕ → Instructions → Bool
unfolding is_push
peeks_push bytes [] = false
peeks_push bytes (i ∷ is) = is_push bytes i

unfoldable pub peeks_op : ℕ → Instructions → Bool
unfolding is_op
peeks_op code [] = false
peeks_op code (i ∷ is) = is_op code i

abbrev pub tail : Instructions → Instructions
tail [] = []
tail (i ∷ is) = is

-- What an instruction adds to a payload: a push its bytes, an OP_PUSHNUM its number.
unfoldable pub pushed_number : ℕ → Option (List ℕ)
pushed_number code =
    if code == 79
    then some (129 ∷ [])
    else if leb 81 code && leb code 96
    then some ((code - 80) ∷ [])
    else none

-- How the loop over the payload ends: with an error, with OP_ENDIF, or without an envelope; what is
-- behind is left of the script.
pub data PayloadEnd : Type 0 where
  failed : PayloadEnd
  closed : (payload : List (List ℕ)) (pushnum : Bool) (rest : Instructions) → PayloadEnd
  open_end : (rest : Instructions) → PayloadEnd

unfoldable pub read_payload : List (List ℕ) → Bool → Instructions → PayloadEnd
read_payload payload pushnum [] = open_end []
read_payload payload pushnum (none ∷ is) = failed
read_payload payload pushnum (some (push_bytes push) ∷ is) =
    read_payload (payload ++ (push ∷ [])) pushnum is
read_payload payload pushnum (some (op code) ∷ is) =
    let next = λ (n : List ℕ). read_payload (payload ++ (n ∷ [])) true is in
    if code == op_endif
    then closed payload pushnum is
    else elim (pushed_number code) [ none ↦ open_end is | some n ↦ next n ]

-- `from_instructions`: the flag of a stutter, the envelope and what is left of the script; an error
-- is `none`.
unfoldable pub from_instructions :
    ℕ → ℕ → Bool → Instructions → Option (Bool × Option RawEnvelope × Instructions)
unfolding peeks_op peeks_push
from_instructions input offset stutter is =
    if peeks_op op_if is
    then (if peeks_push protocol_id (tail is)
        then elim (read_payload [] false (tail (tail is))) [
          | failed ↦ none
          | open_end rest ↦ some (false, none, rest)
          | closed payload pushnum rest ↦ some (
            false,
            some (record {
              input = input;
              offset = offset;
              payload = payload;
              pushnum = pushnum;
              stutter = stutter;
            }),
            rest,
          )
        ]
        else some (peeks_push [] (tail is), none, tail is))
    else some (peeks_push [] is, none, is)

-- The loop of `from_tapscript` behind `envelopes`.
unfoldable pub read_envelopes :
    ℕ → ℕ → Bool → List RawEnvelope → Instructions → Option (List RawEnvelope)
read_envelopes fuel input stuttered envelopes [] = some envelopes
read_envelopes zero input stuttered envelopes (i ∷ is) = none
read_envelopes (suc fuel) input stuttered envelopes (none ∷ is) = none
read_envelopes (suc fuel) input stuttered envelopes (some i ∷ is) =
    let skipped = read_envelopes fuel input stuttered envelopes is in
    let behind = λ (stutter : Bool) (found : List RawEnvelope) (rest : Instructions).
      read_envelopes fuel input stutter found rest in
    if is_push [] (some i)
    then elim (from_instructions input (length envelopes) stuttered is) [
      | none ↦ none
      | some r ↦ elim r.1 [
        | none ↦ behind r.0 envelopes r.2
        | some envelope ↦ behind stuttered (envelopes ++ (envelope ∷ [])) r.2
      ]
    ]
    else skipped

unfoldable pub from_tapscript : Instructions → ℕ → Option (List RawEnvelope)
unfolding read_envelopes
from_tapscript tapscript input = read_envelopes (length tapscript) input false [] tapscript
