-- ===== src/Inscriptions/Tests.antt =====
-- Concrete scripts and outputs for the theorems of src/inscriptions.

use bel_20_indexer.Inscriptions.Pieces.{Pieces, result, parse-Follow}
use bel_20_indexer.Inscriptions.Parse.{parse}
use bel_20_indexer.Inscriptions.Fields.{Pairs, pushes_of, HasFields, from_payload-HasFields}
use bel_20_indexer.Inscriptions.Parsed.{from_payload}
use bel_20_indexer.Inscriptions.EnvelopeTrip.{
  Item, bytes, number, tapscript_of, envelopes_of, from_tapscript-envelopes_of,
}
use bel_20_indexer.Inscriptions.Envelope.{from_tapscript, protocol_id}
use bel_20_indexer.Inscriptions.LeakedPlace.{
  IsLeaked, add_leaked-place, find_inscription_vout-finds,
}
use bel_20_indexer.Inscriptions.Leaked.{
  LeakedInscriptions, move, add_tx_fee, add_leaked, push_leaked, find_inscription_vout,
  update_reward,
}
use bel_20_indexer.Inscriptions.Offsets.{calc_offsets, calc_offsets-starts, before, input_values}
use bel_20_indexer.Db.TxPrevout.{TxPrevout}
use bel_20_indexer.Tokens.Types.{OutPoint}
use bel_20_indexer.Map.{Map, lookup}
use bel_20_indexer.Prelude.{
  ℕ, ◌≡◌, refl, arith, some, List, [], ◌∷◌, Returns, none, ◌++◌, ◌>>=◌, list_beq,
}
use bel_20_indexer.Bytes.{from_le}
use bel_20_indexer.Inscriptions.Push.{
  decode_push_datas, script_of, decode_push_datas-script_of, push_data_to_number,
  push_data_to_number-from_le, decode_from, next_push, take_push, number_from,
}
use bel_20_indexer.Inscriptions.Searcher.{
  get_output_index_by_input, get_output_index_by_input-finds, Holds, position, sum,
}

abbrev sample_pushes : List (List ℕ)
sample_pushes = (111 ∷ 114 ∷ 100 ∷ []) ∷ (1 ∷ []) ∷ [] ∷ []

decode_push_datas-script_of_example :
    decode_push_datas (script_of sample_pushes) ≡ some sample_pushes
decode_push_datas-script_of_example =
    decode_push_datas-script_of sample_pushes (omega arith, (omega arith, (omega arith, tt)))

push_data_to_number-from_le_example :
    push_data_to_number (44 ∷ 1 ∷ []) ≡ some (from_le (44 ∷ 1 ∷ []))
push_data_to_number-from_le_example = push_data_to_number-from_le (44 ∷ 1 ∷ []) (omega arith)

get_output_index_by_input-finds_example :
    Returns
      (get_output_index_by_input (some 700) (500 ∷ 300 ∷ []))
      (λ p. Holds (500 ∷ 300 ∷ []) p.0 p.1 × (position (500 ∷ 300 ∷ []) p.0 p.1 ≡ 700))
unfolding sum
get_output_index_by_input-finds_example =
    get_output_index_by_input-finds 700 (500 ∷ 300 ∷ []) (omega arith)

-- OP_PUSHDATA2 of no bytes is refused: its length is taken from the operator's own byte, 77.
empty_pushdata2 : decode_push_datas (77 ∷ 0 ∷ 0 ∷ []) ≡ none
unfolding decode_push_datas decode_from next_push take_push
empty_pushdata2 = refl

-- Two spent outputs of 30 and 20, and an output of 35 with a fee of 15.
abbrev spent : Map OutPoint TxPrevout
spent =
    (record { txid = 1; vout = 0 }, record { script_hash = 7; value = 30 })
    ∷ ((record { txid = 2; vout = 0 }, record { script_hash = 8; value = 20 }) ∷ [])

abbrev two_inputs : List OutPoint
two_inputs = record { txid = 1; vout = 0 } ∷ (record { txid = 2; vout = 0 } ∷ [])

calc_offsets-starts_example :
    calc_offsets two_inputs (35 ∷ []) spent ≡ some (before 35 (0 ∷ (30 ∷ [])))
unfolding input_values lookup sum
calc_offsets-starts_example =
    calc_offsets-starts two_inputs (35 ∷ []) spent (30 ∷ (20 ∷ [])) refl (ground arith)
      (ground arith)

-- The coinbase transaction has 50 beyond a fee of 10 that is there before.
abbrev fees : LeakedInscriptions
fees = record {
  inscriptions = [];
  total_amount = 10;
  coinbase_txid = 9;
  coinbase_outputs = 45 ∷ (15 ∷ []);
  coinbase_reward = none;
}

fees-IsLeaked : IsLeaked two_inputs (35 ∷ []) spent (30 ∷ (20 ∷ [])) 1 8 20
unfolding input_values lookup sum
fees-IsLeaked = record {
  known = refl;
  fits = ground arith;
  covered = ground arith;
  is_value = refl;
  in_input = ground arith;
  behind = ground arith;
}

add_leaked-place_example :
    (add_tx_fee two_inputs (35 ∷ []) spent fees >>= add_leaked 1 two_inputs (35 ∷ []) 8 spent move)
    ≡ some (record fees { total_amount = 25; inscriptions = push_leaked 13 move [] })
unfolding sum
add_leaked-place_example =
    add_leaked-place two_inputs (35 ∷ []) spent (30 ∷ (20 ∷ [])) 1 8 20 fees-IsLeaked fees move
      (ground arith)

find_inscription_vout-finds_example :
    Returns
      (find_inscription_vout 3 (update_reward fees))
      (λ p. Holds fees.coinbase_outputs p.0 p.1 × (position fees.coinbase_outputs p.0 p.1 ≡ 53))
unfolding sum
find_inscription_vout-finds_example =
    find_inscription_vout-finds fees 3 (ground arith) (ground arith) (ground arith)

-- An envelope with a content type and a body, and one with a number.
abbrev two_envelopes : List (List Item)
two_envelopes =
    (bytes (1 ∷ []) ∷ (bytes (116 ∷ []) ∷ (bytes [] ∷ (bytes (5 ∷ []) ∷ []))))
    ∷ ((number 3 ∷ []) ∷ [])

from_tapscript-envelopes_of_example :
    from_tapscript (tapscript_of two_envelopes) 4 ≡ some (envelopes_of 4 0 two_envelopes)
from_tapscript-envelopes_of_example =
    from_tapscript-envelopes_of 4 two_envelopes
      ((tt, (tt, (tt, (tt, tt)))), (((ground arith, ground arith), tt), tt))

abbrev some_fields : Pairs
some_fields = ((1 ∷ []), (116 ∷ [])) ∷ (((2 ∷ []), (9 ∷ [])) ∷ [])

from_payload-HasFields_example :
    HasFields some_fields
      ((5 ∷ []) ∷ ((6 ∷ []) ∷ []))
      (from_payload (pushes_of some_fields ++ ([] ∷ ((5 ∷ []) ∷ ((6 ∷ []) ∷ [])))))
unfolding list_beq
from_payload-HasFields_example =
    from_payload-HasFields some_fields ((5 ∷ []) ∷ ((6 ∷ []) ∷ [])) (refl, (refl, tt))

-- Two pieces, each in a script.
abbrev first_piece : Pieces
first_piece = ((1 ∷ []), (104 ∷ [])) ∷ []

abbrev last_piece : Pieces
last_piece = ([], (105 ∷ [])) ∷ []

abbrev first_script : List ℕ
first_script = script_of (protocol_id ∷ ((2 ∷ []) ∷ ((116 ∷ []) ∷ ((1 ∷ []) ∷ ((104 ∷ []) ∷ [])))))

abbrev last_script : List ℕ
last_script = script_of ([] ∷ ((105 ∷ []) ∷ []))

parse-Follow_example :
    parse (first_script ∷ (last_script ∷ [])) ≡ some (result (116 ∷ []) 0 (104 ∷ (105 ∷ [])))
unfolding push_data_to_number number_from
parse-Follow_example =
    parse-Follow (2 ∷ []) (116 ∷ []) first_script 1 first_piece (last_script ∷ []) (last_piece ∷ [])
      (decode_push_datas-script_of
        (protocol_id ∷ ((2 ∷ []) ∷ ((116 ∷ []) ∷ ((1 ∷ []) ∷ ((104 ∷ []) ∷ [])))))
        (ground arith, (ground arith, (ground arith, (ground arith, (ground arith, tt))))))
      refl (refl, tt)
      (
        (decode_push_datas-script_of ([] ∷ ((105 ∷ []) ∷ [])) (ground arith, (ground arith, tt))),
        ground arith,
        (refl, tt),
        tt,
      )
