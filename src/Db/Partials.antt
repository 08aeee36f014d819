-- ===== src/Db/Partials.antt =====
-- `Partials` of src/db/structs.rs, an inscription whose scripts are not all seen, and `Part` of
-- src/inscriptions/structs.rs. What is behind `current_byte` is the argument of the loop, which
-- takes at least five bytes in a turn: as much fuel as there are bytes is enough.
use bel_20_indexer.Prelude.{
  ℕ, zero, suc, ◌+◌, ◌%◌, ◌^◌, ◌<◌, ◌≤◌, ◌≡◌, ◌++◌, refl, arith, Option, none, some, List, [], ◌∷◌,
  length, ◌>>=◌, Bool, ◌==◌, nat_eq, if◌then◌else◌, length-append, ◌∙◌, append_assoc, subst, All,
  ap,
}
use bel_20_indexer.Bytes.{
  to_be, from_be, from_be-to_be, length-to_be, front, rest, array, middle, front-append,
  rest-append, array-eq, middle-append,
}
use bel_20_indexer.Tokens.Types.{Txid}
use bel_20_indexer.Db.Consensus.{Consensus}

pub record Part : Type 0 where
  pub is_tapscript : Bool
  pub script_buffer : List ℕ

pub record Partials : Type 0 where
  pub inscription_index : ℕ
  pub genesis_txid : Txid
  pub parts : List Part

-- A script whose length is a 32-bit number.
abbrev pub FitsPart : Part → Type 0
FitsPart p = length p.script_buffer < 2 ^ 32

unfoldable pub part_bytes : Part → List ℕ
part_bytes p =
    (if p.is_tapscript then 1 else 0) ∷ to_be 4 (length p.script_buffer % 2 ^ 32) ++ p.script_buffer

unfoldable pub parts_bytes : List Part → List ℕ
parts_bytes [] = []
parts_bytes (p ∷ ps) = part_bytes p ++ parts_bytes ps

unfoldable pub read_parts : ℕ → List ℕ → Option (List Part)
read_parts n [] = some []
read_parts zero (b ∷ bs) = none
read_parts (suc n) (b ∷ bs) = do
  a ← front 4 bs
  script_len ← array 4 a
  c ← rest 4 bs
  script_buffer ← front (from_be script_len) c
  d ← rest (from_be script_len) c
  parts ← read_parts n d
  some (record { is_tapscript = b == 1; script_buffer = script_buffer } ∷ parts)

flag_back : (b : Bool) → ◌==◌ {A = ℕ} (if b then 1 else 0) 1 ≡ b
flag_back b = ground arith

-- One turn of the loop on the bytes of one part.
read_part :
    (n : ℕ) (p : Part) (bs : List ℕ)
    → FitsPart p
    → read_parts (suc n) (part_bytes p ++ bs)
      ≡ (read_parts n bs >>= (λ (ps : List Part). some (p ∷ ps)))
unfolding read_parts part_bytes
read_part n p bs h =
    let small : (length p.script_buffer) % 2 ^ 32 ≡ length p.script_buffer = omega (arith, h) in
    rw
      (
        small,
        append_assoc (to_be 4 (length p.script_buffer)) p.script_buffer bs,
        front-append 4 (to_be 4 (length p.script_buffer)) (p.script_buffer ++ bs)
            (length-to_be 4 (length p.script_buffer)),
        array-eq 4 (to_be 4 (length p.script_buffer)) (length-to_be 4 (length p.script_buffer)),
        rest-append 4 (to_be 4 (length p.script_buffer)) (p.script_buffer ++ bs)
            (length-to_be 4 (length p.script_buffer)),
        from_be-to_be 4 (length p.script_buffer) (omega (arith, h)),
        front-append (length p.script_buffer) p.script_buffer bs refl,
        rest-append (length p.script_buffer) p.script_buffer bs refl,
        flag_back p.is_tapscript,
      )
      refl

read_parts-parts_bytes :
    (n : ℕ) (ps : List Part)
    → All FitsPart ps
    → length ps ≤ n
    → read_parts n (parts_bytes ps) ≡ some ps
unfolding parts_bytes
read_parts-parts_bytes n [] h le = unfold read_parts in refl
read_parts-parts_bytes zero (p ∷ ps) h le = absurd (omega (arith, le))
read_parts-parts_bytes (suc n) (p ∷ ps) h le =
    read_part n p (parts_bytes ps) h.0
    ∙ ap (λ (o : Option (List Part)). o >>= (λ (qs : List Part). some (p ∷ qs)))
        (read_parts-parts_bytes n ps h.1 (omega (arith, le)))

-- Every part takes a byte at least.
length-parts_bytes : (ps : List Part) → length ps ≤ length (parts_bytes ps)
unfolding parts_bytes part_bytes
length-parts_bytes [] = omega arith
length-parts_bytes (p ∷ ps) =
    omega (arith, length-append (part_bytes p) (parts_bytes ps), length-parts_bytes ps)

module _ (c : Consensus) where
  open c use {serialize_txid, deserialize_txid, txid_bytes, txid_back}

  unfoldable pub get_bytes : Partials → List ℕ
  get_bytes v =
      to_be 4 v.inscription_index ++ (serialize_txid v.genesis_txid ++ parts_bytes v.parts)

  -- `none` is an error, a panic of a slice or, with less fuel than bytes, its lack.
  unfoldable pub from_bytes : List ℕ → Option Partials
  from_bytes v = do
    a ← front 4 v
    inscription_index ← array 4 a
    b ← middle 4 (32 + 4) v
    genesis_txid ← deserialize_txid b
    d ← rest (32 + 4) v
    parts ← read_parts (length d) d
    some (record {
      inscription_index = from_be inscription_index;
      genesis_txid = genesis_txid;
      parts = parts;
    })

  pub record FitsPartials (v : Partials) : Type 0 where
    pub index_fits : v.inscription_index < 256 ^ 4
    pub txid_fits : v.genesis_txid < 256 ^ 32
    pub parts_fit : All FitsPart v.parts

  length-serialize_txid : (t : Txid) → length (serialize_txid t) ≡ 32
  length-serialize_txid t = rw txid_bytes (length-to_be 32 t)

  -- A partial inscription is read back from its bytes, however many parts it has.
  pub partials_round_trip : (v : Partials) → FitsPartials v → from_bytes (get_bytes v) ≡ some v
  unfolding from_bytes
  partials_round_trip v h = ground (
    arith,
    front_part,
    middle_part,
    rest_part,
    array-eq 4 (to_be 4 v.inscription_index) (length-to_be 4 v.inscription_index),
    txid_back v.genesis_txid h.txid_fits,
    from_be-to_be 4 v.inscription_index h.index_fits,
    read_parts-parts_bytes (length (parts_bytes v.parts)) v.parts h.parts_fit
        (length-parts_bytes v.parts),
  )
    where
      front_part : front 4 (get_bytes v) ≡ some (to_be 4 v.inscription_index)
      front_part =
          unfold get_bytes in
          front-append 4 (to_be 4 v.inscription_index)
            (serialize_txid v.genesis_txid ++ parts_bytes v.parts)
            (length-to_be 4 v.inscription_index)

      middle_part : middle 4 36 (get_bytes v) ≡ some (serialize_txid v.genesis_txid)
      middle_part =
          unfold get_bytes in
          middle-append 4 36 (to_be 4 v.inscription_index) (serialize_txid v.genesis_txid)
            (parts_bytes v.parts) (length-to_be 4 v.inscription_index)
            (omega (arith, length-serialize_txid v.genesis_txid))

      rest_part : rest 36 (get_bytes v) ≡ some (parts_bytes v.parts)
      rest_part =
          unfold get_bytes in
          subst (λ (bs : List ℕ). rest 36 bs ≡ some (parts_bytes v.parts))
            (append_assoc (to_be 4 v.inscription_index) (serialize_txid v.genesis_txid)
              (parts_bytes v.parts))
            (rest-append 36 (to_be 4 v.inscription_index ++ serialize_txid v.genesis_txid)
              (parts_bytes v.parts)
              (omega (
                arith,
                length-append (to_be 4 v.inscription_index) (serialize_txid v.genesis_txid),
                length-to_be 4 v.inscription_index,
                length-serialize_txid v.genesis_txid,
              )))
