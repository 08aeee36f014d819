-- ===== src/Inscriptions/Push.antt =====
-- The pushes of an input's script, `decode_push_datas` and `push_data_to_number` of
-- src/inscriptions/structs.rs. A turn of the loop takes a byte at least, so that as much fuel as
-- there are bytes is enough.

use native.Mathlib.Omega.{pow_step}
use bel_20_indexer.Prelude.{
  ℕ, zero, suc, ◌+◌, ◌-◌, ◌*◌, ◌^◌, ◌≤◌, ◌≡◌, refl, arith, ◌&&◌, Option, none, some, List, [], ◌∷◌,
  ◌++◌, length, take, drop, ◌==◌, nat_eq, ltb, leb, if◌then◌else◌, ◌>>=◌, All, ap, ◌∙◌,
  length-append, take-append, drop-append, Bool-cases, inl, inr, leb→le, sym,
}
use bel_20_indexer.Bytes.{from_le}

-- `bytes[k]`, where it is known to be there.
abbrev byte_at : ℕ → List ℕ → ℕ
byte_at k [] = 0
byte_at zero (b ∷ bs) = b
byte_at (suc k) (b ∷ bs) = byte_at k bs

-- A push of `len` bytes behind a head of `k` bytes, if they are there.
unfoldable pub take_push : ℕ → ℕ → List ℕ → Option (List ℕ × List ℕ)
take_push k len bytes =
    if ltb (length bytes) (k + len)
    then none
    else some (take len (drop k bytes), drop (k + len) bytes)

-- A turn of the loop on bytes that are not empty: the data of a push and what is behind it.
unfoldable pub next_push : List ℕ → Option (List ℕ × List ℕ)
next_push bytes =
    let op = byte_at 0 bytes in
    if op == 0
    then some ([], drop 1 bytes)
    else if leb 81 op && leb op 96
    then some ((op - 80) ∷ [], drop 1 bytes)
    else if leb 1 op && leb op 75
    then take_push 1 op bytes
    else if op == 76
    then (if ltb (length bytes) 2 then none else take_push 2 (byte_at 1 bytes) bytes)
    else if op == 77
    then (if ltb (length bytes) 3 then none else take_push 3 (byte_at 1 bytes * 2 ^ 8 + op) bytes)
    else if op == 78
    then (if ltb (length bytes) 5
        then none
        else take_push 5
            (byte_at 3 bytes * 2 ^ 24 + byte_at 2 bytes * 2 ^ 16 + byte_at 1 bytes * 2 ^ 8 + op)
            bytes)
    else none

unfoldable pub decode_from : ℕ → List ℕ → Option (List (List ℕ))
decode_from n [] = some []
decode_from zero (b ∷ bs) = none
decode_from (suc n) (b ∷ bs) = do
  p ← next_push (b ∷ bs)
  push_datas ← decode_from n p.1
  some (p.0 ∷ push_datas)

unfoldable pub decode_push_datas : List ℕ → Option (List (List ℕ))
decode_push_datas bytes = decode_from (length bytes) bytes

-- `n += (*i as u64) << m`, where `m` grows by 8
unfoldable pub number_from : ℕ → ℕ → List ℕ → ℕ
number_from n m [] = n
number_from n m (i ∷ data') = number_from (n + i * 2 ^ m) (m + 8) data'

unfoldable pub push_data_to_number : List ℕ → Option ℕ
push_data_to_number [] = some 0
push_data_to_number (b ∷ bs) =
    if ltb 8 (length (b ∷ bs)) then none else some (number_from 0 0 (b ∷ bs))

-- The push of up to 255 bytes that scripts use: none at all, a length, or OP_PUSHDATA1.
abbrev pub push_bytes : List ℕ → List ℕ
push_bytes [] = 0 ∷ []
push_bytes (d ∷ ds) =
    if leb (length (d ∷ ds)) 75 then length (d ∷ ds) ∷ d ∷ ds else 76 ∷ length (d ∷ ds) ∷ d ∷ ds

abbrev pub script_of : List (List ℕ) → List ℕ
script_of [] = []
script_of (d ∷ ds) = push_bytes d ++ script_of ds

next_push-small :
    (d rest : List ℕ)
    → 1 ≤ length d
    → length d ≤ 75
    → next_push (length d ∷ d ++ rest) ≡ some (d, rest)
unfolding next_push take_push
next_push-small d rest some_byte short =
    ground (arith, length-append d rest, take-append d rest, drop-append d rest)

next_push-pushdata1 : (d rest : List ℕ) → next_push (76 ∷ length d ∷ d ++ rest) ≡ some (d, rest)
unfolding next_push take_push
next_push-pushdata1 d rest =
    ground (arith, length-append d rest, take-append d rest, drop-append d rest)

next_push-push_bytes :
    (d rest : List ℕ) → length d ≤ 255 → next_push (push_bytes d ++ rest) ≡ some (d, rest)
next_push-push_bytes [] rest h = unfold next_push in refl
next_push-push_bytes (b ∷ bs) rest h = elim (Bool-cases (leb (length (b ∷ bs)) 75)) [
  | inl small ↦
      rw small (next_push-small (b ∷ bs) rest (omega arith) (leb→le (length (b ∷ bs)) 75 small))
  | inr big ↦ rw big (next_push-pushdata1 (b ∷ bs) rest)
]

decode_from-head :
    (n : ℕ) (bytes d rest : List ℕ) (ds : List (List ℕ))
    → 1 ≤ length bytes
    → next_push bytes ≡ some (d, rest)
    → decode_from n rest ≡ some ds
    → decode_from (suc n) bytes ≡ some (d ∷ ds)
unfolding decode_from
decode_from-head n [] d rest ds some_byte e later = absurd (omega (arith, some_byte))
decode_from-head n (b ∷ bs) d rest ds some_byte e later = rw (e, later) refl

length-push_bytes : (d : List ℕ) → 1 ≤ length (push_bytes d)
length-push_bytes [] = omega arith
length-push_bytes (b ∷ bs) = ground arith

decode_from-turn :
    (n : ℕ) (d rest : List ℕ) (ds : List (List ℕ))
    → length d ≤ 255
    → decode_from n rest ≡ some ds
    → decode_from (suc n) (push_bytes d ++ rest) ≡ some (d ∷ ds)
decode_from-turn n d rest ds h later =
    decode_from-head n (push_bytes d ++ rest) d rest ds
      (omega (arith, length-append (push_bytes d) rest, length-push_bytes d))
      (next_push-push_bytes d rest h) later

decode_from-script_of :
    (n : ℕ) (ds : List (List ℕ))
    → All (λ d. length d ≤ 255) ds
    → length ds ≤ n
    → decode_from n (script_of ds) ≡ some ds
decode_from-script_of n [] h le = unfold decode_from in refl
decode_from-script_of zero (d ∷ ds) h le = absurd (omega (arith, le))
decode_from-script_of (suc n) (d ∷ ds) h le =
    decode_from-turn n d (script_of ds) ds h.0 (decode_from-script_of n ds h.1 (omega (arith, le)))

length-script_of : (ds : List (List ℕ)) → length ds ≤ length (script_of ds)
length-script_of [] = omega arith
length-script_of (d ∷ ds) =
    omega
      (arith, length-append (push_bytes d) (script_of ds), length-push_bytes d, length-script_of ds)

-- A script of pushes of up to 255 bytes each, in the usual encoding, is decoded into their data,
-- however many they are.
pub decode_push_datas-script_of :
    (ds : List (List ℕ)) → All (λ d. length d ≤ 255) ds → decode_push_datas (script_of ds) ≡ some ds
unfolding decode_push_datas
decode_push_datas-script_of ds h =
    decode_from-script_of (length (script_of ds)) ds h (length-script_of ds)

pow_shift : (m : ℕ) → 2 ^ (m + 8) ≡ 256 * 2 ^ m
pow_shift zero = omega arith
pow_shift (suc m) =
    ap (λ (k : ℕ). 2 ^ k) (inner m)
    ∙ pow_step 2 (m + 8)
    ∙ ap (λ (q : ℕ). 2 * q) (pow_shift m)
    ∙ outer (2 ^ m)
    ∙ ap (λ (q : ℕ). 256 * q) (sym (pow_step 2 m))
  where
    inner : (m : ℕ) → suc m + 8 ≡ suc (m + 8)
    inner m = omega arith

    outer : (p : ℕ) → 2 * (256 * p) ≡ 256 * (2 * p)
    outer p = omega arith

product : (n i p r : ℕ) → n + i * p + 256 * p * r ≡ n + p * (i + 256 * r)
product n i p r = grind arith

number_from-from_le : (n m : ℕ) (data' : List ℕ) → number_from n m data' ≡ n + 2 ^ m * from_le data'
unfolding number_from from_le
number_from-from_le n m [] = omega arith
number_from-from_le n m (i ∷ data') =
    number_from-from_le (n + i * 2 ^ m) (m + 8) data'
    ∙ ap (λ (q : ℕ). n + i * 2 ^ m + q * from_le data') (pow_shift m)
    ∙ product n i (2 ^ m) (from_le data')

-- Up to eight bytes are read as the number that they are, the least significant first.
pub push_data_to_number-from_le :
    (data' : List ℕ) → length data' ≤ 8 → push_data_to_number data' ≡ some (from_le data')
unfolding push_data_to_number
push_data_to_number-from_le [] h = unfold from_le in refl
push_data_to_number-from_le (b ∷ bs) h = ground (arith, number_from-from_le 0 0 (b ∷ bs))
