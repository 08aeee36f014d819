-- ===== src/Bytes.antt =====
-- Bytes of the two orders: `to_le_bytes`, `to_be_bytes` and their inverses of Rust's integers, the
-- slices and arrays that the decoders take, and the order of byte strings that the storage sorts by.
use bel_20_indexer.Prelude.{
  ℕ, zero, suc, ◌+◌, ◌*◌, ◌/◌, ◌%◌, ◌^◌, ◌<◌, ◌≡◌, refl, sym, ◌∙◌, arith, Bool, true, false, ◌&&◌,
  ◌||◌, Option, none, some, List, [], ◌∷◌, ◌++◌, ◌==◌, nat_eq, list_eq, list_beq, list_beq_iff, ltb,
  if◌then◌else◌, leb, length, take, drop, length-append, take-append, drop-append, ◌-◌,
}

-- The `w` lowest bytes of a number, the least significant first.
unfoldable pub to_le : ℕ → ℕ → List ℕ
to_le zero n = []
to_le (suc w) n = n % 256 ∷ to_le w (n / 256)

unfoldable pub from_le : List ℕ → ℕ
from_le [] = 0
from_le (b ∷ bs) = b + 256 * from_le bs

pub from_le-to_le : (w n : ℕ) → n < 256 ^ w → from_le (to_le w n) ≡ n
unfolding from_le to_le
from_le-to_le zero n h = omega arith
from_le-to_le (suc w) n h = omega (arith, from_le-to_le w (n / 256) (omega (arith, h)))

pub length-to_le : (w n : ℕ) → length (to_le w n) ≡ w
unfolding to_le
length-to_le zero n = refl
length-to_le (suc w) n = omega (arith, length-to_le w (n / 256))

-- The same, the most significant first.
unfoldable pub to_be : ℕ → ℕ → List ℕ
to_be zero n = []
to_be (suc w) n = to_be w (n / 256) ++ n % 256 ∷ []

unfoldable pub from_be_onto : ℕ → List ℕ → ℕ
from_be_onto acc [] = acc
from_be_onto acc (b ∷ bs) = from_be_onto (acc * 256 + b) bs

unfoldable pub from_be : List ℕ → ℕ
from_be bs = from_be_onto 0 bs

from_be_onto-snoc :
    (acc : ℕ) (bs : List ℕ) (b : ℕ)
    → from_be_onto acc (bs ++ b ∷ []) ≡ from_be_onto acc bs * 256 + b
unfolding from_be_onto
from_be_onto-snoc acc [] b = refl
from_be_onto-snoc acc (c ∷ bs) b = from_be_onto-snoc (acc * 256 + c) bs b

pub from_be-to_be : (w n : ℕ) → n < 256 ^ w → from_be (to_be w n) ≡ n
unfolding from_be to_be from_be_onto
from_be-to_be zero n h = omega arith
from_be-to_be (suc w) n h =
    from_be_onto-snoc 0 (to_be w (n / 256)) (n % 256)
    ∙ omega (arith, from_be-to_be w (n / 256) (omega (arith, h)))

pub length-to_be : (w n : ℕ) → length (to_be w n) ≡ w
unfolding to_be
length-to_be zero n = refl
length-to_be (suc w) n =
    omega (arith, length-append (to_be w (n / 256)) (n % 256 ∷ []), length-to_be w (n / 256))

-- Byte strings compared from the front.
unfoldable pub bytes_lt : List ℕ → List ℕ → Bool
bytes_lt xs [] = false
bytes_lt [] (y ∷ ys) = true
bytes_lt (x ∷ xs) (y ∷ ys) = ltb x y || x == y && bytes_lt xs ys

pub bytes_lt-append :
    (xs ys us vs : List ℕ)
    → length xs ≡ length ys
    → bytes_lt (xs ++ us) (ys ++ vs) ≡ (bytes_lt xs ys || xs == ys && bytes_lt us vs)
unfolding bytes_lt list_beq
bytes_lt-append [] [] us vs e = refl
bytes_lt-append [] (y ∷ ys) us vs e = absurd (omega (arith, e))
bytes_lt-append (x ∷ xs) [] us vs e = absurd (omega (arith, e))
bytes_lt-append (x ∷ xs) (y ∷ ys) us vs e =
    ground (arith, bytes_lt-append xs ys us vs (omega (arith, e)))

pub eq-to_be : (w a b : ℕ) → a < 256 ^ w → b < 256 ^ w → (to_be w a == to_be w b) ≡ (a == b)
eq-to_be w a b ha hb =
    ground (arith, list_beq_iff (to_be w a) (to_be w b), from_be-to_be w a ha, from_be-to_be w b hb)

last_lt : (x y : ℕ) → bytes_lt (x ∷ []) (y ∷ []) ≡ ltb x y
unfolding bytes_lt
last_lt x y = ground arith

none_lt : bytes_lt [] [] ≡ false
unfolding bytes_lt
none_lt = refl

-- Numbers of one width are ordered as their bytes, the most significant first.
pub bytes_lt-to_be :
    (w a b : ℕ) → a < 256 ^ w → b < 256 ^ w → bytes_lt (to_be w a) (to_be w b) ≡ ltb a b
unfolding to_be
bytes_lt-to_be zero a b ha hb = ground (arith, none_lt)
bytes_lt-to_be (suc w) a b ha hb =
    let ha' : a / 256 < 256 ^ w = omega (arith, ha) in
    let hb' : b / 256 < 256 ^ w = omega (arith, hb) in
    bytes_lt-append (to_be w (a / 256)) (to_be w (b / 256)) (a % 256 ∷ []) (b % 256 ∷ [])
      (length-to_be w (a / 256) ∙ sym (length-to_be w (b / 256)))
    ∙ ground (
      arith,
      last_lt (a % 256) (b % 256),
      bytes_lt-to_be w (a / 256) (b / 256) ha' hb',
      eq-to_be w (a / 256) (b / 256) ha' hb',
    )

-- `v[..n]` and `v[n..]`, which panic on fewer bytes, and `try_into` of an array of `n` bytes
unfoldable pub front : ℕ → List ℕ → Option (List ℕ)
front n v = if leb n (length v) then some (take n v) else none

unfoldable pub rest : ℕ → List ℕ → Option (List ℕ)
rest n v = if leb n (length v) then some (drop n v) else none

unfoldable pub array : ℕ → List ℕ → Option (List ℕ)
array n v = if length v == n then some v else none

pub front-append : (n : ℕ) (xs ys : List ℕ) → length xs ≡ n → front n (xs ++ ys) ≡ some xs
unfolding front
front-append n xs ys e = rw (← e) (ground (arith, length-append xs ys, take-append xs ys))

pub rest-append : (n : ℕ) (xs ys : List ℕ) → length xs ≡ n → rest n (xs ++ ys) ≡ some ys
unfolding rest
rest-append n xs ys e = rw (← e) (ground (arith, length-append xs ys, drop-append xs ys))

pub array-eq : (n : ℕ) (xs : List ℕ) → length xs ≡ n → array n xs ≡ some xs
unfolding array
array-eq n xs e = ground arith

-- `v[a..b]`, which panics where `a` is past `b` or `b` past the end
unfoldable pub middle : ℕ → ℕ → List ℕ → Option (List ℕ)
middle a b v = if leb a b && leb b (length v) then some (take (b - a) (drop a v)) else none

pub middle-append :
    (a b : ℕ) (xs ys zs : List ℕ)
    → length xs ≡ a
    → a + length ys ≡ b
    → middle a b (xs ++ (ys ++ zs)) ≡ some ys
unfolding middle
middle-append a b xs ys zs e f =
    let cancel : length xs + length ys - length xs ≡ length ys = omega arith in
    rw (← f, ← e, length-append, length-append, drop-append, cancel, take-append) (ground arith)

-- Of two byte strings of which neither is before the other, each is the other.
pub bytes_lt-total : (xs ys : List ℕ) → bytes_lt xs ys ≡ false → bytes_lt ys xs ≡ false → xs ≡ ys
unfolding bytes_lt
bytes_lt-total [] [] h h' = refl
bytes_lt-total [] (y ∷ ys) h h' = cc
bytes_lt-total (x ∷ xs) [] h h' = cc
bytes_lt-total (x ∷ xs) (y ∷ ys) h h' = ground (arith, bytes_lt-total xs ys)

pub bytes_lt_irrefl : (xs : List ℕ) → bytes_lt xs xs ≡ false
unfolding bytes_lt
bytes_lt_irrefl [] = refl
bytes_lt_irrefl (x ∷ xs) = ground (arith, bytes_lt_irrefl xs)
