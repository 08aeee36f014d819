-- ===== src/Blk/Reader.antt =====
-- Readers of bytes, packages/new-blk-parser/src/blockchain/parser/reader.rs: a reader takes what is
-- left of the input and returns a value and what is left then, or `none` for an error.
use bel_20_indexer.Prelude.{
  ℕ, ◌^◌, ◌<◌, ◌≡◌, refl, arith, Option, none, some, List, [], ◌∷◌, ◌++◌, leb, if◌then◌else◌,
  length, take, drop, append_assoc, length-append, take-append, drop-append, ◌∙◌, ap,
}
use bel_20_indexer.Bytes.{to_le}

abbrev pub Reader : Type 0 → Type 0
Reader A = List ℕ → Option (A × List ℕ)

abbrev pub go_on : {A B : Type 0} → Option (A × List ℕ) → (A → Reader B) → Option (B × List ℕ)
go_on none f = none
go_on (some p) f = f p.0 p.1

infixl 5 ◌>>=◌
abbrev pub ◌>>=◌ : {A B : Type 0} → Reader A → (A → Reader B) → Reader B
m >>= f = λ bs. go_on (m bs) f

abbrev pub pure : {A : Type 0} → A → Reader A
pure a = λ bs. some (a, bs)

-- `read_exact` on a buffer of `n` bytes
unfoldable pub read_exact : ℕ → Reader (List ℕ)
read_exact n bs = if leb n (length bs) then some (take n bs, drop n bs) else none

-- The reader takes exactly the bytes `xs`, whatever follows, and returns `a`.
pub record Reads {A : Type 0} (r : Reader A) (a : A) (xs : List ℕ) : Type 0 where
  pub reads : (rest : List ℕ) → r (xs ++ rest) ≡ some (a, rest)

module _ {A B : Type 0} where
  pub bind-Reads :
      (m : Reader A) (f : A → Reader B) (a : A) (b : B) (xs ys : List ℕ)
      → Reads m a xs
      → Reads (f a) b ys
      → Reads (m >>= f) b (xs ++ ys)
  bind-Reads m f a b xs ys h k = record {
    reads = λ rest.
        ap (λ bs. go_on (m bs) f) (append_assoc xs ys rest)
        ∙ ap (λ o. go_on o f) (h.reads (ys ++ rest))
        ∙ k.reads rest;
  }

  -- A last step that reads nothing.
  pub map-Reads :
      (m : Reader A) (f : A → B) (a : A) (xs : List ℕ)
      → Reads m a xs
      → Reads (m >>= (λ (x : A). pure (f x))) (f a) xs
  map-Reads m f a xs h = record {
    reads = λ rest. ap (λ o. go_on o (λ (x : A). pure (f x))) (h.reads rest);
  }

pub pure-Reads : {A : Type 0} (a : A) → Reads (pure a) a []
pure-Reads a = record { reads = λ rest. refl }

pub read_exact-Reads : (n : ℕ) (xs : List ℕ) → length xs ≡ n → Reads (read_exact n) xs xs
unfolding read_exact
read_exact-Reads n xs e = record {
  reads = λ rest.
      rw (← e, length-append xs rest, take-append xs rest, drop-append xs rest) (ground arith);
}

-- What the reader calls outside this repository: the integers of the crate `byteorder`, the
-- witnesses of the crate `bellscoin`.
pub record Wire : Type 1 where
  pub read_u8 : Reader ℕ
  pub read_u16 : Reader ℕ
  pub read_u32 : Reader ℕ
  pub read_u64 : Reader ℕ
  pub Witness : Type 0
  pub default_witness : Witness
  pub consensus_decode : Reader Witness
  pub encode_witness : Witness → List ℕ
  pub u8_reads : (n : ℕ) → n < 256 → Reads read_u8 n (n ∷ [])
  pub u16_reads : (n : ℕ) → n < 256 ^ 2 → Reads read_u16 n (to_le 2 n)
  pub u32_reads : (n : ℕ) → n < 256 ^ 4 → Reads read_u32 n (to_le 4 n)
  pub u64_reads : (n : ℕ) → n < 256 ^ 8 → Reads read_u64 n (to_le 8 n)
  pub witness_reads : (x : Witness) → Reads consensus_decode x (encode_witness x)
