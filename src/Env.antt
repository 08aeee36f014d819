-- ===== src/Env.antt =====
-- What the indexer takes from outside this repository: the fixed-point decimals of the crate
-- `nintypes` (`Fixed128<18>`, named `Fixed128` in src/main.rs) and values that are fixed at start.
use bel_20_indexer.Prelude.{ℕ, ◌+◌, ◌-◌, ◌*◌, ◌^◌, ◌≤◌, ◌≡◌, List}

-- The units, of 10^-18 each, in the largest 64-bit number of whole tokens.
abbrev pub max_units : ℕ
max_units = (2 ^ 64 - 1) * 10 ^ 18

-- A decimal is known by its number of units. Sums are exact at least up to 2 * `max_units`, which
-- 128 bits hold, and differences where they are not negative.
pub record Env : Type 1 where
  pub Fixed128 : Type 0
  pub units : Fixed128 → ℕ
  pub zero_amount : Fixed128
  pub add : Fixed128 → Fixed128 → Fixed128
  pub sub : Fixed128 → Fixed128 → Fixed128
  pub scale : Fixed128 → ℕ
  pub units-inj : (a b : Fixed128) → units a ≡ units b → a ≡ b
  pub units-zero_amount : units zero_amount ≡ 0
  pub units-add :
      (a b : Fixed128)
      → units a ≤ max_units
      → units b ≤ max_units
      → units (add a b) ≡ units a + units b
  pub units-sub : (a b : Fixed128) → units b ≤ units a → units (sub a b) ≡ units a - units b
  -- `LowerCaseTokenTick::from`: the lossy decoding and the Unicode lower case of four bytes.
  pub to_lower : ℕ → List ℕ
  -- `*OP_RETURN_HASH`, the hash of the text "BURNED".
  pub op_return_hash : ℕ
