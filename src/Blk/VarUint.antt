-- ===== src/Blk/VarUint.antt =====
-- `VarUint` of packages/new-blk-parser/src/blockchain/proto/varuint.rs.
use bel_20_indexer.Prelude.{
  ℕ, ◌^◌, ◌<◌, arith, List, [], ◌∷◌, ◌==◌, nat_eq, ltb, if◌then◌else◌, lt→ltb,
}
use bel_20_indexer.Bytes.{to_le}
use bel_20_indexer.Blk.Reader.{Reader, ◌>>=◌, pure, Reads, bind-Reads, map-Reads, Wire, pure-Reads}

pub record VarUint : Type 0 where
  pub value : ℕ
  pub buf : List ℕ

unfoldable pub from_u8 : ℕ → VarUint
from_u8 value = record { value = value; buf = value ∷ [] }

unfoldable pub from_u16 : ℕ → VarUint
from_u16 value = record { value = value; buf = 253 ∷ to_le 2 value }

unfoldable pub from_u32 : ℕ → VarUint
from_u32 value = record { value = value; buf = 254 ∷ to_le 4 value }

unfoldable pub from_u64 : ℕ → VarUint
from_u64 value = record { value = value; buf = 255 ∷ to_le 8 value }

-- `VarUint::to_bytes`
abbrev pub varuint_bytes : VarUint → List ℕ
varuint_bytes v = v.buf

-- What the four conversions build, the one of a byte below 253.
pub data IsVarUint : VarUint → Type 0 where
  of_u8 : (n : ℕ) → n < 253 → IsVarUint (from_u8 n)
  of_u16 : (n : ℕ) → n < 256 ^ 2 → IsVarUint (from_u16 n)
  of_u32 : (n : ℕ) → n < 256 ^ 4 → IsVarUint (from_u32 n)
  of_u64 : (n : ℕ) → n < 256 ^ 8 → IsVarUint (from_u64 n)

module _ (w : Wire) where
  open w use {read_u8, read_u16, read_u32, read_u64, u8_reads, u16_reads, u32_reads, u64_reads}

  -- The part of the reading behind the first byte.
  abbrev read_behind : ℕ → Reader VarUint
  read_behind first =
      if ltb first 253
      then pure (from_u8 first)
      else if first == 253
      then (do v ← read_u16; pure (from_u16 v))
      else if first == 254
      then (do v ← read_u32; pure (from_u32 v))
      else (do v ← read_u64; pure (from_u64 v))

  unfoldable pub read_from : Reader VarUint
  read_from = do first ← read_u8; read_behind first

  -- Each number that a conversion wrote is read back from its bytes, with its width.
  pub varuint_round_trip : (v : VarUint) → IsVarUint v → Reads (read_from) v (varuint_bytes v)
  unfolding read_from from_u8 from_u16 from_u32 from_u64
  varuint_round_trip _ (of_u8 n h) =
      bind-Reads read_u8 read_behind n (from_u8 n) (n ∷ []) [] (u8_reads n (omega (arith, h)))
        (rw (lt→ltb n 253 h) (pure-Reads (from_u8 n)))
  varuint_round_trip _ (of_u16 n h) =
      bind-Reads read_u8 read_behind 253 (from_u16 n) (253 ∷ []) (to_le 2 n)
        (u8_reads 253 (omega arith)) (map-Reads read_u16 from_u16 n (to_le 2 n) (u16_reads n h))
  varuint_round_trip _ (of_u32 n h) =
      bind-Reads read_u8 read_behind 254 (from_u32 n) (254 ∷ []) (to_le 4 n)
        (u8_reads 254 (omega arith)) (map-Reads read_u32 from_u32 n (to_le 4 n) (u32_reads n h))
  varuint_round_trip _ (of_u64 n h) =
      bind-Reads read_u8 read_behind 255 (from_u64 n) (255 ∷ []) (to_le 8 n)
        (u8_reads 255 (omega arith)) (map-Reads read_u64 from_u64 n (to_le 8 n) (u64_reads n h))
