-- ===== src/Blk/CheckPoint.antt =====
-- `CheckPoint` of packages/new-blk-parser/src/blockchain/checkpoint.rs, a list of blocks with the
-- latest in front. The reference counts of its nodes have no part in what it does.
use bel_20_indexer.Prelude.{ℕ, Option, none, some, List, [], ◌∷◌, ◌==◌, nat_eq, ltb, if◌then◌else◌}

-- `BlockId` of packages/new-blk-parser/src/blockchain/block_id.rs
pub record BlockId : Type 0 where
  pub height : ℕ
  pub hash : ℕ

pub record CheckPoint : Type 0 where
  pub block : BlockId
  pub prev : List BlockId

pub data Pushed (E : Type 0) : Type 0 where
  ok : CheckPoint → Pushed E
  err : E → Pushed E

-- `CheckPoint::new`
unfoldable pub new : BlockId → CheckPoint
new block = record { block = block; prev = [] }

-- The list that `iter` walks.
abbrev pub blocks : CheckPoint → List BlockId
blocks cp = cp.block ∷ cp.prev

unfoldable pub push : CheckPoint → BlockId → Pushed CheckPoint
push cp block =
    if ltb cp.block.height block.height
    then ok (record { block = block; prev = cp.block ∷ cp.prev })
    else err cp

-- The loop of `extend`, whose errors return where it began.
unfoldable pub extend_from : CheckPoint → CheckPoint → List BlockId → Pushed CheckPoint
extend_from start curr [] = ok curr
extend_from start curr (block ∷ rest) = elim (push curr block) [
  | ok next ↦ extend_from start next rest
  | err e ↦ err start
]

unfoldable pub extend : CheckPoint → List BlockId → Pushed CheckPoint
extend cp rest = extend_from cp cp rest

-- The loop of `from_block_ids`, whose errors return how far it came.
unfoldable pub push_all : CheckPoint → List BlockId → Pushed (Option CheckPoint)
push_all acc [] = ok acc
push_all acc (id ∷ rest) = elim (push acc id) [
  | ok next ↦ push_all next rest
  | err e ↦ err (some e)
]

unfoldable pub from_block_ids : List BlockId → Pushed (Option CheckPoint)
from_block_ids [] = err none
from_block_ids (block ∷ rest) = push_all (new block) rest

-- The search of `insert` from a block down: it found the same block, the base to build on and the
-- later blocks to put back, or a panic.
pub data Base : Type 0 where
  same : Base
  base : CheckPoint → List BlockId → Base
  panic : Base

-- `tail` is in the order in which it is put back; `prev` is what is before the block `cur`.
unfoldable pub find_base : BlockId → List BlockId → BlockId → List BlockId → Base
find_base cur [] id tail =
    if cur.height == id.height
    then (if cur.hash == id.hash then Base.same else Base.panic)
    else if ltb cur.height id.height
    then Base.base (record { block = cur; prev = [] }) tail
    else Base.panic
find_base cur (b ∷ bs) id tail =
    let down = find_base b bs id (cur ∷ tail) in
    if cur.height == id.height
    then (if cur.hash == id.hash
        then Base.same
        else if cur.height == 0
        then Base.panic
        else Base.base (record { block = b; prev = bs }) [])
    else if ltb cur.height id.height
    then Base.base (record { block = cur; prev = b ∷ bs }) tail
    else down

-- `CheckPoint::insert`, with a panic as `none`
unfoldable pub insert : CheckPoint → BlockId → Option CheckPoint
insert cp id = elim (find_base cp.block cp.prev id []) [
  | same ↦ some cp
  | base b tail ↦ elim (extend b (id ∷ tail)) [ ok next ↦ some next | err e ↦ none ]
  | panic ↦ none
]
