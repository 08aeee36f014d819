-- ===== src/Blk/Chain.antt =====
-- The lists of blocks of checkpoint.rs (packages/new-blk-parser) descend in height, whatever is put
-- on them.
use bel_20_indexer.Prelude.{
  ℕ, ◌<◌, ◌≡◌, refl, arith, none, some, List, [], ◌∷◌, ◌==◌, nat_eq, ltb, lt→ltb, ltb→lt, Returns,
  if_rule, ap, subst, sym,
}
use bel_20_indexer.Blk.CheckPoint.{
  BlockId, CheckPoint, Pushed, ok, err, new, blocks, push, extend_from, extend, push_all,
  from_block_ids, Base, same, base, panic, find_base, insert,
}

-- Each block is lower than the one in front of it.
abbrev pub Descends : ℕ → List BlockId → Type 0
Descends h [] = Unit
Descends h (b ∷ bs) = (b.height < h) × Descends b.height bs

abbrev pub IsChain : CheckPoint → Type 0
IsChain cp = Descends cp.block.height cp.prev

-- Each block is higher than the one in front of it.
abbrev pub Ascends : ℕ → List BlockId → Type 0
Ascends h [] = Unit
Ascends h (b ∷ bs) = (h < b.height) × Ascends b.height bs

abbrev pub Pushes : {E : Type 0} → Pushed E → (CheckPoint → Type 0) → Type 0
Pushes (ok cp) P = P cp
Pushes (err e) P = ⊥

-- The blocks of a list put on another, one by one.
abbrev pub put_on : List BlockId → List BlockId → List BlockId
put_on bs [] = bs
put_on bs (b ∷ rest) = put_on (b ∷ bs) rest

-- Extending a chain by blocks that ascend from its tip returns their chain.
pub extend_from-IsChain :
    (start curr : CheckPoint) (rest : List BlockId)
    → IsChain curr
    → Ascends curr.block.height rest
    → Pushes
        (extend_from start curr rest)
        (λ cp. IsChain cp × (blocks cp ≡ put_on (blocks curr) rest))
unfolding extend_from push
extend_from-IsChain start curr [] chain up = (chain, refl)
extend_from-IsChain start curr (b ∷ rest) chain up =
    rw (Pushes, lt→ltb curr.block.height b.height up.0)
      (extend_from-IsChain start (record { block = b; prev = blocks curr }) rest (up.0, chain) up.1)

push_all-IsChain :
    (curr : CheckPoint) (rest : List BlockId)
    → IsChain curr
    → Ascends curr.block.height rest
    → Pushes (push_all curr rest) (λ cp. IsChain cp × (blocks cp ≡ put_on (blocks curr) rest))
unfolding push_all push
push_all-IsChain curr [] chain up = (chain, refl)
push_all-IsChain curr (b ∷ rest) chain up =
    rw (Pushes, lt→ltb curr.block.height b.height up.0)
      (push_all-IsChain (record { block = b; prev = blocks curr }) rest (up.0, chain) up.1)

-- The list ends in the block `g`.
abbrev pub EndsIn : BlockId → BlockId → List BlockId → Type 0
EndsIn g cur [] = cur ≡ g
EndsIn g cur (b ∷ bs) = EndsIn g b bs

-- What the insertion of a block makes of a list: nothing, where the block is there; the list with
-- the block put between lower and higher ones; or the block on the lower ones, where another block
-- of its height is there.
pub data Inserted (old : List BlockId) (id : BlockId) : List BlockId → Type 0 where
  present :
      (x : BlockId) (below tail : List BlockId)
      → old ≡ put_on (x ∷ below) tail
      → x ≡ id
      → Inserted old id old
  between :
      (below tail : List BlockId)
      → old ≡ put_on below tail
      → Inserted old id (put_on (id ∷ below) tail)
  replaced :
      (x : BlockId) (below tail : List BlockId)
      → old ≡ put_on (x ∷ below) tail
      → x.height ≡ id.height
      → Inserted old id (id ∷ below)

data Found (old : List BlockId) (id : BlockId) : Base → Type 0 where
  found_same :
      (x : BlockId) (below tail : List BlockId)
      → old ≡ put_on (x ∷ below) tail
      → x ≡ id
      → Found old id Base.same
  found_between :
      (b : CheckPoint) (tail : List BlockId)
      → old ≡ put_on (blocks b) tail
      → IsChain b
      → b.block.height < id.height
      → Ascends id.height tail
      → Found old id (Base.base b tail)
  found_conflict :
      (x : BlockId) (b : CheckPoint) (tail : List BlockId)
      → old ≡ put_on (x ∷ blocks b) tail
      → x.height ≡ id.height
      → IsChain b
      → b.block.height < id.height
      → Found old id (Base.base b [])

same_block : (x id : BlockId) → x.height ≡ id.height → x.hash ≡ id.hash → x ≡ id
same_block x id e f = ground arith

module _ (old : List BlockId) (g id : BlockId) (at_zero : g.height ≡ 0)
    (genesis_stays : id.height ≡ 0 → id.hash ≡ g.hash) where
  find_base-Found :
      (cur : BlockId) (prev tail : List BlockId)
      → Descends cur.height prev
      → EndsIn g cur prev
      → Ascends id.height tail
      → Ascends cur.height tail
      → old ≡ put_on (cur ∷ prev) tail
      → Found old id (find_base cur prev id tail)
  unfolding find_base
  find_base-Found cur [] tail down ends up up' whole =
      if_rule (Found old id) (cur.height == id.height) _ _
        (λ level.
          if_rule (Found old id) (cur.hash == id.hash) Base.same Base.panic
            (λ equal.
              found_same cur [] tail whole (same_block cur id (ground arith) (ground arith)))
            (λ other. absurd (
              ground
                (arith, ap BlockId.hash ends, ap BlockId.height ends, at_zero, genesis_stays))))
        (λ apart.
          if_rule (Found old id) (ltb cur.height id.height) _ Base.panic
            (λ lower.
              found_between (record { block = cur; prev = [] }) tail whole tt (ltb→lt _ _ lower) up)
            (λ higher. absurd (ground (arith, ap BlockId.height ends, at_zero))))
  find_base-Found cur (b ∷ bs) tail down ends up up' whole =
      if_rule (Found old id) (cur.height == id.height) _ _
        (λ level.
          if_rule (Found old id) (cur.hash == id.hash) Base.same _
            (λ equal.
              found_same cur (b ∷ bs) tail whole (same_block cur id (ground arith) (ground arith)))
            (λ other.
              if_rule (Found old id) (cur.height == 0) Base.panic _
                (λ bottom. absurd (ground (arith, down.0)))
                (λ _.
                  found_conflict cur (record { block = b; prev = bs }) tail whole (ground arith)
                    down.1 (ground (arith, down.0)))))
        (λ apart.
          if_rule (Found old id) (ltb cur.height id.height) _ _
            (λ lower.
              found_between (record { block = cur; prev = b ∷ bs }) tail whole down
                (ltb→lt _ _ lower) up)
            (λ higher.
              find_base-Found b bs (cur ∷ tail) down.1 ends (ground arith, up') (down.0, up')
                whole))

Pushes-Returns :
    (r : Pushed CheckPoint) (P Q : CheckPoint → Type 0)
    → ((c : CheckPoint) → P c → Q c)
    → Pushes r P
    → Returns (elim r [ ok next ↦ some next | err e ↦ none ]) Q
Pushes-Returns (ok c) P Q f h = f c h
Pushes-Returns (err e) P Q f h = h

searched :
    (cp : CheckPoint) (id : BlockId) (f : Base)
    → IsChain cp
    → Found (blocks cp) id f
    → Returns
        (elim f [
          | same ↦ some cp
          | base b tail ↦ elim (extend b (id ∷ tail)) [ ok next ↦ some next | err e ↦ none ]
          | panic ↦ none
        ])
        (λ c. IsChain c × Inserted (blocks cp) id (blocks c))
unfolding extend
searched cp id _ chain (found_same x below tail whole e) = (chain, present x below tail whole e)
searched cp id _ chain (found_between b tail whole down lower up) =
    Pushes-Returns (extend_from b b (id ∷ tail)) _ _
      (λ c p. (p.0, subst (Inserted (blocks cp) id) (sym p.1) (between (blocks b) tail whole)))
      (extend_from-IsChain b b (id ∷ tail) down (lower, up))
searched cp id _ chain (found_conflict x b tail whole level down lower) =
    Pushes-Returns (extend_from b b (id ∷ [])) _ _
      (λ c p.
        (p.0, subst (Inserted (blocks cp) id) (sym p.1) (replaced x (blocks b) tail whole level)))
      (extend_from-IsChain b b (id ∷ []) down (lower, tt))

pub insert-Inserted :
    (cp : CheckPoint) (id g : BlockId)
    → IsChain cp
    → EndsIn g cp.block cp.prev
    → g.height ≡ 0
    → (id.height ≡ 0 → id.hash ≡ g.hash)
    → Returns (insert cp id) (λ c. IsChain c × Inserted (blocks cp) id (blocks c))
unfolding insert
insert-Inserted cp id g chain ends at_zero genesis_stays =
    searched cp id (find_base cp.block cp.prev id []) chain (
      find_base-Found (blocks cp) g id at_zero genesis_stays cp.block cp.prev [] chain ends tt tt
        refl)

-- Ascending blocks, the first of any height, make a chain of all of them.
pub from_block_ids-IsChain :
    (b : BlockId) (rest : List BlockId)
    → Ascends b.height rest
    → Pushes (from_block_ids (b ∷ rest)) (λ cp. IsChain cp × (blocks cp ≡ put_on (b ∷ []) rest))
unfolding from_block_ids new
from_block_ids-IsChain b rest up = push_all-IsChain (record { block = b; prev = [] }) rest tt up
