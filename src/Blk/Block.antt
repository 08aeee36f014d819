-- ===== src/Blk/Block.antt =====
-- Blocks and their headers, packages/new-blk-parser/src/blockchain/proto (header.rs, block.rs and
-- mod.rs), and their reading (parser/reader.rs). `hash` is double SHA-256.
use bel_20_indexer.Prelude.{
  ℕ, zero, suc, ◌/◌, ◌%◌, ◌^◌, Bool, Option, none, some, List, [], ◌∷◌, ◌++◌, ◌==◌, nat_eq,
  if◌then◌else◌,
}
use bel_20_indexer.Bytes.{to_le, to_be}
use bel_20_indexer.Blk.Reader.{Reader, ◌>>=◌, pure, Wire}
use bel_20_indexer.Blk.VarUint.{VarUint, read_from}
use bel_20_indexer.Blk.Tx.{CoinType, RawTx, EvaluatedTx, evaluated, tx_bytes}
use bel_20_indexer.Blk.ReadTx.{read_256hash, read_tx}
use bel_20_indexer.Blk.Merkle.{merkle_root}

pub record BlockHeader : Type 0 where
  pub version : ℕ
  pub prev_hash : ℕ
  pub merkle_root : ℕ
  pub timestamp : ℕ
  pub bits : ℕ
  pub nonce : ℕ

-- `BlockHeader::to_bytes`
unfoldable pub header_bytes : BlockHeader → List ℕ
header_bytes h =
    to_le 4 h.version
    ++ (to_be 32 h.prev_hash
        ++ (to_be 32 h.merkle_root ++ (to_le 4 h.timestamp ++ (to_le 4 h.bits ++ to_le 4 h.nonce))))

pub record MerkleBranch : Type 0 where
  pub hashes : List ℕ
  pub side_mask : ℕ

pub record AuxPowExtension (W : Type 0) : Type 0 where
  pub coinbase_tx : RawTx W
  pub block_hash : ℕ
  pub coinbase_branch : MerkleBranch
  pub blockchain_branch : MerkleBranch
  pub parent_block : BlockHeader

pub record Hashed (T : Type 0) : Type 0 where
  pub hash : ℕ
  pub value : T

-- `Hashed::double_sha256`, given `to_bytes`
unfoldable pub double_sha256 : {T : Type 0} → (List ℕ → ℕ) → (T → List ℕ) → T → Hashed T
double_sha256 hash to_bytes value = record { hash = hash (to_bytes value); value = value }

pub record Block (W S : Type 0) : Type 0 where
  pub size : ℕ
  pub header : Hashed BlockHeader
  pub aux_pow_extension : Option (AuxPowExtension W)
  pub tx_count : VarUint
  pub txs : List (Hashed (EvaluatedTx W S))

abbrev pub hashes_of : {T : Type 0} → List (Hashed T) → List ℕ
hashes_of [] = []
hashes_of (x ∷ xs) = x.hash ∷ hashes_of xs

module _ (hash : List ℕ → ℕ) where
  -- `Block::compute_merkle_root`
  unfoldable pub compute_merkle_root : {W S : Type 0} → Block W S → Option ℕ
  compute_merkle_root b = merkle_root hash (hashes_of b.txs)

  -- `Block::verify_merkle_root`: `none` is a panic on no transactions, `false` the error.
  unfoldable pub verify_merkle_root : {W S : Type 0} → Block W S → Option Bool
  verify_merkle_root b = elim (compute_merkle_root b) [
    | none ↦ none
    | some root ↦ some (root == b.header.value.merkle_root)
  ]

  module _ {S : Type 0} (eval_from_bytes : List ℕ → CoinType → S) where
    abbrev pub hashed_txs : {W : Type 0} → List (RawTx W) → List (Hashed (EvaluatedTx W S))
    hashed_txs [] = []
    hashed_txs (raw ∷ txs) =
        double_sha256 hash tx_bytes (evaluated eval_from_bytes raw) ∷ hashed_txs txs

    -- `Block::new`
    unfoldable pub new :
        {W : Type 0}
        → ℕ
        → BlockHeader
        → Option (AuxPowExtension W)
        → VarUint
        → List (RawTx W)
        → Block W S
    new size header aux_pow_extension tx_count txs = record {
      size = size;
      header = double_sha256 hash header_bytes header;
      aux_pow_extension = aux_pow_extension;
      tx_count = tx_count;
      txs = hashed_txs txs;
    }

module _ (w : Wire) where
  open w use {Witness, read_u32, u32_reads}

  unfoldable pub read_block_header : Reader BlockHeader
  read_block_header = do
    version ← read_u32
    prev_hash ← read_256hash w
    merkle_root ← read_256hash w
    timestamp ← read_u32
    bits ← read_u32
    nonce ← read_u32
    pure (record {
      version = version;
      prev_hash = prev_hash;
      merkle_root = merkle_root;
      timestamp = timestamp;
      bits = bits;
      nonce = nonce;
    })

  unfoldable pub read_txs : ℕ → CoinType → Reader (List (RawTx Witness))
  read_txs zero coin = pure []
  read_txs (suc n) coin = do tx ← read_tx w coin; txs ← read_txs n coin; pure (tx ∷ txs)

  unfoldable pub read_hashes : ℕ → Reader (List ℕ)
  read_hashes zero = pure []
  read_hashes (suc n) = do h ← read_256hash w; hs ← read_hashes n; pure (h ∷ hs)

  unfoldable pub read_merkle_branch : Reader MerkleBranch
  read_merkle_branch = do
    branch_length ← read_from w
    hashes ← read_hashes branch_length.value
    side_mask ← read_u32
    pure (record { hashes = hashes; side_mask = side_mask })

  unfoldable pub read_aux_pow_extension : CoinType → Reader (AuxPowExtension Witness)
  read_aux_pow_extension coin = do
    coinbase_tx ← read_tx w coin
    block_hash ← read_256hash w
    coinbase_branch ← read_merkle_branch
    blockchain_branch ← read_merkle_branch
    parent_block ← read_block_header
    pure (record {
      coinbase_tx = coinbase_tx;
      block_hash = block_hash;
      coinbase_branch = coinbase_branch;
      blockchain_branch = blockchain_branch;
      parent_block = parent_block;
    })

  -- The extension, where the header's version has it: `version & (1 << 8) != 0`.
  unfoldable pub read_aux_pow : BlockHeader → CoinType → Reader (Option (AuxPowExtension Witness))
  read_aux_pow header coin =
      if header.version / 2 ^ 8 % 2 == 1
      then (do aux ← read_aux_pow_extension coin; pure (some aux))
      else pure none

  module _ (hash : List ℕ → ℕ) {S : Type 0} (eval_from_bytes : List ℕ → CoinType → S) where
    unfoldable pub read_block : ℕ → CoinType → Reader (Block Witness S)
    read_block size coin = do
      header ← read_block_header
      aux_pow_extension ← read_aux_pow header coin
      tx_count ← read_from w
      txs ← read_txs tx_count.value coin
      pure (new hash eval_from_bytes size header aux_pow_extension tx_count txs)
