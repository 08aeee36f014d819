-- ===== src/Blk/BlockTrip.antt =====
-- The reader of blocks of packages/new-blk-parser reads what is written, header and transactions.
use bel_20_indexer.Prelude.{
  ℕ, ◌/◌, ◌%◌, ◌^◌, ◌<◌, ◌≡◌, none, List, [], ◌∷◌, ◌++◌, length, nat_eq, All, subst,
}
use bel_20_indexer.Bytes.{to_le}
use bel_20_indexer.Blk.Reader.{Reads, bind-Reads, map-Reads, pure-Reads, Wire}
use bel_20_indexer.Blk.VarUint.{VarUint, varuint_bytes, IsVarUint, varuint_round_trip}
use bel_20_indexer.Blk.Tx.{CoinType, RawTx, evaluated, tx_bytes}
use bel_20_indexer.Blk.ReadTx.{read_tx}
use bel_20_indexer.Blk.TxTrip.{FitsTx, hash_round_trip, tx_round_trip}
use bel_20_indexer.Blk.Block.{
  BlockHeader, header_bytes, read_block_header, read_txs, read_block, new, read_aux_pow,
}

module _ (w : Wire) where
  open w use {Witness, read_u32, u32_reads}

  pub record FitsHeader (h : BlockHeader) : Type 0 where
    pub version_fits : h.version < 256 ^ 4
    pub prev_fits : h.prev_hash < 256 ^ 32
    pub root_fits : h.merkle_root < 256 ^ 32
    pub timestamp_fits : h.timestamp < 256 ^ 4
    pub bits_fits : h.bits < 256 ^ 4
    pub nonce_fits : h.nonce < 256 ^ 4

  pub header_round_trip :
      (h : BlockHeader) → FitsHeader h → Reads (read_block_header w) h (header_bytes h)
  unfolding read_block_header header_bytes
  header_round_trip h f = bind-Reads _ _ _ _ _ _ (u32_reads h.version f.version_fits) (
      bind-Reads _ _ _ _ _ _ (hash_round_trip w h.prev_hash f.prev_fits) (
        bind-Reads _ _ _ _ _ _ (hash_round_trip w h.merkle_root f.root_fits) (
          bind-Reads _ _ _ _ _ _ (u32_reads h.timestamp f.timestamp_fits) (
            bind-Reads _ _ _ _ _ _ (u32_reads h.bits f.bits_fits) (
              map-Reads read_u32 (λ (x : ℕ). record h { nonce = x }) h.nonce (to_le 4 h.nonce)
                (u32_reads h.nonce f.nonce_fits))))))

  no_aux_round_trip :
      (h : BlockHeader) (coin : CoinType)
      → h.version / 2 ^ 8 % 2 ≡ 0
      → Reads (read_aux_pow w h coin) none []
  unfolding read_aux_pow
  no_aux_round_trip h coin plain = rw plain (pure-Reads none)

  module _ {S : Type 0} (eval : List ℕ → CoinType → S) where
    -- The transactions of a block, as their hashes see them.
    abbrev pub txs_bytes : List (RawTx Witness) → List ℕ
    txs_bytes [] = []
    txs_bytes (tx ∷ txs) = tx_bytes (evaluated eval tx) ++ txs_bytes txs

    abbrev pub OfCoin : CoinType → RawTx Witness → Type 0
    OfCoin coin tx = FitsTx w tx × (tx.coin ≡ coin)

    txs_round_trip :
        (coin : CoinType) (txs : List (RawTx Witness))
        → All (OfCoin coin) txs
        → Reads (read_txs w (length txs) coin) txs (txs_bytes txs)
    unfolding read_txs
    txs_round_trip coin [] h = pure-Reads []
    txs_round_trip coin (tx ∷ txs) h =
        bind-Reads _ _ _ _ _ _
          (subst (λ (c : CoinType). Reads (read_tx w c) tx (tx_bytes (evaluated eval tx))) h.0.1
            (tx_round_trip w eval tx h.0.0))
          (map-Reads _ _ _ _ (txs_round_trip coin txs h.1))

    txs_counted :
        (coin : CoinType) (n : ℕ) (txs : List (RawTx Witness))
        → n ≡ length txs
        → All (OfCoin coin) txs
        → Reads (read_txs w n coin) txs (txs_bytes txs)
    txs_counted coin n txs e h = rw e (txs_round_trip coin txs h)

    -- A block without the extension of merged mining is read from its header's bytes, the number of
    -- its transactions and their bytes: the reader returns the block that they make, with the hashes
    -- of the header and of the transactions, if the bit for the extension is not set, the numbers
    -- fit their fields and no transaction has a witness.
    pub block_round_trip :
        (hash : List ℕ → ℕ) (size : ℕ) (coin : CoinType) (h : BlockHeader) (tx_count : VarUint)
        (txs : List (RawTx Witness))
        → FitsHeader h
        → h.version / 2 ^ 8 % 2 ≡ 0
        → IsVarUint tx_count
        → tx_count.value ≡ length txs
        → All (OfCoin coin) txs
        → Reads
            (read_block w hash eval size coin)
            (new hash eval size h none tx_count txs)
            (header_bytes h ++ (varuint_bytes tx_count ++ txs_bytes txs))
    unfolding read_block
    block_round_trip hash size coin h tx_count txs fits plain canonical counts each =
        bind-Reads _ _ _ _ _ _ (header_round_trip h fits) (
          bind-Reads _ _ _ _ [] _ (no_aux_round_trip h coin plain) (
            bind-Reads _ _ _ _ _ _ (varuint_round_trip w tx_count canonical) (
              map-Reads (read_txs w tx_count.value coin)
                (λ (x : List (RawTx Witness)). new hash eval size h none tx_count x) txs
                (txs_bytes txs) (txs_counted coin tx_count.value txs counts each))))
