-- ===== src/Blk/Tests.antt =====
-- Concrete transactions, blocks and chains for the theorems of packages/new-blk-parser.
use bel_20_indexer.Prelude.{
  ℕ, ◌^◌, ◌<◌, ◌≡◌, refl, arith, none, some, List, [], ◌∷◌, ◌++◌, length, subst, Returns,
}
use bel_20_indexer.Bytes.{to_le, from_le, from_le-to_le, length-to_le}
use bel_20_indexer.Blk.Reader.{
  Reader, ◌>>=◌, pure, read_exact, read_exact-Reads, Reads, map-Reads, pure-Reads, Wire,
}
use bel_20_indexer.Blk.VarUint.{
  from_u8, from_u16, of_u8, of_u16, read_from, varuint_bytes, varuint_round_trip,
}
use bel_20_indexer.Blk.Tx.{CoinType, RawTx, TxInput, TxOutput, evaluated, tx_bytes}
use bel_20_indexer.Blk.ReadTx.{read_tx}
use bel_20_indexer.Blk.TxTrip.{FitsTx, tx_round_trip}
use bel_20_indexer.Blk.Block.{BlockHeader, header_bytes, read_block, Block}
use bel_20_indexer.Blk.Block as BlockModule
use bel_20_indexer.Blk.BlockTrip.{txs_bytes, block_round_trip}
use bel_20_indexer.Blk.Merkle.{merkle_root, IsRoot, merkle_root-IsRoot}
use bel_20_indexer.Blk.CheckPoint.{BlockId, CheckPoint, blocks, insert, from_block_ids}
use bel_20_indexer.Blk.Chain.{
  IsChain, Inserted, insert-Inserted, Pushes, put_on, from_block_ids-IsChain,
}

read_le : ℕ → Reader ℕ
read_le w = do bs ← read_exact w; pure (from_le bs)

read_le-Reads : (w n : ℕ) → n < 256 ^ w → Reads (read_le w) n (to_le w n)
unfolding read_le
read_le-Reads w n h =
    subst (λ (m : ℕ). Reads (read_le w) m (to_le w n)) (from_le-to_le w n h)
      (map-Reads (read_exact w) from_le (to_le w n) (to_le w n)
        (read_exact-Reads w (to_le w n) (length-to_le w n)))

abbrev read_byte : Reader ℕ
read_byte [] = none
read_byte (b ∷ bs) = some (b, bs)

abbrev sample_wire : Wire
sample_wire = record {
  read_u8 = read_byte;
  read_u16 = read_le 2;
  read_u32 = read_le 4;
  read_u64 = read_le 8;
  Witness = Unit {0};
  default_witness = tt;
  consensus_decode = pure tt;
  encode_witness = λ _. [];
  u8_reads = λ n _. record { reads = λ rest. refl };
  u16_reads = λ n h. read_le-Reads 2 n h;
  u32_reads = λ n h. read_le-Reads 4 n h;
  u64_reads = λ n h. read_le-Reads 8 n h;
  witness_reads = λ x. pure-Reads x;
}

varuint_round_trip_example :
    Reads (read_from sample_wire) (from_u16 300) (varuint_bytes (from_u16 300))
varuint_round_trip_example =
    varuint_round_trip sample_wire (from_u16 300) (of_u16 300 (omega arith))

abbrev sample_coin : CoinType
sample_coin = record { name = []; pubkey_address = 25; script_address = 30; bech32 = [] }

abbrev sample_input : TxInput (Unit {0})
sample_input = record {
  outpoint = record { txid = 2000; vout = 1 };
  script_len = from_u8 2;
  script_sig = 81 ∷ 82 ∷ [];
  seq_no = 7;
  witness = tt;
}

abbrev sample_output : TxOutput
sample_output = record { value = 5000; script_len = from_u8 1; script_pubkey = 106 ∷ [] }

abbrev sample_tx : RawTx (Unit {0})
sample_tx = record {
  version = 1;
  in_count = from_u8 1;
  inputs = sample_input ∷ [];
  out_count = from_u8 1;
  outputs = sample_output ∷ [];
  locktime = 0;
  coin = sample_coin;
}

abbrev no_eval : List ℕ → CoinType → Unit {0}
no_eval script coin = tt

sample-FitsTx : FitsTx sample_wire sample_tx
unfolding from_u8
sample-FitsTx = record {
  version_fits = omega arith;
  in_canonical = of_u8 1 (omega arith);
  in_counts = refl;
  in_some = λ e. absurd (omega (arith, e));
  inputs_fit = (
    record {
      script_fits = record {
        canonical = of_u8 2 (omega arith);
        counts = refl;
        short = omega arith;
      };
      txid_fits = omega arith;
      vout_fits = omega arith;
      seq_fits = omega arith;
      witness_fits = refl;
    },
    tt,
  );
  out_canonical = of_u8 1 (omega arith);
  out_counts = refl;
  outputs_fit = (
    record {
      script_fits = record {
        canonical = of_u8 1 (omega arith);
        counts = refl;
        short = omega arith;
      };
      value_fits = omega arith;
    },
    tt,
  );
  locktime_fits = omega arith;
}

tx_round_trip_example :
    Reads (read_tx sample_wire sample_coin) sample_tx (tx_bytes (evaluated no_eval sample_tx))
tx_round_trip_example = tx_round_trip sample_wire no_eval sample_tx sample-FitsTx

abbrev sample_header : BlockHeader
sample_header = record {
  version = 1;
  prev_hash = 11;
  merkle_root = 12;
  timestamp = 1700000000;
  bits = 5;
  nonce = 6;
}

block_round_trip_example :
    Reads
      (read_block sample_wire length no_eval 200 sample_coin)
      (BlockModule.new length no_eval 200 sample_header none (from_u8 1) (sample_tx ∷ []))
      (header_bytes sample_header
        ++ (varuint_bytes (from_u8 1) ++ txs_bytes sample_wire no_eval (sample_tx ∷ [])))
unfolding from_u8
block_round_trip_example =
    block_round_trip sample_wire no_eval length 200 sample_coin sample_header (from_u8 1)
      (sample_tx ∷ [])
      (record {
        version_fits = omega arith;
        prev_fits = omega arith;
        root_fits = omega arith;
        timestamp_fits = omega arith;
        bits_fits = omega arith;
        nonce_fits = omega arith;
      })
      refl (of_u8 1 (omega arith)) refl ((sample-FitsTx, refl), tt)

merkle_root-IsRoot_example :
    (r : ℕ) × (merkle_root length (1 ∷ 2 ∷ 3 ∷ []) ≡ some r) × IsRoot length (1 ∷ 2 ∷ 3 ∷ []) r
merkle_root-IsRoot_example = merkle_root-IsRoot length (1 ∷ 2 ∷ 3 ∷ []) (omega arith)

abbrev genesis : BlockId
genesis = record { height = 0; hash = 900 }

abbrev tenth : BlockId
tenth = record { height = 10; hash = 910 }

abbrev sample_chain : CheckPoint
sample_chain = record { block = tenth; prev = genesis ∷ [] }

abbrev other_tenth : BlockId
other_tenth = record { height = 10; hash = 911 }

insert-Inserted_example :
    Returns
      (insert sample_chain other_tenth)
      (λ c. IsChain c × Inserted (blocks sample_chain) other_tenth (blocks c))
insert-Inserted_example =
    insert-Inserted sample_chain other_tenth genesis (omega arith, tt) refl refl
      (λ e. absurd (omega (arith, e)))

from_block_ids-IsChain_example :
    Pushes
      (from_block_ids (genesis ∷ tenth ∷ []))
      (λ cp. IsChain cp × (blocks cp ≡ put_on (genesis ∷ []) (tenth ∷ [])))
from_block_ids-IsChain_example = from_block_ids-IsChain genesis (tenth ∷ []) (omega arith, tt)
