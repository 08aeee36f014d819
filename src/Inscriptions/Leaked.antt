-- ===== src/Inscriptions/Leaked.antt =====
-- Inscriptions that go to the fees of a block, src/inscriptions/leaked.rs. A transaction is given
-- by the outputs that it spends and the values of its own; sums and differences wrap at 64 bits,
-- and `none` is a panic.
use bel_20_indexer.Prelude.{
  ℕ, ◌+◌, ◌-◌, ◌%◌, ◌^◌, Option, none, some, List, [], ◌∷◌, ◌++◌, ◌>>=◌, get_elem?, nat_eq,
}
use bel_20_indexer.Map.{Map, lookup, insert}
use bel_20_indexer.Tokens.Types.{OutPoint, outpoint_eq, Location, Txid}
use bel_20_indexer.Db.TxPrevout.{TxPrevout}
use bel_20_indexer.Inscriptions.Searcher.{sum, search_from}
use bel_20_indexer.Inscriptions.Offsets.{input_values}

unfoldable pub add_u64 : ℕ → ℕ → ℕ
add_u64 a b = (a + b) % 2 ^ 64

unfoldable pub sub_u64 : ℕ → ℕ → ℕ
sub_u64 a b = (a + 2 ^ 64 - b) % 2 ^ 64

pub data LeakedInscription : Type 0 where
  creation move : LeakedInscription

-- What the coinbase transaction is used for: its id and the values of its outputs.
pub record LeakedInscriptions : Type 0 where
  pub inscriptions : Map ℕ (List LeakedInscription)
  pub total_amount : ℕ
  pub coinbase_txid : Txid
  pub coinbase_outputs : List ℕ
  pub coinbase_reward : Option ℕ

pub record FeeResult : Type 0 where
  pub fee : ℕ
  pub fee_offset : ℕ

unfoldable pub new_leaked : Txid → List ℕ → LeakedInscriptions
new_leaked txid outputs = record {
  inscriptions = [];
  total_amount = 0;
  coinbase_txid = txid;
  coinbase_outputs = outputs;
  coinbase_reward = none;
}

-- The running sums `inputs_cum`, each with its input
unfoldable pub cumulated : ℕ → List ℕ → List ℕ
cumulated last_value [] = []
cumulated last_value (x ∷ xs) = add_u64 last_value x ∷ cumulated (add_u64 last_value x) xs

unfoldable pub last : List ℕ → Option ℕ
last [] = none
last (x ∷ []) = some x
last (x ∷ (y ∷ ys)) = last (y ∷ ys)

unfoldable pub find_fee : List OutPoint → List ℕ → ℕ → ℕ → Map OutPoint TxPrevout → Option FeeResult
unfolding cumulated last
find_fee inputs outputs input_idx input_offset tx_outs = do
  values ← input_values tx_outs inputs
  let inputs_cum = cumulated 0 values
  input_sum ← last inputs_cum
  prev_out_value ← get_elem? values input_idx
  cum ← get_elem? inputs_cum input_idx
  some (record {
    fee = sub_u64 input_sum (sum outputs);
    fee_offset = sub_u64 (add_u64 (sub_u64 cum prev_out_value) input_offset) (sum outputs);
  })

-- The write through `entry`
unfoldable pub push_leaked :
    ℕ → LeakedInscription → Map ℕ (List LeakedInscription) → Map ℕ (List LeakedInscription)
push_leaked offset inscription m = elim (lookup offset m) [
  | none ↦ insert offset (inscription ∷ []) m
  | some others ↦ insert offset (others ++ (inscription ∷ [])) m
]

unfoldable pub add_leaked :
    ℕ
    → List OutPoint
    → List ℕ
    → ℕ
    → Map OutPoint TxPrevout
    → LeakedInscription
    → LeakedInscriptions
    → Option LeakedInscriptions
unfolding push_leaked
add_leaked input_idx inputs outputs input_offset tx_outs inscription leaked = do
  fee_result ← find_fee inputs outputs input_idx input_offset tx_outs
  let diff = sub_u64 fee_result.fee fee_result.fee_offset
  some (record leaked {
    inscriptions = push_leaked (sub_u64 leaked.total_amount diff) inscription leaked.inscriptions;
  })

unfoldable pub add_tx_fee :
    List OutPoint → List ℕ → Map OutPoint TxPrevout → LeakedInscriptions → Option LeakedInscriptions
add_tx_fee inputs outputs txos leaked = do
  values ← input_values txos inputs
  some (record leaked {
    total_amount = add_u64 leaked.total_amount (sub_u64 (sum values) (sum outputs));
  })

unfoldable pub update_reward : LeakedInscriptions → LeakedInscriptions
update_reward leaked = record leaked {
  coinbase_reward = some (sub_u64 (sum leaked.coinbase_outputs) leaked.total_amount);
}

-- The loop over the outputs is that of `search_from`. An error is `none`, as is the panic of a
-- reward that is not set.
unfoldable pub find_inscription_vout : ℕ → LeakedInscriptions → Option (ℕ × ℕ)
find_inscription_vout offset leaked = do
  reward ← leaked.coinbase_reward
  search_from 0 (add_u64 offset reward) leaked.coinbase_outputs

unfoldable pub leaked_locations : LeakedInscriptions → ℕ → List LeakedInscription → List Location
leaked_locations leaked offset [] = []
leaked_locations leaked offset (i ∷ is) =
    let rest = leaked_locations leaked offset is in
    elim (find_inscription_vout offset leaked) [
      | none ↦ rest
      | some p ↦
          record { offset = p.1; outpoint = record { txid = leaked.coinbase_txid; vout = p.0 } }
          ∷ rest
    ]

unfoldable pub all_locations : LeakedInscriptions → Map ℕ (List LeakedInscription) → List Location
all_locations leaked [] = []
all_locations leaked (p ∷ ps) = leaked_locations leaked p.0 p.1 ++ all_locations leaked ps

unfoldable pub get_leaked_inscriptions : LeakedInscriptions → List Location
get_leaked_inscriptions leaked =
    let rewarded = update_reward leaked in all_locations rewarded rewarded.inscriptions
