-- ===== src/Indexer/Rows.antt =====
-- The rows of history that a block writes, the closure of `handle_block` in
-- src/inscriptions/indexer.rs. A counter wraps at 64 bits.
use bel_20_indexer.Prelude.{ℕ, ◌+◌, ◌%◌, ◌^◌, Option, some, List, [], ◌∷◌, ◌++◌, ◌>>=◌}
use bel_20_indexer.Tokens.Types.{FullHash, HistoryTokenAction, tick, recipient, sender}
use bel_20_indexer.Db.History.{TokenHistoryDb, HistoryValue, from_token_history}
use bel_20_indexer.Db.AddressTokenId.{AddressTokenIdDb}

-- The rows, the hashes whose addresses are loaded, and the last number that is given out.
pub record Rows (F : Type 0) : Type 0 where
  pub rows : List (AddressTokenIdDb × HistoryValue F)
  pub fullhash_to_load : List FullHash
  pub last_history_id : ℕ

unfoldable pub next_id : ℕ → ℕ
next_id last_history_id = (last_history_id + 1) % 2 ^ 64

module _ {F : Type 0} (block_height : ℕ) where
  abbrev pub own_key : HistoryTokenAction F → ℕ → AddressTokenIdDb
  own_key action id = record { address = recipient action; token = tick action; id = id }

  -- The rows of one action; `none` is a panic.
  unfoldable pub action_rows : ℕ → HistoryTokenAction F → Option (Rows F)
  unfolding next_id
  action_rows last_history_id action =
      let own = next_id last_history_id in
      elim (from_token_history action) [
        | TokenHistoryDb.send amt to txid vout ↦ (do
          from ← sender action
          some (record {
            rows =
                (
                  record { address = from; token = tick action; id = next_id own },
                  record { height = block_height; action = TokenHistoryDb.send amt to txid vout },
                )
                ∷ (
                  own_key action own,
                  record {
                    height = block_height;
                    action = TokenHistoryDb.receive amt from txid vout;
                  },
                )
                ∷ [];
            fullhash_to_load = recipient action ∷ from ∷ [];
            last_history_id = next_id own;
          }))
        | stored ↦ some (record {
          rows = (own_key action own, record { height = block_height; action = stored }) ∷ [];
          fullhash_to_load = recipient action ∷ [];
          last_history_id = own;
        })
      ]

  unfoldable pub history_rows : ℕ → List (HistoryTokenAction F) → Option (Rows F)
  unfolding action_rows
  history_rows last_history_id [] =
      some (record { rows = []; fullhash_to_load = []; last_history_id = last_history_id })
  history_rows last_history_id (action ∷ actions) = do
    first ← action_rows last_history_id action
    others ← history_rows first.last_history_id actions
    some (record {
      rows = first.rows ++ others.rows;
      fullhash_to_load = first.fullhash_to_load ++ others.fullhash_to_load;
      last_history_id = others.last_history_id;
    })
