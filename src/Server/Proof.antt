-- ===== src/Server/Proof.antt =====
-- The proof of history, `Server::generate_history_hash` of src/server/mod.rs. A hash is the number
-- of its 32 bytes; SHA-256 and the JSON of a row are of the crates bitcoin_hashes and serde_json.
use bel_20_indexer.Prelude.{ℕ, Option, some, List, [], ◌∷◌, ◌++◌, ◌>>=◌}
use bel_20_indexer.Bytes.{to_be}
use bel_20_indexer.Env.{Env}
use bel_20_indexer.Db.History.{HistoryValue}
use bel_20_indexer.Db.AddressTokenId.{AddressTokenIdDb}
use bel_20_indexer.Server.Events.{AddressesFullHash}
use bel_20_indexer.Server.Rest.{RestHistory, rest_history}

module _ {F : Type 0} (env : Env) (sha256 : List ℕ → ℕ)
    (to_vec : RestHistory F → Option (List ℕ)) where
  unfoldable pub history_bytes :
      AddressesFullHash → List (AddressTokenIdDb × HistoryValue F) → Option (List ℕ)
  unfolding rest_history
  history_bytes addresses [] = some []
  history_bytes addresses (h ∷ hs) = do
    bytes ← to_vec (rest_history env addresses h.0 h.1)
    rest ← history_bytes addresses hs
    some (bytes ++ rest)

  -- The hash of "null"
  abbrev pub default_hash : ℕ
  default_hash = sha256 (110 ∷ 117 ∷ 108 ∷ 108 ∷ [])

  unfoldable pub current_hash :
      AddressesFullHash → List (AddressTokenIdDb × HistoryValue F) → Option ℕ
  unfolding history_bytes
  current_hash addresses [] = some default_hash
  current_hash addresses (h ∷ hs) = do
    buffer ← history_bytes addresses (h ∷ hs)
    some (sha256 buffer)

  -- `none` is an error.
  unfoldable pub generate_history_hash :
      ℕ → List (AddressTokenIdDb × HistoryValue F) → AddressesFullHash → Option ℕ
  unfolding current_hash
  generate_history_hash prev_history_hash history addresses = do
    hash ← current_hash addresses history
    some (sha256 (to_be 32 prev_history_hash ++ to_be 32 hash))
