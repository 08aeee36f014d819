-- ===== src/Indexer/Tests.antt =====
-- The rows of a transfer to another address and of a mint.
use bel_20_indexer.Prelude.{ℕ, List, [], ◌∷◌, ◌≤◌, Returns, length, arith, ◌*◌}
use bel_20_indexer.Tokens.Types.{HistoryTokenAction}
use bel_20_indexer.Indexer.Rows.{history_rows}
use bel_20_indexer.Indexer.Ids.{Numbered, history_rows-Numbered}

abbrev two_actions : List (HistoryTokenAction ℕ)
two_actions = HistoryTokenAction.send 5 10 2 1 77 0 ∷ (HistoryTokenAction.mint 5 30 2 78 1 ∷ [])

history_rows-Numbered_example :
    Returns
      (history_rows 100 41 two_actions)
      (λ r. Numbered 100 41 r × (length r.rows ≤ 2 * length two_actions))
history_rows-Numbered_example = history_rows-Numbered 100 41 two_actions (ground arith)
