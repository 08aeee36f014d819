-- ===== src/Tokens/Ledger.antt =====
-- What `process_token_actions` of src/tokens/parser.rs does with every amount, over a whole block.
use bel_20_indexer.Tokens.Measure.{minted, burned, held}
use bel_20_indexer.Tokens.Holders.{Holders}
use bel_20_indexer.Tokens.Steps.Settle.{process_transferred-GoesOn}
use bel_20_indexer.Tokens.Steps.Deploy.{process_deploy-GoesOn}
use bel_20_indexer.Tokens.Steps.Mint.{process_mint-GoesOn}
use bel_20_indexer.Tokens.Steps.Credit.{IsSoundState, AccountsFor-refl, AccountsFor-trans, GoesOn}
use bel_20_indexer.Tokens.Sound.{IsSound, IsSound-weaken, supply_of}
use bel_20_indexer.Prelude.{
  ℕ, ◌≤◌, ◌≡◌, some, arith, suc, none, Option, All, List, [], ◌∷◌, length, ◌+◌, Returns, subst,
  refl, Returns-mono,
}
use bel_20_indexer.Map.{lookup, lookup-erase, Map}
use bel_20_indexer.Env.{Env, max_units}
use bel_20_indexer.Tokens.Types.{
  FullHash, InscriptionId, DeployProtoDb, TokenAction, TransferProtoDb, Location, location_eq, Txid,
  MintProtoWrapper, TokenCache, LowerCaseTokenTick,
}
use bel_20_indexer.Tokens.Process.{
  State, process_deploy, process_mint, process_transfer, process_transferred, step, run,
  process_token_actions,
}
use bel_20_indexer.Tokens.Steps.Lock.{SameAmount, process_transfer-GoesOn}

module _ (env : Env) where
  open env use {Fixed128, units}

  abbrev pub Stored : Type 0
  Stored = Map Location (TransferProtoDb Fixed128)

  -- What the parser of inscriptions gives: a deployment has minted nothing and its limit is a u64,
  -- and the amount kept for a transfer is that of its action.
  abbrev pub FitsAction : Stored → TokenAction Fixed128 → Type 0
  FitsAction kept (TokenAction.deploy genesis proto owner) =
      (units proto.supply ≡ 0) × (units proto.max ≤ max_units)
  FitsAction kept (TokenAction.transfer location owner proto txid vout) =
      (stored : TransferProtoDb Fixed128)
      → lookup location kept ≡ some stored
      → SameAmount env proto.amt stored
  FitsAction kept _ = Unit

  -- Processing only takes entries out of `all_transfers`.
  abbrev pub Shrinks : State Fixed128 → State Fixed128 → Type 0
  Shrinks s s' =
      (l : Location) (stored : TransferProtoDb Fixed128)
      → lookup l s'.all_transfers ≡ some stored
      → lookup l s.all_transfers ≡ some stored

  process_deploy-Shrinks :
      (genesis : InscriptionId) (proto : DeployProtoDb Fixed128) (owner : FullHash)
      (s : State Fixed128)
      → Shrinks s (process_deploy env genesis proto owner s)
  unfolding process_deploy
  process_deploy-Shrinks genesis proto owner s l stored = ground arith

  process_mint-Shrinks :
      (owner : FullHash) (proto : MintProtoWrapper Fixed128) (txid : Txid) (vout : ℕ)
      (s : State Fixed128)
      → Shrinks s (process_mint env owner proto txid vout s)
  unfolding process_mint
  process_mint-Shrinks owner proto txid vout s l stored = ground arith

  process_transfer-Shrinks :
      (location : Location) (owner : FullHash) (proto : MintProtoWrapper Fixed128) (txid : Txid)
      (vout : ℕ) (s : State Fixed128)
      → Shrinks s (process_transfer env location owner proto txid vout s)
  unfolding process_transfer
  process_transfer-Shrinks location owner proto txid vout s l stored =
      ground (arith, lookup-erase location l s.all_transfers)

  process_transferred-Shrinks :
      (location : Location) (recipient : FullHash) (txid : Txid) (vout : ℕ) (s s' : State Fixed128)
      → process_transferred env location recipient txid vout s ≡ some s'
      → Shrinks s s'
  unfolding process_transferred
  process_transferred-Shrinks location recipient txid vout s s' e l stored = ground arith

  step-GoesOn :
      (a : TokenAction Fixed128) (n : ℕ) (s : State Fixed128)
      → IsSoundState env (suc n) s
      → FitsAction s.all_transfers a
      → Returns (step env a s) (λ s'. GoesOn env n s s' × Shrinks s s')
  unfolding step
  step-GoesOn (TokenAction.deploy genesis proto owner) n s h fits = (
    process_deploy-GoesOn env genesis proto owner n s (IsSound-weaken env h) fits.0 fits.1,
    process_deploy-Shrinks genesis proto owner s,
  )
  step-GoesOn (TokenAction.mint owner proto txid vout) n s h fits = (
    process_mint-GoesOn env owner proto txid vout n s (IsSound-weaken env h),
    process_mint-Shrinks owner proto txid vout s,
  )
  step-GoesOn (TokenAction.transfer location owner proto txid vout) n s h fits = (
    process_transfer-GoesOn env location owner proto txid vout n s h fits,
    process_transfer-Shrinks location owner proto txid vout s,
  )
  step-GoesOn (TokenAction.transferred location recipient txid vout) n s h fits =
      moved (process_transferred env location recipient txid vout s) refl
        (process_transferred-GoesOn env location recipient txid vout n s (IsSound-weaken env h))
    where
      moved :
          (o : Option (State Fixed128))
          → process_transferred env location recipient txid vout s ≡ o
          → Returns o (GoesOn env n s)
          → Returns o (λ s'. GoesOn env n s s' × Shrinks s s')
      moved none e r = r
      moved (some s') e r = (r, process_transferred-Shrinks location recipient txid vout s s' e)

  FitsAction-mono :
      (a : TokenAction Fixed128) (s s' : State Fixed128)
      → Shrinks s s'
      → FitsAction s.all_transfers a
      → FitsAction s'.all_transfers a
  FitsAction-mono (TokenAction.deploy genesis proto owner) s s' le fits = fits
  FitsAction-mono (TokenAction.transfer location owner proto txid vout) s s' le fits =
      λ stored e. fits stored (le location stored e)
  FitsAction-mono _ s s' le fits = tt

  All-FitsAction-mono :
      (as' : List (TokenAction Fixed128)) (s s' : State Fixed128)
      → Shrinks s s'
      → All (FitsAction s.all_transfers) as'
      → All (FitsAction s'.all_transfers) as'
  All-FitsAction-mono [] s s' le fits = tt
  All-FitsAction-mono (a ∷ as') s s' le fits =
      (FitsAction-mono a s s' le fits.0, All-FitsAction-mono as' s s' le fits.1)

  abbrev Next : ℕ → State Fixed128 → State Fixed128 → Type 0
  Next n s s' = GoesOn env n s s' × Shrinks s s'

  run_on :
      (actions : List (TokenAction Fixed128)) (m n : ℕ) (s : State Fixed128)
      (o : Option (State Fixed128))
      → ((s' : State Fixed128)
          → IsSoundState env m s'
          → All (FitsAction s'.all_transfers) actions
          → Returns (run env actions s') (GoesOn env n s'))
      → All (FitsAction s.all_transfers) actions
      → Returns o (Next m s)
      → Returns (elim o [ none ↦ none | some s' ↦ run env actions s' ]) (GoesOn env n s)
  run_on actions m n s none ih fits r = r
  run_on actions m n s (some s') ih fits r =
      Returns-mono (run env actions s') (λ t g. (g.0, AccountsFor-trans env r.0.1 g.1))
        (ih s' r.0.0 (All-FitsAction-mono actions s s' r.1 fits))

  -- No action of a run panics, whatever their number.
  run-GoesOn :
      (actions : List (TokenAction Fixed128)) (m n : ℕ) (s : State Fixed128)
      → m ≡ length actions + n
      → IsSoundState env m s
      → All (FitsAction s.all_transfers) actions
      → Returns (run env actions s) (GoesOn env n s)
  unfolding run
  run-GoesOn [] m n s e h fits =
      (subst (λ (j : ℕ). IsSoundState env j s) (omega (arith, e)) h, AccountsFor-refl env s)
  run-GoesOn (a ∷ actions) m n s e h fits =
      run_on actions (length actions + n) n s (step env a s)
        (λ s' h' fits'. run-GoesOn actions (length actions + n) n s' refl h' fits') fits.1
        (step-GoesOn a (length actions + n) s
          (subst (λ (j : ℕ). IsSoundState env j s) (omega (arith, e)) h) fits.0)

  -- The cache as it stands before a block is processed.
  abbrev pub IsReady : TokenCache Fixed128 → Type 0
  IsReady c =
      IsSound env (length c.token_actions) c.tokens c.token_accounts c.valid_transfers
      × All (FitsAction c.all_transfers) c.token_actions

  abbrev start : TokenCache Fixed128 → Holders Fixed128 → State Fixed128
  start c h = record { cache = record c { token_actions = [] }; holders = h; history = [] }

  processed :
      (c : TokenCache Fixed128) (h : Holders Fixed128)
      → IsReady c
      → Returns (process_token_actions env c h) (GoesOn env 0 (start c h))
  unfolding process_token_actions
  processed c h ready =
      run-GoesOn c.token_actions (length c.token_actions) 0 (start c h) (omega arith) ready.0
        ready.1

  -- From a ready cache, processing the actions of a block never panics, and afterwards every token
  -- is at most minted to its maximum, the accounts of a token hold at most its supply, every pending
  -- transfer belongs to a registered token, and every account covers its pending transfers.
  pub process_token_actions-IsSound :
      (c : TokenCache Fixed128) (h : Holders Fixed128)
      → IsReady c
      → Returns
          (process_token_actions env c h)
          (λ s. IsSound env 0 s.tokens s.token_accounts s.valid_transfers)
  process_token_actions-IsSound c h ready =
      Returns-mono (process_token_actions env c h) (λ s g. g.0) (processed c h ready)

  -- From a ready cache, processing returns, and for each lower-case tick the balances, spendable and
  -- transferable, of all its accounts grow by what the history says was minted and shrink by what it
  -- says was burned, while the supply grows by what was minted.
  pub process_token_actions-conserves :
      (c : TokenCache Fixed128) (h : Holders Fixed128) (k : LowerCaseTokenTick)
      → IsReady c
      → Returns (process_token_actions env c h) (λ s.
        (held env k s.token_accounts + burned env k s.history
          ≡ held env k c.token_accounts + minted env k s.history)
        × (supply_of env k s.tokens ≡ supply_of env k c.tokens + minted env k s.history))
  unfolding minted burned
  process_token_actions-conserves c h k ready =
      Returns-mono (process_token_actions env c h)
        (λ s g. (omega (arith, g.1.balances_ok k), omega (arith, g.1.supply_ok k)))
        (processed c h ready)
