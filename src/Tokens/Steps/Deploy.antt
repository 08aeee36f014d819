-- ===== src/Tokens/Steps/Deploy.antt =====
-- A deployment of src/tokens/parser.rs: the first of a tick registers it, later ones do nothing.
use bel_20_indexer.Prelude.{ℕ, ◌≤◌, ◌≡◌, refl, none, arith, nat_eq, list_eq, if_rule}
use bel_20_indexer.Map.{lookup, insert, lookup-insert, contains-false}
use bel_20_indexer.Env.{Env, max_units}
use bel_20_indexer.Tokens.Types.{
  TokenMeta, LowerCaseTokenTick, lower_eq_iff, FullHash, InscriptionId, DeployProtoDb,
  HistoryTokenAction,
}
use bel_20_indexer.Tokens.Process.{State, process_deploy}
use bel_20_indexer.Tokens.Measure.{minted-snoc, burned-snoc}
use bel_20_indexer.Tokens.Sound.{IsSound-token, supply_of}
use bel_20_indexer.Tokens.Steps.Credit.{IsSoundState, AccountsFor-refl, GoesOn}

module _ (env : Env) where
  open env use {Fixed128, units, to_lower}

  module _ (genesis : InscriptionId) (proto : DeployProtoDb Fixed128) (owner : FullHash) (n : ℕ)
      (s : State Fixed128) (h : IsSoundState env n s) (unminted : units proto.supply ≡ 0)
      (bounded : units proto.max ≤ max_units) where
    abbrev k : LowerCaseTokenTick
    k = to_lower proto.tick

    abbrev meta : TokenMeta Fixed128
    meta = record { genesis = genesis; proto = proto }

    abbrev event : HistoryTokenAction Fixed128
    event =
        HistoryTokenAction.deploy proto.tick proto.max proto.lim proto.dec owner genesis.txid
          genesis.index

    supply_same :
        lookup k s.tokens ≡ none
        → (j : LowerCaseTokenTick)
        → supply_of env j (insert k meta s.tokens) ≡ supply_of env j s.tokens
    supply_same absent j = ground (arith, lookup-insert k j meta s.tokens, lower_eq_iff k j)

    pub process_deploy-GoesOn : GoesOn env n s (process_deploy env genesis proto owner s)
    unfolding process_deploy
    process_deploy-GoesOn =
        if_rule (GoesOn env n s) _ _ _ (λ _. (h, AccountsFor-refl env s))
          (λ fresh.
            let absent = contains-false k s.tokens fresh in
            (
              IsSound-token env k meta h
                  (record { tick_ok = refl; supply_ok = omega arith; max_ok = bounded })
                  (λ m' e. cc (absent, e)),
              record {
                balances_ok = λ j.
                    omega
                      (arith, minted-snoc env j s.history event, burned-snoc env j s.history event);
                supply_ok =
                    λ j. omega (arith, supply_same absent j, minted-snoc env j s.history event);
              },
            ))
