-- ===== src/Reconciliation/Reported.antt =====
-- The row that `reconcileMarket` and `reconcilePool` of dike-services/src/jobs/reconciliation.ts leave, whatever
-- the rest of the method comes to.
use dike_monolith.Prelude.{◌≡◌, ◌≢◌, ap, sym, subst, ◌∙◌, arith, ℕ, Option, string_eq}
use dike_monolith.Prelude.Int.{ℤ}
use dike_monolith.Store.Values.{JsValue}
use dike_monolith.Store.Tables.{markets, pools}
use dike_monolith.Store.Upserts.{Rows}
use dike_monolith.Observability.Bus.{StateUpdate}
use dike_monolith.Task.{returned, Services, Task, ◌>>=◌, ◌>>◌, pure, publish, if_some, continue}
use dike_monolith.Task.Keeps.{Keeps, keeps_rules}
use dike_monolith.Task.Steps.{then_on, read_on}
use dike_monolith.Reconciliation.Environment.{Environment}
use dike_monolith.Reconciliation.Values.{prop, read_prop, read_tag, normal, normal_id}
use dike_monolith.Reconciliation.Rows.{save}
use dike_monolith.Reconciliation.Accepted.{pool-Accepted, market-Accepted}
use dike_monolith.Reconciliation.Filled.{market_filled, pool_filled}
use dike_monolith.Reconciliation.Elsewhere.{elsewhere_rules}
use dike_monolith.Reconciliation.Projected.{Projected, At, written_then, save-Accepted}
use dike_monolith.Reconciliation.Markets.{
  pool_columns, reconcile_pool, not_tradeable, market_columns, reconcile_market,
}

module _ (env : Environment) (ledger : ℕ) where
  -- The row of a market that the registry reports with a fee config, and a status and an outcome that have tags, after
  -- `reconcileMarket`: it holds the summary of what was reported, even if the pool, the request or its case
  -- cannot be read and the method throws.
  pub reconcile_market-Projected :
      (id : ℤ) (found shape status final : JsValue) (s : Services)
      → env.contracts.get_market id ≡ returned found
      → read_prop "status" found ≡ returned shape
      → read_tag "status" found ≡ returned status
      → read_tag "final_outcome" found ≡ returned final
      → prop "fee_config" found ≢ JsValue.undefined
      → Projected markets
          (market_columns env ledger id
            (normal env.language found)
            status
            final
            (prop "fee_config" found))
          (s.db.tables markets)
          ((reconcile_market env ledger id s).1.db.tables markets)
  unfolding reconcile_market not_tradeable
  reconcile_market-Projected id found shape status final s h0 h1 h2 h3 fees =
      let steps =
        read_on (env.contracts.get_market id) _ s found h0
        ∙ read_on (read_prop "status" found) _ s shape h1
        ∙ read_on (read_tag "status" found) _ s status h2
        ∙ read_on (read_tag "final_outcome" found) _ s final h3 in
      subst
        (λ r.
          Projected markets
            (market_columns env ledger id (normal env.language found) status final
              (prop "fee_config" found))
            (s.db.tables markets) (r.1.db.tables markets))
        (sym steps)
        (written_then markets _ _ s
          (market-Accepted env ledger id (normal env.language found) status final
            (prop "fee_config" found))
          (market_filled env ledger id (normal env.language found) status final
            (prop "fee_config" found) fees)
          (λ rows. search elsewhere_rules depth 20))

  -- The rest of `reconcilePool`, after the row.
  pool_rest : JsValue → Task (Option ℤ)
  pool_rest found = do
    if_some (normal_id env.language (prop "market_id" (normal env.language found)))
        (λ market. publish (StateUpdate.market env.network market))
    pure (normal_id env.language (prop "market_id" (normal env.language found)))

  pool_rest_returns :
      (found : JsValue) (s : Services)
      → (pool_rest found s).0
        ≡ returned (normal_id env.language (prop "market_id" (normal env.language found)))
  unfolding pool_rest if_some publish pure ◌>>=◌ continue
  pool_rest_returns found s = ground arith

  pool_rest-Keeps : (rows : Rows) (found : JsValue) → Keeps (At pools rows) (pool_rest found)
  unfolding pool_rest
  pool_rest-Keeps rows found = search keeps_rules

  -- A pool that the contract reports with a market is written as it is reported, and `reconcilePool` returns the id of its
  -- market, where that is a number.
  pub reconcile_pool-Projected :
      (id : ℤ) (found shape : JsValue) (s : Services)
      → env.contracts.get_pool id ≡ returned found
      → read_prop "market_id" found ≡ returned shape
      → prop "market_id" (normal env.language found) ≢ JsValue.undefined
      → prop "market_id" (normal env.language found) ≢ JsValue.null
      → ((reconcile_pool env ledger id s).0
          ≡ returned (normal_id env.language (prop "market_id" (normal env.language found))))
        × Projected pools
            (pool_columns env ledger id (normal env.language found))
            (s.db.tables pools)
            ((reconcile_pool env ledger id s).1.db.tables pools)
  unfolding reconcile_pool pool_rest
  reconcile_pool-Projected id found shape s h0 h1 known given =
      let filled = pool_filled env ledger id (normal env.language found) known given in
      let columns = pool_columns env ledger id (normal env.language found) in
      let steps =
        read_on (env.contracts.get_pool id) _ s found h0
        ∙ read_on (read_prop "market_id" found) _ s shape h1 in
      (
        ap (λ r. r.0)
              (steps
                ∙ then_on (save pools columns) _ s _ tt
                    (save-Accepted pools columns s (pool-Accepted env ledger id _) filled))
            ∙ pool_rest_returns found _,
        subst (λ r. Projected pools columns (s.db.tables pools) (r.1.db.tables pools)) (sym steps)
            (written_then pools columns (pool_rest found) s (pool-Accepted env ledger id _) filled
              (λ rows. pool_rest-Keeps rows found)),
      )
