-- ===== src/Indexer/Handlers/Markets.antt =====
-- The handlers of the factory, the registry, the AMM and the oracle in dike-services/src/indexer/dispatcher.ts.
use dike_monolith.Prelude.{[], ◌∷◌, string_eq, if◌then◌else◌}
use dike_monolith.Prelude.Int.{ℤ}
use dike_monolith.Store.Database.{EventRecord}
use dike_monolith.Task.{Task, pure, ◌>>=◌, ◌>>◌, if_some}
use dike_monolith.Indexer.Dispatcher.{amount_value, first_string}
use dike_monolith.Indexer.Handlers.Effects.{record_amm_user_effects}
use dike_monolith.Reconciliation.Environment.{Environment}
use dike_monolith.Reconciliation.Requests.{reconcile_request}
use dike_monolith.Reconciliation.Markets.{reconcile_pool, reconcile_pool_of}
use dike_monolith.Reconciliation.Positions.{record_lp_fees_claimed}
use dike_monolith.Indexer.Handlers.Events.{
  number_at, payload_number, topic_in, governance_changed, market_changed, resolution_requested,
}

module _ (env : Environment) (e : EventRecord) where
  unfoldable pub dispatch_market_factory : Task Unit
  dispatch_market_factory =
      if topic_in env e ("mkt_new" ∷ [])
      then market_changed env e (number_at env e 1)
      else if topic_in env e ("modules" ∷ "creator" ∷ "collat" ∷ "pause" ∷ [])
      then governance_changed env e
      else pure tt

  unfoldable pub dispatch_market_registry : Task Unit
  dispatch_market_registry =
      if topic_in env e ("mkt_new" ∷ "status" ∷ "final" ∷ "fee_cfg" ∷ [])
      then market_changed env e (number_at env e 1)
      else if topic_in env e ("res_req" ∷ [])
      then resolution_requested env e
      else if topic_in env e ("role" ∷ "collat" ∷ "pause" ∷ [])
      then governance_changed env e
      else pure tt

  unfoldable pub pool_created : Task Unit
  pool_created = do
    market_changed env e (number_at env e 1)
    if_some (payload_number env e) (reconcile_pool_of env e.ledger)

  unfoldable pub pool_changed : ℤ → Task Unit
  pool_changed pool = do
    market ← reconcile_pool env e.ledger pool
    if_some market (record_amm_user_effects env e pool)

  unfoldable pub pool_fees_claimed : ℤ → Task Unit
  pool_fees_claimed pool =
      if_some (first_string env.language.to_text e.topic_values e.payload (2 ∷ []) [] []) (λ lp.
        record_lp_fees_claimed env e.ledger pool lp (amount_value env.language.to_text e.payload)
          e.event_id)

  unfoldable pub dispatch_amm : Task Unit
  dispatch_amm =
      if topic_in env e ("pool" ∷ [])
      then pool_created
      else if topic_in env e ("seed" ∷ "lp_add" ∷ "lp_rm" ∷ "buy" ∷ "sell" ∷ [])
      then if_some (number_at env e 1) pool_changed
      else if topic_in env e ("lpfee" ∷ [])
      then if_some (number_at env e 1) pool_fees_claimed
      else if topic_in env e ("role" ∷ "pause" ∷ [])
      then governance_changed env e
      else pure tt

  unfoldable pub dispatch_cod_oracle : Task Unit
  dispatch_cod_oracle =
      if topic_in env e ("res_req" ∷ [])
      then resolution_requested env e
      else if topic_in env e ("propose" ∷ "dispute" ∷ "final" ∷ "cod_fin" ∷ "escal" ∷ [])
      then if_some (number_at env e 1) (reconcile_request env e.ledger)
      else if topic_in env e ("role" ∷ "pause" ∷ [])
      then governance_changed env e
      else pure tt
