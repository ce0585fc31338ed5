-- ===== src/Indexer/Handlers/Tokens.antt =====
-- The handlers of the vault and the conditional tokens in dike-services/src/indexer/dispatcher.ts.
use dike_monolith.Prelude.{Option, List, [], ◌∷◌, String, string_eq, if◌then◌else◌}
use dike_monolith.Prelude.Int.{ℤ}
use dike_monolith.Store.Database.{EventRecord}
use dike_monolith.Domain.{Outcome, yes, no}
use dike_monolith.Task.{Task, pure, ◌>>◌, if_some}
use dike_monolith.Indexer.Handlers.Effects.{record_vault_user_effects}
use dike_monolith.Reconciliation.Environment.{Environment}
use dike_monolith.Reconciliation.Positions.{
  reconcile_vault, reconcile_user_position, reconcile_user_vault_state,
}
use dike_monolith.Indexer.Handlers.Events.{
  number_at, topic_in, governance_changed, owner_at, moved_outcome,
}

module _ (env : Environment) (e : EventRecord) where
  unfoldable pub vault_changed : ℤ → Task Unit
  vault_changed market = do
    reconcile_vault env e.ledger market
    record_vault_user_effects env e market

  -- One of the two markets of the branch `cfund`, `cpay`.
  unfoldable pub child_funded : Option String → ℤ → Task Unit
  child_funded owner market = do
    reconcile_vault env e.ledger market
    if_some owner (reconcile_user_vault_state env e.ledger market)

  unfoldable pub children_funded : Task Unit
  children_funded = do
    if_some (number_at env e 1)
        (child_funded (owner_at env e (3 ∷ []) ("user" ∷ "owner" ∷ []) (0 ∷ [])))
    if_some (number_at env e 2)
        (child_funded (owner_at env e (3 ∷ []) ("user" ∷ "owner" ∷ []) (0 ∷ [])))

  unfoldable pub dispatch_collateral_vault : Task Unit
  dispatch_collateral_vault =
      if topic_in env e ("deposit" ∷ "release" ∷ "redeem" ∷ "fee" ∷ [])
      then if_some (number_at env e 1) vault_changed
      else if topic_in env e ("cfund" ∷ "cpay" ∷ [])
      then children_funded
      else if topic_in env e ("role" ∷ "treas" ∷ "pause" ∷ "bond" ∷ "bond_rel" ∷ [])
      then governance_changed env e
      else pure tt

  -- The position of an owner that the event may name.
  unfoldable pub position_changed : Option String → List Outcome → ℤ → Task Unit
  position_changed owner os market =
      if_some owner (λ o. reconcile_user_position env e.ledger market o os)

  unfoldable pub position_transferred : ℤ → Outcome → Task Unit
  position_transferred market outcome = do
    position_changed (owner_at env e (2 ∷ []) ("from" ∷ []) []) (outcome ∷ []) market
    position_changed (owner_at env e (3 ∷ []) ("to" ∷ []) []) (outcome ∷ []) market

  unfoldable pub dispatch_conditional_tokens : Task Unit
  dispatch_conditional_tokens =
      if topic_in env e ("split" ∷ "merge" ∷ [])
      then if_some (number_at env e 1) (
          position_changed (owner_at env e (2 ∷ []) ("user" ∷ "owner" ∷ "to" ∷ []) [])
            (yes ∷ no ∷ []))
      else if topic_in env e ("pos_xfer" ∷ [])
      then if_some (number_at env e 1)
          (λ market. if_some (moved_outcome env e) (position_transferred market))
      else if topic_in env e ("burn" ∷ "losebrn" ∷ [])
      then if_some (number_at env e 1) (λ market. if_some (moved_outcome env e) (λ o.
        position_changed (owner_at env e (2 ∷ []) ("owner" ∷ "user" ∷ "from" ∷ []) []) (o ∷ [])
          market))
      else if topic_in env e ("role" ∷ "pause" ∷ [])
      then governance_changed env e
      else pure tt
