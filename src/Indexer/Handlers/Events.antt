-- ===== src/Indexer/Handlers/Events.antt =====
-- What the handlers of dike-services/src/indexer/dispatcher.ts read of an event, and the branches they share.
use dike_monolith.Prelude.{ℕ, Bool, Option, List, [], ◌∷◌, String, string_eq}
use dike_monolith.Prelude.Int.{ℤ}
use dike_monolith.Store.Upserts.{includes}
use dike_monolith.Store.Database.{EventRecord}
use dike_monolith.Domain.{Outcome}
use dike_monolith.Task.{Task, ◌>>◌, if_some}
use dike_monolith.Indexer.Dispatcher.{numeric_value, first_string, first_outcome}
use dike_monolith.Indexer.Handlers.Effects.{topic_at}
use dike_monolith.Reconciliation.Environment.{Environment}
use dike_monolith.Reconciliation.Requests.{reconcile_request}
use dike_monolith.Reconciliation.Markets.{reconcile_market}
use dike_monolith.Reconciliation.Governance.{reconcile_governance}

module _ (env : Environment) (e : EventRecord) where
  -- `numericValue(topicValues[i])` and `numericValue(payload)`.
  abbrev pub number_at : ℕ → Option ℤ
  number_at i = numeric_value env.language.to_number (topic_at e.topic_values i)

  abbrev pub payload_number : Option ℤ
  payload_number = numeric_value env.language.to_number e.payload

  -- The `case` labels of a branch.
  abbrev pub topic_in : List String → Bool
  topic_in topics = includes topics e.topic

  abbrev pub governance_changed : Task Unit
  governance_changed = reconcile_governance env e.ledger

  abbrev pub market_changed : Option ℤ → Task Unit
  market_changed id = if_some id (reconcile_market env e.ledger)

  -- The branch `res_req`, which the registry and the oracle share.
  unfoldable pub resolution_requested : Task Unit
  resolution_requested = do
    market_changed (number_at 1)
    if_some payload_number (reconcile_request env e.ledger)

  abbrev pub owner_at : List ℕ → List String → List ℕ → Option String
  owner_at topics keys indexes =
      first_string env.language.to_text e.topic_values e.payload topics keys indexes

  abbrev pub moved_outcome : Option Outcome
  moved_outcome =
      first_outcome env.language.to_text e.topic_values e.payload [] ("outcome" ∷ []) (0 ∷ [])
