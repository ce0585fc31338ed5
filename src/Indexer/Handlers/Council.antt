-- ===== src/Indexer/Handlers/Council.antt =====
-- The handlers of the council and the timelock in dike-services/src/indexer/dispatcher.ts.
use dike_monolith.Prelude.{true, Option, none, some, [], ◌∷◌, String, string_eq, if◌then◌else◌}
use dike_monolith.Prelude.Int.{ℤ}
use dike_monolith.Store.Values.{JsValue, SqlValue}
use dike_monolith.Store.Tables.{council_votes, timelock_actions}
use dike_monolith.Store.Upserts.{Columns}
use dike_monolith.Store.Database.{EventRecord}
use dike_monolith.Domain.{Outcome, outcome_text}
use dike_monolith.Task.{Task, pure, lift, ◌>>=◌, ◌>>◌, safely, if_some}
use dike_monolith.Indexer.Dispatcher.{record_value}
use dike_monolith.Indexer.Handlers.Effects.{amount_at}
use dike_monolith.Reconciliation.Environment.{Environment}
use dike_monolith.Reconciliation.Values.{json_column, prop, read_prop, read_tag, to_sql}
use dike_monolith.Reconciliation.Rows.{save}
use dike_monolith.Reconciliation.Summaries.{own, required}
use dike_monolith.Reconciliation.Requests.{reconcile_case}
use dike_monolith.Indexer.Handlers.Events.{
  number_at, payload_number, topic_in, governance_changed, owner_at, moved_outcome,
}

module _ (env : Environment) (e : EventRecord) where
  abbrev pub case_changed : Option ℤ → Task Unit
  case_changed id = if_some id (reconcile_case env e.ledger)

  abbrev pub vote_key : ℤ → String → Columns → Columns
  vote_key id voter columns =
      ("network", SqlValue.text env.network)
      ∷ ("case_id", SqlValue.number id)
      ∷ ("voter", SqlValue.text voter)
      ∷ columns

  -- The case, and then the vote of a voter that the event names.
  unfoldable pub vote_changed : Columns → Task Unit
  vote_changed columns = do
    case_changed (number_at env e 1)
    if_some (number_at env e 1) (λ id.
        if_some (owner_at env e (2 ∷ []) [] [])
          (λ voter. save council_votes (vote_key id voter columns)))

  unfoldable pub committed : Columns
  committed = ("has_commit", SqlValue.boolean true) ∷ []

  unfoldable pub outcome_or_null : Option Outcome → SqlValue
  outcome_or_null none = SqlValue.null
  outcome_or_null (some o) = SqlValue.text (outcome_text o)

  unfoldable pub revealed : Columns
  revealed =
      ("has_reveal", SqlValue.boolean true)
      ∷ ("revealed_outcome", outcome_or_null (moved_outcome env e))
      ∷ []

  -- `typeof correct === "boolean" ? correct : undefined`.
  unfoldable pub truth_or_null : Option JsValue → SqlValue
  truth_or_null (some (JsValue.boolean b)) = SqlValue.boolean b
  truth_or_null _ = SqlValue.null

  unfoldable pub rewarded : Columns
  rewarded =
      ("claimed_reward", SqlValue.boolean true)
      ∷ ("correct", truth_or_null (record_value e.payload ("correct" ∷ []) (0 ∷ [])))
      ∷ ("reward_amount", SqlValue.text (amount_at env e ("payout" ∷ []) (1 ∷ [])))
      ∷ []

  unfoldable pub dispatch_council : Task Unit
  dispatch_council =
      if topic_in env e ("case" ∷ [])
      then case_changed (payload_number env e)
      else if topic_in env e ("casefin" ∷ [])
      then case_changed (number_at env e 1)
      else if topic_in env e ("commit" ∷ [])
      then vote_changed committed
      else if topic_in env e ("reveal" ∷ [])
      then vote_changed revealed
      else if topic_in env e ("reward" ∷ [])
      then vote_changed rewarded
      else if topic_in env e ("role" ∷ "member" ∷ "pause" ∷ [])
      then governance_changed env e
      else pure tt

  -- The `try` block of `dispatchTimelock`.
  unfoldable pub save_action : ℤ → Task Unit
  save_action id = do
    action ← lift (env.contracts.get_timelock_action id)
    lift (read_prop "kind" action)
    kind ← lift (read_tag "kind" action)
    payload_hash ← lift (env.language.hex (prop "payload_hash" action))
    execute_after ← lift (required (env.language.number_of (prop "execute_after" action)))
    expires_at ← lift (required (env.language.number_of (prop "expires_at" action)))
    save timelock_actions (
        ("network", SqlValue.text env.network)
        ∷ ("action_id", SqlValue.number id)
        ∷ ("kind", to_sql env.language kind)
        ∷ ("target", SqlValue.text (env.language.to_text (prop "target" action)))
        ∷ ("payload_hash", SqlValue.text payload_hash)
        ∷ ("payload_json", json_column env.language (prop "payload" action))
        ∷ ("execute_after", SqlValue.number execute_after)
        ∷ ("expires_at", SqlValue.number expires_at)
        ∷ ("executed", to_sql env.language (prop "executed" action))
        ∷ ("cancelled", to_sql env.language (prop "cancelled" action))
        ∷ own env e.ledger)

  unfoldable pub action_changed : Task Unit
  action_changed = do
    governance_changed env e
    if_some (number_at env e 1) (λ id. safely (save_action id))

  unfoldable pub dispatch_timelock : Task Unit
  dispatch_timelock =
      if topic_in env e ("roles" ∷ [])
      then governance_changed env e
      else if topic_in env e ("queued" ∷ "cancel" ∷ "execute" ∷ [])
      then action_changed
      else pure tt
