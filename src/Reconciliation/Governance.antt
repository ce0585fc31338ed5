-- ===== src/Reconciliation/Governance.antt =====
-- `fetchRecentApprovalEvents` and `reconcileGovernance` of dike-services/src/jobs/reconciliation.ts.
use dike_monolith.Prelude.{
  ℕ, zero, suc, ◌-◌, max, Option, none, some, List, [], ◌∷◌, String, ◌==◌, string_eq, if◌then◌else◌,
  ltb, length, or_else,
}
use dike_monolith.Prelude.Dict.{insert}
use dike_monolith.Store.Values.{JsValue, SqlValue, end}
use dike_monolith.Store.Upserts.{Columns}
use dike_monolith.Store.Governance.{
  Approvals, is_true, get_latest_governance_approvals, get_mismatch_count,
  get_persistent_mismatch_count, upsert_governance_config, upsert_governance_module,
  upsert_governance_list,
}
use dike_monolith.Observability.Metrics.{
  set_reconciliation_mismatch_count, set_persistent_reconciliation_mismatch_count,
}
use dike_monolith.Observability.Bus.{StateUpdate}
use dike_monolith.Sponsorship.Allowlist.{dike_timelock, market_factory, council_of_dike}
use dike_monolith.Indexer.Source.{
  RawEvent, Request, Response, window, after, next_cursor, decode_raw_event, limit,
}
use dike_monolith.Indexer.Dispatcher.{present}
use dike_monolith.Task.{
  Ended, returned, threw, Task, lift, gets, update, publish, count, ◌>>=◌, ◌>>◌, safely, for_each,
  or_default,
}
use dike_monolith.Reconciliation.Environment.{Environment}
use dike_monolith.Reconciliation.Values.{normal, to_sql}

-- The address of an approval: a text in the second topic that is not empty.
unfoldable pub approval_address : List JsValue → Option String
approval_address (v ∷ (JsValue.string s ∷ vs)) = if s == "" then none else some s
approval_address vs = none

-- `.catch(() => null)` of a read, and then `?? other`.
unfoldable pub known : Ended JsValue → JsValue → JsValue
known read other = or_else (present (or_default read JsValue.null)) other

module _ (env : Environment) where
  -- The loop over the events of a page; the map keeps the place of its first entry for an address.
  unfoldable pub add_approvals : String → String → List RawEvent → Approvals → Approvals
  add_approvals id topic [] m = m
  add_approvals id topic (e ∷ es) m =
      let decoded = decode_raw_event env.codec env.network id none e in
      add_approvals id topic es (
        if decoded.topic == topic
        then elim (approval_address decoded.topic_values) [
          | none ↦ m
          | some address ↦ insert address (is_true decoded.payload) m
        ]
        else m)

  -- The next request, if the loop goes on: a page that is full and has a cursor.
  unfoldable pub next_page : Response → Option Request
  next_page p = elim (next_cursor p.cursor) [
    | none ↦ none
    | some c ↦ if ltb (length p.events) limit then none else some (after c)
  ]

  -- The loop over the pages, with the number of turns left.
  unfoldable pub approval_pages : ℕ → String → String → Request → Approvals → Ended Approvals
  approval_pages zero id topic request m = returned m
  approval_pages (suc n) id topic request m = elim (env.contracts.get_events id request) [
    | threw e ↦ threw e
    | returned page ↦
        let found = add_approvals id topic page.events m in
        elim (next_page page) [
          | none ↦ returned found
          | some next ↦ approval_pages n id topic next found
        ]
  ]

  unfoldable pub fetch_recent_approval_events : String → String → ℕ → Ended Approvals
  fetch_recent_approval_events id topic latest =
      approval_pages 10 id topic (window (max 1 (latest - 5000)) latest) []

  unfoldable pub config_columns : Columns
  config_columns =
      ("treasury", to_sql env.language (known env.contracts.get_treasury JsValue.null))
      ∷ (
        "timelock",
        to_sql env.language
            (known env.contracts.get_timelock (JsValue.string (env.addresses dike_timelock))),
      )
      ∷ (
        "fee_config_json",
        SqlValue.text (
            env.language.json
              (normal env.language (known env.contracts.get_fee_config (JsValue.object end)))),
      )
      ∷ (
        "pause_authority",
        to_sql env.language (known env.contracts.get_pause_authority JsValue.null),
      )
      ∷ []

  -- The approvals of the tables, or of the node where the tables have none.
  unfoldable pub approvals_or_recent : String → String → ℕ → Approvals → Ended Approvals
  approvals_or_recent id topic latest [] = fetch_recent_approval_events id topic latest
  approvals_or_recent id topic latest (a ∷ as') = returned (a ∷ as')

  unfoldable pub save_approvals : String → Approvals → Task Unit
  save_approvals kind approvals =
      for_each approvals (λ a. update (upsert_governance_list env.network kind a.0 a.1))

  abbrev pub roles : List String
  roles =
      "factory" ∷ "registry" ∷ "tokens" ∷ "vault" ∷ "amm" ∷ "oracle" ∷ "council" ∷ "gov"
      ∷ "timelock" ∷ []

  unfoldable pub save_module : String → Task Unit
  save_module role = do
    address ← lift (env.contracts.get_module role)
    update (upsert_governance_module env.network role (env.language.to_text address))

  unfoldable pub reconcile_governance : ℕ → Task Unit
  reconcile_governance latest = do
    update (upsert_governance_config env.network config_columns)
    known_creators ← gets (
        get_latest_governance_approvals env.language.json env.network (env.addresses market_factory)
          "creator")
    known_members ← gets (
        get_latest_governance_approvals env.language.json env.network
          (env.addresses council_of_dike) "member")
    creators ←
        lift (approvals_or_recent (env.addresses market_factory) "creator" latest known_creators)
    members ←
        lift (approvals_or_recent (env.addresses council_of_dike) "member" latest known_members)
    save_approvals "creator" creators
    save_approvals "member" members
    for_each roles (λ role. safely (save_module role))
    mismatches ← gets get_mismatch_count
    persistent ← gets (get_persistent_mismatch_count 2)
    count (set_reconciliation_mismatch_count mismatches)
    count (set_persistent_reconciliation_mismatch_count persistent)
    publish (StateUpdate.governance env.network)
