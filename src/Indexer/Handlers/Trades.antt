-- ===== src/Indexer/Handlers/Trades.antt =====
-- What `dispatchAmm` of dike-services/src/indexer/dispatcher.ts records of a trade.
use dike_monolith.Prelude.{
  ◌≡◌, ◌≢◌, refl, ap, ◌∙◌, arith, Option, some, List, [], ◌∷◌, String, Bool, true, false, string_eq,
  pair_eq, or_else, ◌⊎◌, inl, inr, ==_refl,
}
use dike_monolith.Prelude.Int.{ℤ}
use dike_monolith.Prelude.Dict.{lookup, lookup-insert_new}
use dike_monolith.Store.Tables.{Table}
use dike_monolith.Store.Upserts.{Columns, includes}
use dike_monolith.Store.Database.{Database, EventRecord, insert_trade}
use dike_monolith.Store.Framed.{Framed-refl}
use dike_monolith.Domain.{Outcome}
use dike_monolith.Task.{returned, Services, update, if_some, ◌>>◌}
use dike_monolith.Task.Keeps.{Keeps, keeps_rules}
use dike_monolith.Task.Steps.{then_on}
use dike_monolith.Store.Values.{JsValue}
use dike_monolith.Reconciliation.Environment.{Environment}
use dike_monolith.Reconciliation.Values.{prop, read_prop, normal, normal_id}
use dike_monolith.Reconciliation.Rows.{save, set_rows}
use dike_monolith.Reconciliation.Saves.{save-Keeps}
use dike_monolith.Reconciliation.Reported.{reconcile_pool-Projected}
use dike_monolith.Reconciliation.Frame.{Same, jobs_rules}
use dike_monolith.Reconciliation.Positions.{reconcile_user_position, reconcile_user_vault_state}
use dike_monolith.Reconciliation.Markets.{reconcile_pool}
use dike_monolith.Indexer.Dispatcher.{Handler, route}
use dike_monolith.Indexer.Handlers.Effects.{
  trade_columns, record_trade, record_amm_user_effects, text_at, outcome_at, outcome_list,
}
use dike_monolith.Indexer.Handlers.Events.{number_at}
use dike_monolith.Indexer.Handlers.Markets.{dispatch_amm, pool_changed}
use dike_monolith.Indexer.Handlers.{handle, dispatch}

abbrev IsTrade : String → Type 0
IsTrade topic = (topic ≡ "buy") ⊎ (topic ≡ "sell")

abbrev pool_topics : List String
pool_topics = "seed" ∷ "lp_add" ∷ "lp_rm" ∷ "buy" ∷ "sell" ∷ []

module _ (env : Environment) (e : EventRecord) where
  topic_is :
      (name : String) (topics : List String) (b : Bool)
      → e.topic ≡ name
      → includes topics name ≡ b
      → includes topics e.topic ≡ b
  topic_is name topics b h k = ap (includes topics) h ∙ k

  trade_topic :
      IsTrade e.topic → dispatch_amm env e ≡ if_some (number_at env e 1) (pool_changed env e)
  unfolding dispatch_amm includes
  trade_topic h = elim h [
    | inl b ↦
        ground
          (arith, topic_is "buy" ("pool" ∷ []) false b refl, topic_is "buy" pool_topics true b refl)
    | inr b ↦
        ground (
          arith,
          topic_is "sell" ("pool" ∷ []) false b refl,
          topic_is "sell" pool_topics true b refl,
        )
  ]

  effects_topic :
      (pool market : ℤ) (trader : String)
      → IsTrade e.topic
      → text_at env e (2 ∷ 3 ∷ []) ("trader" ∷ "user" ∷ "buyer" ∷ "seller" ∷ "owner" ∷ []) []
        ≡ some trader
      → record_amm_user_effects env e pool market
        ≡ record_trade env e pool market
            (outcome_at env e (2 ∷ 3 ∷ []) ("outcome" ∷ "side" ∷ "yes" ∷ []) (0 ∷ []))
            trader
  unfolding record_amm_user_effects if_some
  effects_topic pool market trader h k = elim h [ inl b ↦ rw (b, k) refl | inr b ↦ rw (b, k) refl ]

  positions_again :
      (before : Database) (market : ℤ) (o : Option Outcome) (trader : String)
      → Same
          (env.network, e.event_id)
          before
          (reconcile_user_position env e.ledger market trader (outcome_list o)
            >> reconcile_user_vault_state env e.ledger market trader)
  positions_again before market o trader = search jobs_rules depth 20

  -- The rows of a trade stay while the positions of its trader are read again.
  trade_stays :
      (pool market : ℤ) (o : Option Outcome) (trader : String) (s : Services)
      → lookup (env.network, e.event_id) ((record_trade env e pool market o trader s).1.db.trades)
        ≡ some (
            or_else
              (lookup (env.network, e.event_id) s.db.trades)
              (trade_columns env e pool market trader o))
  unfolding record_trade update insert_trade
  trade_stays pool market o trader s =
      let key : String × String = (env.network, e.event_id) in
      let row = trade_columns env e pool market trader o in
      let inserted = insert_trade env.network e.event_id row s.db in
      let after : Services = record s { db = inserted } in
      let frame = (positions_again inserted market o trader).at after (Framed-refl key inserted) in
      ap (λ r. lookup key r.1.db.trades)
        (then_on (update (insert_trade env.network e.event_id row)) _ s after tt refl)
      ∙ frame.trades.keeps key (or_else (lookup key s.db.trades) row)
          (lookup-insert_new key key row s.db.trades ∙ ground (arith, ==_refl key))

  named_value :
      (v : JsValue) (n : ℤ)
      → normal_id env.language v ≡ some n
      → (v ≢ JsValue.undefined) × (v ≢ JsValue.null)
  unfolding normal_id
  named_value v n h = (λ e. cc, λ e. cc)

  TradesAre : List ((String × String) × Columns) → Database → Type 0
  TradesAre rows db = db.trades ≡ rows

  trades_saved :
      (rows : List ((String × String) × Columns)) (t : Table) (columns : Columns)
      → Keeps (TradesAre rows) (save t columns)
  unfolding TradesAre set_rows
  trades_saved rows t columns = save-Keeps (TradesAre rows) t columns (λ own db h. h)

  pool_trades :
      (rows : List ((String × String) × Columns)) (pool : ℤ)
      → Keeps (TradesAre rows) (reconcile_pool env e.ledger pool)
  unfolding reconcile_pool
  pool_trades rows pool = search (keeps_rules, trades_saved) depth 20

  -- A buy or a sell on the AMM, of a pool that the contract reports with a market and of a trader that the event
  -- names, leaves the trade's row under the event's id: the row of this event, or the one that was recorded
  -- for it before. What the contracts answer of the trader's position does not matter.
  pub trade_recorded :
      (pool market : ℤ) (trader : String) (found shape : JsValue) (s : Services)
      → route env.addresses e.contract_id ≡ Handler.amm
      → IsTrade e.topic
      → number_at env e 1 ≡ some pool
      → env.contracts.get_pool pool ≡ returned found
      → read_prop "market_id" found ≡ returned shape
      → normal_id env.language (prop "market_id" (normal env.language found)) ≡ some market
      → text_at env e (2 ∷ 3 ∷ []) ("trader" ∷ "user" ∷ "buyer" ∷ "seller" ∷ "owner" ∷ []) []
        ≡ some trader
      → lookup (env.network, e.event_id) ((dispatch env e s).1.db.trades)
        ≡ some (
            or_else (lookup (env.network, e.event_id) s.db.trades) (
              trade_columns env e pool market trader
                (outcome_at env e (2 ∷ 3 ∷ []) ("outcome" ∷ "side" ∷ "yes" ∷ []) (0 ∷ []))))
  unfolding dispatch handle pool_changed if_some TradesAre
  trade_recorded pool market trader found shape s routed topic numbered h0 h1 named text =
      let (known, given) =
        named_value (prop "market_id" (normal env.language found)) market named in
      let read = (reconcile_pool-Projected env e.ledger pool found shape s h0 h1 known given).0 in
      let outcome = outcome_at env e (2 ∷ 3 ∷ []) ("outcome" ∷ "side" ∷ "yes" ∷ []) (0 ∷ []) in
      let after : Services = (reconcile_pool env e.ledger pool s).1 in
      let same = (pool_trades s.db.trades pool).at s refl in
      let steps : dispatch env e s ≡ record_trade env e pool market outcome trader after =
        ap (λ h. handle env e h s) routed
        ∙ ap (λ m. m s) (trade_topic topic)
        ∙ ap (λ o. if_some o (pool_changed env e) s) numbered
        ∙ then_on (reconcile_pool env e.ledger pool) _ s after (some market)
            (ap (λ r. (r, after)) (read ∙ ap returned named))
        ∙ ap (λ m. m after) (effects_topic pool market trader topic text) in
      ap (λ r. lookup (env.network, e.event_id) r.1.db.trades) steps
      ∙ trade_stays pool market outcome trader after
      ∙ ap
          (λ t. some (
            or_else (lookup (env.network, e.event_id) t)
              (trade_columns env e pool market trader outcome)))
          same
