-- ===== src/Indexer/Handlers/Tests.antt =====
-- The theorems of the dispatch on a trade of the sample chain.
use dike_monolith.Prelude.{◌≡◌, refl, inl, none, some, [], ◌∷◌, or_else, string_eq, pair_eq, false}
use dike_monolith.Prelude.Int.{pos}
use dike_monolith.Prelude.Dict.{lookup}
use dike_monolith.Store.Values.{JsValue}
use dike_monolith.Store.Framed.{Framed}
use dike_monolith.Observability.Metrics.{new_metrics}
use dike_monolith.Indexer.Source.{Settings, Node}
use dike_monolith.Indexer.Codecs.{normalize_contract_value}
use dike_monolith.Indexer.Worker.{Worker, Sessions, tick}
use dike_monolith.Indexer.Dispatcher.{
  route, handler_of, contract_module_for, first_string, first_read, first_of, read_of, or_next,
  value_at, present, string_value, full_text, numeric_value,
}
use dike_monolith.Sponsorship.Allowlist.{find_module}
use dike_monolith.Reconciliation.Values.{prop, read_prop, normal, normal_id}
use dike_monolith.Reconciliation.Sample.{environment, services, database, event, pool}
use dike_monolith.Indexer.Handlers.{dispatch}
use dike_monolith.Indexer.Handlers.Effects.{topic_at, trade_columns, outcome_at}
use dike_monolith.Indexer.Handlers.Frame.{dispatch-Framed}
use dike_monolith.Indexer.Handlers.Trades.{trade_recorded}
use dike_monolith.Indexer.Handlers.Whole.{dispatch_event, Retains, tick-Retains}

dispatch_example : Framed ("testnet", "e") services.db (dispatch environment event services).1.db
dispatch_example = dispatch-Framed environment event services

-- The trader GA buys from pool 3, of market 7.
trade_example :
    lookup ("testnet", "e") ((dispatch environment event services).1.db.trades)
    ≡ some (
        or_else (lookup ("testnet", "e") services.db.trades) (
          trade_columns environment event
            (pos 3)
            (pos 7)
            "GA"
            (outcome_at environment event (2 ∷ 3 ∷ []) ("outcome" ∷ "side" ∷ "yes" ∷ []) (0 ∷ []))))
unfolding route handler_of contract_module_for find_module numeric_value topic_at read_prop prop
    lookup normal_id normal normalize_contract_value first_string first_read first_of read_of
    or_next value_at present string_value full_text
trade_example =
    trade_recorded environment event (pos 3) (pos 7) "GA" pool (JsValue.number (pos 7)) services
      refl (inl refl) refl refl refl refl refl

abbrev settings : Settings
settings = record {
  network = "testnet";
  start_ledger = some 10;
  ledger_window = 5;
  safety_margin = 3;
}

abbrev node : Node
node = record {
  latest = some 20;
  get_events = λ r. some (record {
    events = record { ledger = 11; id = "e"; tx_hash = "t"; topic = "buy" ∷ []; value = "v" } ∷ [];
    cursor = none;
  });
}

abbrev worker : Worker
worker = record {
  running = false;
  db = record database { trades = (("testnet", "old"), []) ∷ [] };
  metrics = new_metrics;
}

abbrev sessions : Sessions
sessions = record { acquire = some 1; release = some 2 }

rows_example :
    Retains worker.db
      (tick environment.codec settings
        (λ id. node)
        (dispatch_event (λ e. environment))
        sessions
        5
        worker).db
rows_example =
    tick-Retains environment.codec settings (λ id. node) (λ e. environment) sessions 5 worker
