-- ===== src/Reconciliation/Tests.antt =====
-- The theorems of the reconciliation on the sample chain.
use dike_monolith.Prelude.{refl, arith}
use dike_monolith.Prelude.Dict.{lookup}
use dike_monolith.Prelude.Int.{pos}
use dike_monolith.Store.Values.{JsValue}
use dike_monolith.Store.Tables.{markets}
use dike_monolith.Reconciliation.Values.{prop, read_prop, read_tag, normal}
use dike_monolith.Reconciliation.Markets.{market_columns, reconcile_market}
use dike_monolith.Reconciliation.Projected.{Projected}
use dike_monolith.Reconciliation.Reported.{reconcile_market-Projected}
use dike_monolith.Reconciliation.Sample.{tag, market, environment, services}

-- A market whose pool, request and case are not there.
reported_example :
    Projected markets
      (market_columns environment 11
        (pos 7)
        (normal environment.language market)
        (JsValue.string "Live")
        (JsValue.string "Invalid")
        (prop "fee_config" market))
      (services.db.tables markets)
      ((reconcile_market environment 11 (pos 7) services).1.db.tables markets)
unfolding read_prop read_tag prop lookup
reported_example =
    reconcile_market-Projected environment 11 (pos 7) market (tag "Live") (JsValue.string "Live")
      (JsValue.string "Invalid") services refl refl refl refl (λ e. ground (arith, e))
