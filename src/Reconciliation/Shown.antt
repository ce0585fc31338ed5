-- ===== src/Reconciliation/Shown.antt =====
-- The row of one market in the database, while dike-services/src/jobs/reconciliation.ts goes on with others.
use dike_monolith.Prelude.{
  ◌≡◌, ◌≢◌, refl, ap, sym, subst, ◌∙◌, arith, inl, inr, List-cases, ℕ, some, [], ◌∷◌, String,
  string_eq, nat_eq,
}
use dike_monolith.Prelude.Int.{ℤ, pos}
use dike_monolith.Prelude.Dict.{lookup}
use dike_monolith.Store.Values.{JsValue, SqlValue}
use dike_monolith.Store.Tables.{markets, key_columns}
use dike_monolith.Store.Upserts.{
  Columns, RowKey, row_key_eq, Rows, key_of, write, null_columns, value_of, given, value_of-write,
}
use dike_monolith.Store.Database.{Database}
use dike_monolith.Task.{returned, Task}
use dike_monolith.Task.Keeps.{Keeps, keeps_rules, Keeps-update}
use dike_monolith.Task.Returns.{Ensures}
use dike_monolith.Reconciliation.Environment.{Environment}
use dike_monolith.Reconciliation.Values.{prop, read_prop, read_tag, normal}
use dike_monolith.Reconciliation.Rows.{save}
use dike_monolith.Reconciliation.Accepted.{market-Accepted}
use dike_monolith.Reconciliation.Projected.{set_rows-at, save-Accepted, save_refused}
use dike_monolith.Reconciliation.Elsewhere.{
  Elsewhere, pool-Elsewhere, request-Elsewhere, note_elsewhere,
}
use dike_monolith.Reconciliation.Requests.{reconcile_request}
use dike_monolith.Reconciliation.Markets.{
  reconcile_pool_of, market_columns, not_tradeable, reconcile_market,
}
use dike_monolith.Reconciliation.Reported.{reconcile_market-Projected}

-- The row of a market.
abbrev pub market_key : String → ℤ → RowKey
market_key network id = some (SqlValue.text network) ∷ (some (SqlValue.number id) ∷ [])

-- The row of a market holds what a summary gives.
pub record Shows (network : String) (id : ℤ) (columns : Columns) (db : Database) : Type 0 where
  pub at :
      (c : String) (v : SqlValue)
      → given c columns ≡ some v
      → value_of (market_key network id) c (db.tables markets) ≡ some v

-- A task that does not write the table.
pub Elsewhere-Shows :
    {A : Type 0} (network : String) (id : ℤ) (columns : Columns) (m : Task A)
    → ((rows : Rows) → Elsewhere rows m)
    → Keeps (Shows network id columns) m
Elsewhere-Shows network id columns m k = record {
  at = λ s h. record {
    at = λ c v g.
        ap (value_of (market_key network id) c) ((k (s.db.tables markets)).at s refl) ∙ h.at c v g;
  };
}

id_of : RowKey → ℤ
id_of (k ∷ (some (SqlValue.number n) ∷ ks)) = n
id_of _ = pos 0

key_apart :
    (network : String) (id other : ℤ)
    → id ≢ other
    → market_key network other ≢ market_key network id
unfolding id_of
key_apart network id other h e = h (sym (ap id_of e))

module _ (env : Environment) (ledger : ℕ) where
  market_columns_key :
      (id : ℤ) (n status final fees : JsValue)
      → key_of markets (market_columns env ledger id n status final fees)
        ≡ market_key env.network id
  unfolding key_of key_columns market_columns lookup
  market_columns_key id n status final fees = refl

  -- The write of another market.
  other_saved :
      (id other : ℤ) (columns : Columns)
      → id ≢ other
      → (n status final fees : JsValue)
      → Keeps
          (Shows env.network id columns)
          (save markets (market_columns env ledger other n status final fees))
  other_saved id other columns apart n status final fees =
      let summary = market_columns env ledger other n status final fees in
      let accepted = market-Accepted env ledger other n status final fees in
      record {
        at = λ s h. elim (List-cases (null_columns markets summary)) [
          | inr (k, ks, null) ↦
              subst (λ r. Shows env.network id columns r.db)
                (sym (save_refused markets summary s k ks accepted null)) h
          | inl filled ↦ record {
            at = λ c v g.
                ap (λ r. value_of (market_key env.network id) c (r.1.db.tables markets))
                  (save-Accepted markets summary s accepted filled)
                ∙ ap (value_of (market_key env.network id) c) (
                    set_rows-at markets
                      (write (key_of markets summary) summary (s.db.tables markets)) s.db)
                ∙ value_of-write (key_of markets summary) (market_key env.network id) c summary
                    (s.db.tables markets)
                ∙ ground (
                  arith,
                  market_columns_key other n status final fees,
                  key_apart env.network id other apart,
                  row_key_eq.beq_iff (key_of markets summary) (market_key env.network id),
                  h.at c v g,
                );
          }
        ];
      }

  pool-Shows :
      (id pool : ℤ) (columns : Columns)
      → Keeps (Shows env.network id columns) (reconcile_pool_of env ledger pool)
  pool-Shows id pool columns =
      Elsewhere-Shows env.network id columns _ (λ rows. pool-Elsewhere rows env ledger pool)

  request-Shows :
      (id request : ℤ) (columns : Columns)
      → Keeps (Shows env.network id columns) (reconcile_request env ledger request)
  request-Shows id request columns =
      Elsewhere-Shows env.network id columns _ (λ rows. request-Elsewhere rows env ledger request)

  note-Shows :
      (id other : ℤ) (columns : Columns)
      → Keeps (Shows env.network id columns) (not_tradeable env ledger other)
  unfolding not_tradeable
  note-Shows id other columns =
      Elsewhere-Shows env.network id columns _
        (λ rows. Keeps-update _ (note_elsewhere rows env.network "market_registry" _ _))

  -- The reconciliation of another market.
  pub other-Shows :
      (id other : ℤ) (columns : Columns)
      → id ≢ other
      → Keeps (Shows env.network id columns) (reconcile_market env ledger other)
  unfolding reconcile_market
  other-Shows id other columns apart =
      search
        (keeps_rules, other_saved id other columns apart, pool-Shows, request-Shows, note-Shows)
        depth 20

  -- The market's own.
  pub own-Shows :
      (id : ℤ) (found shape status final : JsValue)
      → env.contracts.get_market id ≡ returned found
      → read_prop "status" found ≡ returned shape
      → read_tag "status" found ≡ returned status
      → read_tag "final_outcome" found ≡ returned final
      → prop "fee_config" found ≢ JsValue.undefined
      → Ensures
          (Shows env.network id (
            market_columns env ledger id
              (normal env.language found)
              status
              final
              (prop "fee_config" found)))
          (reconcile_market env ledger id)
  own-Shows id found shape status final h0 h1 h2 h3 fees =
      let columns =
        market_columns env ledger id (normal env.language found) status final
          (prop "fee_config" found) in
      record {
        at = λ s. record {
          at = λ c v g.
              let row =
                reconcile_market-Projected env ledger id found shape status final s h0 h1 h2 h3
                  fees in
              subst
                (λ key.
                  value_of key c ((reconcile_market env ledger id s).1.db.tables markets) ≡ some v)
                (market_columns_key id (normal env.language found) status final
                  (prop "fee_config" found))
                (row.own c ∙ ground (arith, g));
        };
      }
