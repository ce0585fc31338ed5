-- ===== src/Jobs/Sweep.antt =====
-- That a tick of dike-services/src/jobs/scheduled.ts reaches each market, whatever the other steps come to.
use dike_monolith.Prelude.{
  ℕ, ◌≤◌, ◌<◌, ◌≡◌, ◌≢◌, inl, inr, ap, sym, subst, ◌∙◌, true, false, some, List, [], ◌∷◌, ◌++◌,
  string_eq, nat_eq, ◌==◌, arith, Bool-cases,
}
use dike_monolith.Prelude.Int.{ℤ, pos, negsuc}
use dike_monolith.Prelude.Dict.{lookup}
use dike_monolith.Store.Values.{JsValue}
use dike_monolith.Store.Upserts.{Columns}
use dike_monolith.Store.Database.{Database}
use dike_monolith.Task.{returned, safely, for_each, if_some, ◌>>◌}
use dike_monolith.Task.Steps.{read_on}
use dike_monolith.Task.Keeps.{Keeps, keeps_rules}
use dike_monolith.Task.Returns.{
  Returns, returns_rules, Returns-gets, Returns-safely, Ensures, Ensures-safely, Ensures-Keeps,
  Ensures-first, Ensures-rest, Ensures-for_each,
}
use dike_monolith.Reconciliation.Environment.{Environment}
use dike_monolith.Reconciliation.Values.{prop, read_prop, read_tag, normal}
use dike_monolith.Reconciliation.Markets.{market_columns, reconcile_market}
use dike_monolith.Reconciliation.Positions.{reconcile_vault}
use dike_monolith.Reconciliation.Elsewhere.{elsewhere_rules}
use dike_monolith.Reconciliation.Shown.{Shows, Elsewhere-Shows, other-Shows, own-Shows}
use dike_monolith.Jobs.{has, discover_market_ids, discovers, max_safe_integer}
use dike_monolith.Jobs.Scheduled.{
  Scope, Client, map_of, env, positions_step, lp_step, market_step, actions_step, reconcile_markets,
  reconcile_all, run, ScheduledJobs, tick,
}

-- An element of a list splits it.
split_at :
    (y : ℕ) (xs : List ℕ)
    → has y xs ≡ true
    → (before : List ℕ) × (after : List ℕ) × (xs ≡ before ++ (y ∷ after))
unfolding has
split_at y [] h = absurd (ground (arith, h))
split_at y (x ∷ xs) h = elim (Bool-cases (y == x)) [
  | inl e ↦ ([], xs, ap (λ z. z ∷ xs) (ground (arith, nat_eq.beq_iff y x, e)))
  | inr e ↦
      let (before, after, p) = split_at y xs (ground (arith, h, e)) in
      (x ∷ before, after, ap (λ zs. x ∷ zs) p)
]

size : ℤ → ℕ
size (pos n) = n
size (negsuc n) = 0

module _ (fixed : Environment) (client : Client) (ledger : ℕ) where
  market_step-Returns :
      (pools : List (ℕ × ℕ)) (id : ℕ) → Returns (market_step fixed client ledger pools id)
  unfolding market_step positions_step lp_step
  market_step-Returns pools id = search returns_rules depth 20

  pub reconcile_markets-Returns : Returns (reconcile_markets fixed client ledger)
  unfolding reconcile_markets
  reconcile_markets-Returns = search (returns_rules, market_step-Returns) depth 20

  pub reconcile_all-Returns : Returns (reconcile_all fixed client ledger)
  unfolding reconcile_all actions_step
  reconcile_all-Returns = search (returns_rules, reconcile_markets-Returns) depth 20

  module _ (id : ℕ) (found shape status final : JsValue)
      (h0 : (client.contracts (Scope.market id)).get_market (pos id) ≡ returned found)
      (h1 : read_prop "status" found ≡ returned shape)
      (h2 : read_tag "status" found ≡ returned status)
      (h3 : read_tag "final_outcome" found ≡ returned final)
      (fees : prop "fee_config" found ≢ JsValue.undefined) where
    abbrev pub reported : Columns
    reported =
        market_columns (env fixed client (Scope.market id)) ledger (pos id)
          (normal fixed.language found) status final (prop "fee_config" found)

    abbrev IsShown : Database → Type 0
    IsShown = Shows fixed.network (pos id) reported

    market_ensured :
        Ensures IsShown (reconcile_market (env fixed client (Scope.market id)) ledger (pos id))
    market_ensured =
        own-Shows (env fixed client (Scope.market id)) ledger (pos id) found shape status final h0
          h1 h2 h3 fees

    market_kept :
        (j : ℕ)
        → Keeps IsShown (reconcile_market (env fixed client (Scope.market j)) ledger (pos j))
    market_kept j = elim (Bool-cases (id == j)) [
      | inl e ↦
          subst
            (λ i.
              Keeps IsShown (reconcile_market (env fixed client (Scope.market i)) ledger (pos i)))
            (ground (arith, e, nat_eq.beq_iff id j)) (Ensures-Keeps _ market_ensured)
      | inr e ↦
          other-Shows (env fixed client (Scope.market j)) ledger (pos id) (pos j) reported
            (λ p. absurd (ground (arith, e, nat_eq.beq_iff id j, ap size p)))
    ]

    rest_kept :
        (j : ℕ) (pools : List (ℕ × ℕ))
        → Keeps IsShown (
            safely (reconcile_vault (env fixed client (Scope.vault j)) ledger (pos j))
            >> (positions_step fixed client ledger j
                >> if_some (lookup j pools) (lp_step fixed client ledger j)))
    unfolding positions_step lp_step
    rest_kept j pools =
        Elsewhere-Shows fixed.network (pos id) reported _ (λ rows. search elsewhere_rules depth 30)

    step_kept :
        (pools : List (ℕ × ℕ)) (j : ℕ) → Keeps IsShown (market_step fixed client ledger pools j)
    unfolding market_step
    step_kept pools j = search (keeps_rules, market_kept, rest_kept) depth 20

    step_ensured :
        (pools : List (ℕ × ℕ)) → Ensures IsShown (market_step fixed client ledger pools id)
    unfolding market_step
    step_ensured pools =
        Ensures-first _ _ (Ensures-safely _ market_ensured) (λ u. rest_kept id pools)

    loop_ensured :
        (pools : List (ℕ × ℕ)) (ids : List ℕ)
        → has id ids ≡ true
        → Ensures IsShown (for_each ids (market_step fixed client ledger pools))
    loop_ensured pools ids h =
        let (before, after, p) = split_at id ids h in
        subst (λ l. Ensures IsShown (for_each l (market_step fixed client ledger pools))) (sym p)
          (Ensures-for_each before id after _ (market_step-Returns pools) (step_kept pools)
            (step_ensured pools))

    actions_kept : (j : ℕ) → Keeps IsShown (actions_step fixed client ledger j)
    unfolding actions_step
    actions_kept j =
        Elsewhere-Shows fixed.network (pos id) reported _ (λ rows. search elsewhere_rules depth 30)

    module _ (next : ℕ) (counted : client.get_next_market_id ≡ some next) (least : 1 ≤ id)
        (below : id < next) (safe : next ≤ max_safe_integer) where
      listed :
          (known : List ℕ) → has id (discover_market_ids client.get_next_market_id known) ≡ true
      listed known =
          ap (λ n. has id (discover_market_ids n known)) counted
          ∙ ((discovers next known (omega (arith, least, below)) safe).0 id).1 (inr (least, below))

      markets_ensured : Ensures IsShown (reconcile_markets fixed client ledger)
      unfolding reconcile_markets
      markets_ensured = Ensures-rest _ _ (Returns-gets _) (λ known.
          Ensures-rest _ _ (Returns-gets _)
            (λ pools. loop_ensured (map_of pools []) _ (listed known)))

      all_ensured : Ensures IsShown (reconcile_all fixed client ledger)
      unfolding reconcile_all
      all_ensured = Ensures-rest _ _ (Returns-safely _) (λ u.
          Ensures-first _ _ markets_ensured (λ v. search (keeps_rules, actions_kept) depth 20))

-- After a tick of jobs that are not running yet, which can read the latest ledger and the factory's counter, a safe
-- integer, each market from 1 on below the counter that the registry reports with a fee config, and a status and an
-- outcome that have tags, has the row that it is reported with, even if every other step of the tick fails; and
-- the jobs are not running.
pub tick-Shows :
    (fixed : Environment) (client : Client) (jobs : ScheduledJobs) (ledger next id : ℕ)
    (found shape status final : JsValue)
    → jobs.running ≡ false
    → client.get_latest_ledger ≡ returned ledger
    → client.get_next_market_id ≡ some next
    → 1 ≤ id
    → id < next
    → next ≤ max_safe_integer
    → (client.contracts (Scope.market id)).get_market (pos id) ≡ returned found
    → read_prop "status" found ≡ returned shape
    → read_tag "status" found ≡ returned status
    → read_tag "final_outcome" found ≡ returned final
    → prop "fee_config" found ≢ JsValue.undefined
    → ((tick fixed client jobs).running ≡ false)
      × Shows fixed.network
          (pos id)
          (market_columns
            (env fixed client (Scope.market id))
            ledger
            (pos id)
            (normal fixed.language found)
            status
            final
            (prop "fee_config" found))
          (tick fixed client jobs).services.db
unfolding tick run safely
tick-Shows fixed client jobs ledger next id found shape status final idle read counted least below
      safe h0 h1 h2 h3 fees =
    let columns =
      market_columns (env fixed client (Scope.market id)) ledger (pos id)
        (normal fixed.language found) status final (prop "fee_config" found) in
    (
      ground (arith, idle),
      subst {A = ScheduledJobs} (λ j. Shows fixed.network (pos id) columns j.services.db)
          {x = record { running = false; services = (run fixed client jobs.services).1 }}
          {y = tick fixed client jobs} (ground (arith, idle))
          (subst (λ r. Shows fixed.network (pos id) columns r.1.db)
            (sym (
              read_on client.get_latest_ledger (reconcile_all fixed client) jobs.services ledger
                read))
            ((all_ensured fixed client ledger id found shape status final h0 h1 h2 h3 fees next
                counted least below safe).at
              jobs.services)),
    )
