-- ===== src/Store/Framed.antt =====
-- What the projection of one event may change in the tables of
-- dike-services/src/db/repositories/state-repository.ts that are not projections of the chain.
use dike_monolith.Prelude.{
  ℕ, subst, ◌≡◌, inl, inr, refl, ap, sym, ◌∙◌, Eq, Bool, true, false, none, some, List, String,
  string_eq, pair_eq, nat_eq, arith, is_some, Option-cases, Bool-cases, ◌==◌,
}
use dike_monolith.Prelude.Int.{ℤ, ◌+ℤ◌}
use dike_monolith.Prelude.Dict.{lookup, insert, insert_new, lookup-insert, lookup-insert_new}
use dike_monolith.Store.Values.{int_eq}
use dike_monolith.Store.Upserts.{Columns, Rows}
use dike_monolith.Store.Tables.{Table}
use dike_monolith.Store.Events.{claim_skips}
use dike_monolith.Store.Database.{
  Database, insert_trade, insert_liquidity_event, add_lp_fees_claimed,
}

-- One map is the other with at most an entry more, at the key.
pub record Adds {K V : Type 0} ⦃k_eq : Eq K⦄ (key : K) (before after : List (K × V)) : Type 0 where
  pub keeps : (k : K) (v : V) → lookup k before ≡ some v → lookup k after ≡ some v
  pub others : (k : K) → (key == k) ≡ false → lookup k after ≡ lookup k before

-- The database after the projection of an event, and before it: the tables of the worker itself are the
-- same, the three tables of events have at most a row of this event more, and the sums of fees stay where
-- the event's claim was recorded before.
pub record Framed (event : String × String) (before db : Database) : Type 0 where
  pub deployments : db.deployments ≡ before.deployments
  pub checkpoints : db.checkpoints ≡ before.checkpoints
  pub raw_events : db.raw_events ≡ before.raw_events
  pub lease : db.lease ≡ before.lease
  pub trades : Adds event before.trades db.trades
  pub liquidity_events : Adds event before.liquidity_events db.liquidity_events
  pub lp_fee_claims : Adds event before.lp_fee_claims db.lp_fee_claims
  pub fees_claimed :
      is_some (lookup event before.lp_fee_claims) ≡ true
      → (k : String × (ℤ × String)) (v : ℤ) → lookup k before.fees_claimed ≡ some v
      → lookup k db.fees_claimed ≡ some v

module _ {K V : Type 0} ⦃k_eq : Eq K⦄ (key : K) where
  pub Adds-refl : (m : List (K × V)) → Adds key m m
  Adds-refl m = record { keeps = λ k v h. h; others = λ k h. refl }

  Adds-insert_new : (v : V) (a b : List (K × V)) → Adds key a b → Adds key a (insert_new key v b)
  Adds-insert_new v a b h = record {
    keeps = λ k w e. elim (Bool-cases (key == k)) [
      | inl y ↦ ground (arith, y, k_eq.beq_iff key k, lookup-insert_new key k v b, h.keeps k w e)
      | inr n ↦ ground (arith, n, lookup-insert_new key k v b, h.keeps k w e)
    ];
    others = λ k n. ground (arith, n, lookup-insert_new key k v b, h.others k n);
  }

  -- An insertion where the key has no entry.
  Adds-insert :
      (v : V) (a b : List (K × V))
      → is_some (lookup key b) ≡ false
      → Adds key a b
      → Adds key a (insert key v b)
  Adds-insert v a b new h = record {
    keeps = λ k w e. elim (Bool-cases (key == k)) [
      | inl y ↦ ground (arith, new, y, k_eq.beq_iff key k, lookup-insert key k v b, h.keeps k w e)
      | inr n ↦ ground (arith, n, lookup-insert key k v b, h.keeps k w e)
    ];
    others = λ k n. ground (arith, n, lookup-insert key k v b, h.others k n);
  }

  pub Adds-trans : (a b c : List (K × V)) → Adds key a b → Adds key b c → Adds key a c
  Adds-trans a b c h k = record {
    keeps = λ i v e. k.keeps i v (h.keeps i v e);
    others = λ i n. k.others i n ∙ h.others i n;
  }

  -- An entry at the key stays.
  Adds-is_some :
      (a b : List (K × V))
      → Adds key a b
      → is_some (lookup key a) ≡ true
      → is_some (lookup key b) ≡ true
  Adds-is_some a b h e = elim (Option-cases (lookup key a)) [
    | inl n ↦ ground (arith, e, n)
    | inr (v, y) ↦ ap is_some (h.keeps key v y)
  ]

  -- A new entry of some key leaves those there are.
  pub insert_new-keeps :
      (v : V) (m : List (K × V)) (k : K) (w : V)
      → lookup k m ≡ some w
      → lookup k (insert_new key v m) ≡ some w
  insert_new-keeps v m k w e = elim (Bool-cases (key == k)) [
    | inl y ↦ ground (arith, y, k_eq.beq_iff key k, lookup-insert_new key k v m, e)
    | inr n ↦ ground (arith, n, lookup-insert_new key k v m, e)
  ]

module _ (event : String × String) (before : Database) where
  pub Framed-refl : Framed event before before
  Framed-refl = record {
    deployments = refl;
    checkpoints = refl;
    raw_events = refl;
    lease = refl;
    trades = Adds-refl event before.trades;
    liquidity_events = Adds-refl event before.liquidity_events;
    lp_fee_claims = Adds-refl event before.lp_fee_claims;
    fees_claimed = λ h k v e. e;
  }

  -- The other tables may change.
  pub Framed-others :
      (db : Database) (m : List ((String × (String × (String × String))) × ℕ))
      (config : List (String × Columns)) (modules : List ((String × String) × String))
      (lists : List ((String × (String × String)) × Bool)) (tables : Table → Rows)
      → Framed event before db
      → Framed event before (record db {
        mismatches = m;
        governance_config = config;
        governance_modules = modules;
        governance_lists = lists;
        tables = tables;
      })
  Framed-others db m config modules lists tables h = record {
    deployments = h.deployments;
    checkpoints = h.checkpoints;
    raw_events = h.raw_events;
    lease = h.lease;
    trades = h.trades;
    liquidity_events = h.liquidity_events;
    lp_fee_claims = h.lp_fee_claims;
    fees_claimed = h.fees_claimed;
  }

  pub Framed-insert_new_sum :
      (db : Database) (j : String × (ℤ × String)) (v : ℤ)
      → Framed event before db
      → Framed event before (record db { fees_claimed = insert_new j v db.fees_claimed })
  Framed-insert_new_sum db j v h = record {
    deployments = h.deployments;
    checkpoints = h.checkpoints;
    raw_events = h.raw_events;
    lease = h.lease;
    trades = h.trades;
    liquidity_events = h.liquidity_events;
    lp_fee_claims = h.lp_fee_claims;
    fees_claimed = λ c k w e. insert_new-keeps j v db.fees_claimed k w (h.fees_claimed c k w e);
  }

module _ (network id : String) (before : Database) where
  pub Framed-insert_trade :
      (row : Columns) (db : Database)
      → Framed (network, id) before db
      → Framed (network, id) before (insert_trade network id row db)
  unfolding insert_trade
  Framed-insert_trade row db h = record {
    deployments = h.deployments;
    checkpoints = h.checkpoints;
    raw_events = h.raw_events;
    lease = h.lease;
    trades = Adds-insert_new (network, id) row before.trades db.trades h.trades;
    liquidity_events = h.liquidity_events;
    lp_fee_claims = h.lp_fee_claims;
    fees_claimed = h.fees_claimed;
  }

  pub Framed-insert_liquidity_event :
      (row : Columns) (db : Database)
      → Framed (network, id) before db
      → Framed (network, id) before (insert_liquidity_event network id row db)
  unfolding insert_liquidity_event
  Framed-insert_liquidity_event row db h = record {
    deployments = h.deployments;
    checkpoints = h.checkpoints;
    raw_events = h.raw_events;
    lease = h.lease;
    trades = h.trades;
    liquidity_events =
        Adds-insert_new (network, id) row before.liquidity_events db.liquidity_events
          h.liquidity_events;
    lp_fee_claims = h.lp_fee_claims;
    fees_claimed = h.fees_claimed;
  }

  claim_new :
      (pool : ℤ) (owner : String) (amount : ℤ) (db : Database)
      → is_some (lookup (network, id) db.lp_fee_claims) ≡ false
      → Framed (network, id) before db
      → Framed (network, id) before (add_lp_fees_claimed network pool owner amount id db)
  unfolding add_lp_fees_claimed
  claim_new pool owner amount db new h =
      subst (Framed (network, id) before)
        {x = record db {
          lp_fee_claims = insert (network, id) amount db.lp_fee_claims;
          fees_claimed = elim (lookup (network, (pool, owner)) db.fees_claimed) [
            | none ↦ db.fees_claimed
            | some total ↦ insert (network, (pool, owner)) (total +ℤ amount) db.fees_claimed
          ];
        }}
        (ground (arith, new))
        (record {
          deployments = h.deployments;
          checkpoints = h.checkpoints;
          raw_events = h.raw_events;
          lease = h.lease;
          trades = h.trades;
          liquidity_events = h.liquidity_events;
          lp_fee_claims =
              Adds-insert (network, id) amount before.lp_fee_claims db.lp_fee_claims new
                h.lp_fee_claims;
          fees_claimed = λ c k w e. absurd (
              ground (
                arith,
                new,
                Adds-is_some (network, id) before.lp_fee_claims db.lp_fee_claims h.lp_fee_claims c,
              ));
        })

  pub Framed-add_lp_fees_claimed :
      (pool : ℤ) (owner : String) (amount : ℤ) (db : Database)
      → Framed (network, id) before db
      → Framed (network, id) before (add_lp_fees_claimed network pool owner amount id db)
  Framed-add_lp_fees_claimed pool owner amount db h =
      elim (Bool-cases (is_some (lookup (network, id) db.lp_fee_claims))) [
        | inl y ↦
            subst (Framed (network, id) before)
              (sym (claim_skips network pool owner amount id db y)) h
        | inr n ↦ claim_new pool owner amount db n h
      ]
