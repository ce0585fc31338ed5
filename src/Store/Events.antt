-- ===== src/Store/Events.antt =====
-- What the statements of dike-services/src/db/repositories/state-repository.ts make of an event that
-- comes twice, and of the checkpoint of a contract.
use dike_monolith.Prelude.{
  ℕ, ◌≤◌, ◌≡◌, ◌==◌, Eq, List, if◌then◌else◌, ap, true, Option, some, none, String, string_eq,
  nat_eq, pair_eq, arith, or_else, is_some, Option-cases, inl, inr,
}
use dike_monolith.Prelude.Int.{ℤ}
use dike_monolith.Prelude.Dict.{lookup, lookup-insert_same}
use dike_monolith.Store.Values.{int_eq}
use dike_monolith.Store.Database.{
  Database, Checkpoint, get_checkpoint, advance_checkpoint, reset_checkpoint, add_lp_fees_claimed,
}

pub claim_skips :
    (network : String) (pool : ℤ) (owner : String) (amount : ℤ) (event_id : String) (db : Database)
    → is_some (lookup (network, event_id) db.lp_fee_claims) ≡ true
    → add_lp_fees_claimed network pool owner amount event_id db ≡ db
unfolding add_lp_fees_claimed
claim_skips network pool owner amount event_id db h = ground (arith, h)

-- The first write of a key: it stays, or what was there before it, and no other key is touched.
abbrev pub WrittenOnce {ℓ ℓ'} :
    {K : Type ℓ} {V : Type ℓ'}
    → ⦃equality : Eq K⦄ → K
    → V
    → List (K × V)
    → List (K × V)
    → Type (ℓ ⊔ ℓ')
WrittenOnce {K = K} key v before after =
    (j : K)
    → lookup j after ≡ (if key == j then some (or_else (lookup key before) v) else lookup j before)

-- An advance never takes a contract's ledger back and reaches at least its own, a reset sets it to its
-- own, and a reset drops the cursor.
pub checkpoint_moves :
    (network id : String) (ledger : ℕ) (cursor : Option String) (db : Database)
    → ((get_checkpoint network id db).last_processed_ledger
        ≤ (get_checkpoint network id
            (advance_checkpoint network id ledger cursor db)).last_processed_ledger)
      × (ledger
          ≤ (get_checkpoint network id
              (advance_checkpoint network id ledger cursor db)).last_processed_ledger)
      × (get_checkpoint network id (reset_checkpoint network id ledger db)
          ≡ record { last_processed_ledger = ledger; last_processed_cursor = none })
unfolding get_checkpoint advance_checkpoint reset_checkpoint
checkpoint_moves network id ledger cursor db =
    let key : String × String = (network, id) in
    let start : Checkpoint = record { last_processed_ledger = 0; last_processed_cursor = none } in
    let advanced : get_checkpoint network id (advance_checkpoint network id ledger cursor db) ≡ _ =
      ap (λ o. or_else o start) (lookup-insert_same key _ db.checkpoints) in
    (
      elim (Option-cases (lookup key db.checkpoints)) [
        | inl e ↦ ground (arith, advanced, e)
        | inr (c, e) ↦ ground (arith, advanced, e)
      ],
      elim (Option-cases (lookup key db.checkpoints)) [
        | inl e ↦ ground (arith, advanced, e)
        | inr (c, e) ↦ ground (arith, advanced, e)
      ],
      ap (λ o. or_else o start) (lookup-insert_same key _ db.checkpoints),
    )
