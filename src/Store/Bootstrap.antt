-- ===== src/Store/Bootstrap.antt =====
-- `bootstrapManifest` of dike-services/src/db/repositories/state-repository.ts, for the manifest's own network. The row of
-- the network itself is left out.
use dike_monolith.Prelude.{
  ◌≡◌, refl, ap, ◌∙◌, inl, inr, arith, Bool, true, false, not, ◌&&◌, ◌||◌, none, some, List, [],
  ◌∷◌, String, ◌==◌, string_eq, pair_eq, if◌then◌else◌, Bool-cases, or_else, ==_refl,
}
use dike_monolith.Prelude.Dict.{lookup, insert, insert_new, lookup-insert_new}
use dike_monolith.Store.Database.{Database, Checkpoint}

-- The body of the loop: the module's contract, and a checkpoint at ledger 0 where it has none.
unfoldable pub deploy : String → String → String → Database → Database
deploy network name id db = if id == "" then db else record db {
  deployments = insert name id db.deployments;
  checkpoints =
      insert_new (network, id) (record { last_processed_ledger = 0; last_processed_cursor = none })
        db.checkpoints;
}

unfoldable pub bootstrap_manifest : String → List (String × String) → Database → Database
bootstrap_manifest network [] db = db
bootstrap_manifest network ((name, id) ∷ contracts) db =
    bootstrap_manifest network contracts (deploy network name id db)

abbrev pub start : Checkpoint
start = record { last_processed_ledger = 0; last_processed_cursor = none }

deploy_full :
    (network name id : String) (db : Database)
    → (id == "") ≡ false
    → (deploy network name id db).checkpoints ≡ insert_new (network, id) start db.checkpoints
unfolding deploy
deploy_full network name id db h = ground (arith, h)

deploy_blank :
    (network name id : String) (db : Database) → (id == "") ≡ true → deploy network name id db ≡ db
unfolding deploy
deploy_blank network name id db h = ground (arith, h)

-- Whether the manifest names the contract.
unfoldable pub is_deployed : String → List (String × String) → Bool
is_deployed id [] = false
is_deployed id ((name, i) ∷ contracts) = (not (i == "") && i == id) || is_deployed id contracts

deploy_checkpoint :
    (network name i id : String) (db : Database)
    → lookup (network, id) (deploy network name i db).checkpoints ≡ (
        if not (i == "") && i == id
        then some (or_else (lookup (network, id) db.checkpoints) start)
        else lookup (network, id) db.checkpoints)
deploy_checkpoint network name i id db = elim (Bool-cases (i == "")) [
  | inl y ↦
      ap (λ d. lookup (network, id) d.checkpoints) (deploy_blank network name i db y)
      ∙ ground (arith, y)
  | inr n ↦
      ap (lookup (network, id)) (deploy_full network name i db n)
      ∙ lookup-insert_new (network, i) (network, id) start db.checkpoints
      ∙ ground (arith, n, ==_refl network, string_eq.beq_iff i id)
]

-- A start of the service leaves a contract that the manifest names with the checkpoint that it had, or with one at
-- ledger 0 where it had none, and every other contract's as it was: no restart moves a checkpoint.
pub bootstrap_checkpoint :
    (network id : String) (contracts : List (String × String)) (db : Database)
    → lookup (network, id) (bootstrap_manifest network contracts db).checkpoints ≡ (
        if is_deployed id contracts
        then some (or_else (lookup (network, id) db.checkpoints) start)
        else lookup (network, id) db.checkpoints)
unfolding bootstrap_manifest is_deployed
bootstrap_checkpoint network id [] db = refl
bootstrap_checkpoint network id ((name, i) ∷ contracts) db = ground (
  arith,
  bootstrap_checkpoint network id contracts (deploy network name i db),
  deploy_checkpoint network name i id db,
)
