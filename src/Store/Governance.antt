-- ===== src/Store/Governance.antt =====
-- The governance tables and the counts of mismatches in
-- dike-services/src/db/repositories/state-repository.ts. The text of a JSON value is a parameter.
use dike_monolith.Prelude.{
  ℕ, Bool, false, not, ◌&&◌, Option, none, some, List, [], ◌∷◌, String, ◌==◌, string_eq, nat_eq,
  pair_eq, if◌then◌else◌, ltb, length, keep,
}
use dike_monolith.Prelude.Dict.{lookup, insert}
use dike_monolith.Store.Values.{JsValue}
use dike_monolith.Store.Upserts.{Columns}
use dike_monolith.Store.Database.{Database, EventRecord}

-- `upsertGovernanceConfig`, `upsertGovernanceModule` and `upsertGovernanceList`.
unfoldable pub upsert_governance_config : String → Columns → Database → Database
upsert_governance_config network values db = record db {
  governance_config = insert network values db.governance_config;
}

unfoldable pub upsert_governance_module : String → String → String → Database → Database
upsert_governance_module network role address db = record db {
  governance_modules = insert (network, role) address db.governance_modules;
}

unfoldable pub upsert_governance_list : String → String → String → Bool → Database → Database
upsert_governance_list network kind address approved db = record db {
  governance_lists = insert (network, (kind, address)) approved db.governance_lists;
}

-- An approval, by its address.
abbrev pub Approvals : Type 0
Approvals = List (String × Bool)

unfoldable pub is_true : JsValue → Bool
is_true (JsValue.boolean b) = b
is_true _ = false

-- `topic_values #>> '{1}'`.
unfoldable pub second_text : (JsValue → String) → List JsValue → Option String
second_text text [] = none
second_text text (v ∷ []) = none
second_text text (v ∷ (JsValue.undefined ∷ vs)) = none
second_text text (v ∷ (JsValue.null ∷ vs)) = none
second_text text (v ∷ (JsValue.string s ∷ vs)) = some s
second_text text (v ∷ (w ∷ vs)) = some (text w)

-- The latest of two rows of an address: by the ledger, and then by the time of insertion.
unfoldable pub take_latest :
    String → ℕ → Bool → List (String × (ℕ × Bool)) → List (String × (ℕ × Bool))
take_latest address ledger approved m = elim (lookup address m) [
  | none ↦ insert address (ledger, approved) m
  | some old ↦ if ltb ledger old.0 then m else insert address (ledger, approved) m
]

-- `ORDER BY` puts the rows by address, which no caller depends on; here they are in the order in which
-- the addresses came.
unfoldable pub latest_approvals :
    (JsValue → String)
    → String
    → String
    → String
    → List ((String × String) × EventRecord)
    → List (String × (ℕ × Bool))
    → List (String × (ℕ × Bool))
latest_approvals text network id topic [] m = m
latest_approvals text network id topic ((key, e) ∷ es) m =
    latest_approvals text network id topic es (
      if (e.network == network && e.contract_id == id) && e.topic == topic
      then elim (second_text text e.topic_values) [
        | none ↦ m
        | some address ↦ take_latest address e.ledger (is_true e.payload) m
      ]
      else m)

-- The rows with an address that is not empty.
unfoldable pub approvals_of : List (String × (ℕ × Bool)) → Approvals
approvals_of [] = []
approvals_of ((address, (ledger, approved)) ∷ rows) =
    if address == "" then approvals_of rows else (address, approved) ∷ approvals_of rows

-- `getLatestGovernanceApprovals`.
unfoldable pub get_latest_governance_approvals :
    (JsValue → String) → String → String → String → Database → Approvals
get_latest_governance_approvals text network id topic db =
    approvals_of (latest_approvals text network id topic db.raw_events [])

-- `getMismatchCount` and `getPersistentMismatchCount`.
unfoldable pub get_mismatch_count : Database → ℕ
get_mismatch_count db = length db.mismatches

unfoldable pub get_persistent_mismatch_count : ℕ → Database → ℕ
get_persistent_mismatch_count min_seen db =
    length (keep (λ row. not (ltb row.1 min_seen)) db.mismatches)
